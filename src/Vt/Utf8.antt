-- ===== src/Vt/Utf8.antt =====
-- `utf8.FullRune` and `utf8.DecodeRune` of Go's standard library, which internal/vt/parser.go
-- decodes its input with.
pub mod Sizes
use pairmux.Prelude.{
  ℕ, zero, suc, ◌+◌, ◌-◌, ◌*◌, ◌%◌, List, [], ◌∷◌, Bool, true, false, not, ◌&&◌, ◌||◌, ltb, leb,
  ◌==◌, within, if◌then◌else◌, length, get_or,
}

-- How many bytes a rune that starts with `b` has; 1 for an invalid first byte.
unfoldable rune_size : ℕ → ℕ
rune_size b =
    if within 0xC2 0xDF b
    then 2
    else if within 0xE0 0xEF b
    then 3
    else if within 0xF0 0xF4 b
    then 4
    else 1

-- Whether `c` may follow the first byte `b`.
unfoldable pub accepts : ℕ → ℕ → Bool
accepts b c =
    if b == 0xE0
    then within 0xA0 0xBF c
    else if b == 0xED
    then within 0x80 0x9F c
    else if b == 0xF0
    then within 0x90 0xBF c
    else if b == 0xF4
    then within 0x80 0x8F c
    else within 0x80 0xBF c

abbrev is_continuation : ℕ → Bool
is_continuation c = within 0x80 0xBF c

unfoldable pub full_rune : List ℕ → Bool
unfolding rune_size accepts
full_rune [] = false
full_rune (b ∷ rest) =
    leb (rune_size b) (length (b ∷ rest))
    || (ltb 0 (length rest) && not (accepts b (get_or rest 0 0)))
    || (ltb 1 (length rest) && not (is_continuation (get_or rest 1 0)))

abbrev rune_error : ℕ × ℕ
rune_error = (0xFFFD, 1)

-- The rune at the head of the bytes, and its size.
unfoldable pub decode_rune : List ℕ → ℕ × ℕ
unfolding rune_size accepts
decode_rune [] = (0xFFFD, 0)
decode_rune (b ∷ rest) =
    let c1 = get_or rest 0 0 in
    let c2 = get_or rest 1 0 in
    let c3 = get_or rest 2 0 in
    let size = rune_size b in
    if ltb b 0x80
    then (b, 1)
    else if size == 1 || ltb (length (b ∷ rest)) size || not (accepts b c1)
    then rune_error
    else if size == 2
    then (b % 32 * 64 + c1 % 64, 2)
    else if not (is_continuation c2)
    then rune_error
    else if size == 3
    then (b % 16 * 4096 + c1 % 64 * 64 + c2 % 64, 3)
    else if not (is_continuation c3)
    then rune_error
    else (b % 8 * 262144 + c1 % 64 * 4096 + c2 % 64 * 64 + c3 % 64, 4)
