-- ===== src/Vt/Strings.antt =====
-- The payloads of OSC, DCS and APC strings, from internal/vt/parser.go.
pub mod Safe
use pairmux.Prelude.{
  ℕ, zero, suc, ◌+◌, ◌-◌, ◌*◌, List, [], ◌∷◌, ◌++◌, Option, none, some, Bool, true, false, not,
  ◌&&◌, ◌||◌, ltb, leb, ◌==◌, within, if◌then◌else◌, length, get_or, take, drop,
}
use pairmux.Bytes.{bytes_eq, split, cut_at, all_bytes, span_length}
use pairmux.Bytes.Numbers.{number_onto}
use pairmux.Vt.Csi.{answer}
use pairmux.Vt.Render.{esc}
use pairmux.Vt.State.{Screen}
use pairmux.Vt.Text.{codes, decimal, rune_len, encode_rune, is_empty}
use pairmux.Vt.Utf8.{decode_rune}

-- `strconv.Atoi` on digits. A number that overflows an int is an error there and forwarded, as is
-- every number without a case here.
unfoldable pub parse_number : List ℕ → Option ℕ
unfolding number_onto all_bytes is_empty
parse_number b =
    if is_empty b || not (all_bytes (λ c. within b'0' b'9' c) b)
    then none
    else some (number_onto 0 b)

-- The loop of `sanitizeTitle`, on fuel: each round consumes a byte at least.
unfoldable sanitize_loop : ℕ → List ℕ → List ℕ → List ℕ
unfolding decode_rune rune_len encode_rune
sanitize_loop zero p out = out
sanitize_loop (suc fuel) [] out = out
sanitize_loop (suc fuel) (b ∷ rest) out =
    let (r, n) = decode_rune (b ∷ rest) in
    let p' = drop n (b ∷ rest) in
    let skipped = sanitize_loop fuel p' out in
    let kept = sanitize_loop fuel p' (out ++ encode_rune r) in
    if ltb r 0x20 || (leb 0x7F r && ltb r 0xA0)
    then skipped
    else if ltb 1024 (length out + rune_len r)
    then out
    else kept

unfoldable sanitize_title : List ℕ → List ℕ
unfolding sanitize_loop
sanitize_title p = sanitize_loop (length p) p []

-- `for i := 1; i < len(parts); i += 2`: whether an entry at an odd index is "?".
unfoldable odd_query : List (List ℕ) → Bool
unfolding bytes_eq
odd_query (a ∷ b ∷ rest) = bytes_eq b (codes "?") || odd_query rest
odd_query _ = false

-- `oscColorReplies`
unfoldable color_reply : ℕ → Option (List ℕ)
color_reply n =
    if n == 10
    then some (codes "rgb:c0c0/c0c0/c0c0")
    else if n == 11
    then some (codes "rgb:0000/0000/0000")
    else if n == 12
    then some (codes "rgb:c0c0/c0c0/c0c0")
    else none

-- The answer to one part of a dynamic color query.
unfoldable color_answer : ℕ → Bool → List ℕ
unfolding color_reply decimal
color_answer n st = elim (color_reply n) [
  | none ↦ []
  | some v ↦
      esc ∷ b']' ∷ (decimal n ++ (b';' ∷ (v ++ (if st then esc ∷ codes "\\" else 0x07 ∷ []))))
]

-- The loop over the parts of a dynamic color sequence: the answers, and whether it is a query.
unfoldable color_query : ℕ → List (List ℕ) → Bool → List ℕ × Bool
unfolding color_answer bytes_eq
color_query n [] st = ([], false)
color_query n (part ∷ parts) st =
    let rest = color_query (n + 1) parts st in
    if bytes_eq part (codes "?") then (color_answer n st ++ rest.0, true) else rest

-- The clipboard query of OSC 52.
unfoldable clipboard_query : Option (List ℕ) → Bool
unfolding bytes_eq
clipboard_query none = false
clipboard_query (some data') = bytes_eq data' (codes "?")

-- `osc` once its number is parsed.
unfoldable pub osc_number : Screen → ℕ → List ℕ → Bool → Screen × Bool
unfolding sanitize_title split odd_query color_query cut_at clipboard_query
osc_number s num rest st =
    let query = color_query num (split b';' rest) st in
    if num == 0 || num == 2
    then (record s { title = sanitize_title rest }, true)
    else if num == 4
    then (s, not (odd_query (split b';' rest)))
    else if within 10 19 num
    then (answer s query.0, not query.1)
    else if num == 52
    then (s, not (clipboard_query (cut_at b';' rest).1))
    else (s, true)

unfoldable pub osc : Screen → List ℕ → Bool → Screen × Bool
unfolding osc_number cut_at parse_number
osc s payload st =
    let (num, rest) = cut_at b';' payload in
    let rest' : List ℕ = elim rest [ none ↦ [] | some r ↦ r ] in
    elim (parse_number num) [ none ↦ (s, true) | some n ↦ osc_number s n rest' st ]

-- `dcs`
unfoldable pub dcs : Screen → List ℕ → Screen × Bool
unfolding span_length
dcs s payload =
    let k = span_length (λ c. within 0x30 0x3F c) payload in
    let inter = span_length (λ c. within 0x20 0x2F c) (drop k payload) in
    let j = k + inter in
    let mark = get_or payload k 0 in
    if leb (length payload) j
      || not (k == 0)
      || not (inter == 1)
      || not (get_or payload j 0 == b'q')
    then (s, true)
    else if mark == b'$'
    then (answer s (esc ∷ codes "P0$r" ++ (esc ∷ codes "\\")), false)
    else if mark == b'+'
    then (answer s (esc ∷ codes "P0+r" ++ (esc ∷ codes "\\")), false)
    else (s, true)

unfoldable any_query : List (List ℕ) → Bool
unfolding bytes_eq
any_query [] = false
any_query (kv ∷ kvs) = bytes_eq kv (codes "a=q") || any_query kvs

-- `isKittyGraphicsQuery`
unfoldable pub is_kitty_query : List ℕ → Bool
unfolding any_query split cut_at
is_kitty_query [] = false
is_kitty_query (g ∷ rest) = (g == b'G') && any_query (split b',' (cut_at b';' rest).0)
