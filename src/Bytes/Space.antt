-- ===== src/Bytes/Space.antt =====
-- White space at the ends of UTF-8 text: strings.TrimSpace and strings.TrimRight.
use pairmux.Prelude.{
  ℕ, zero, suc, List, Bool, ◌||◌, ◌&&◌, ◌==◌, within, if◌then◌else◌, length, take, drop, ◌-◌,
  get_or,
}
use pairmux.Bytes.{is_empty, trim_end}

-- The ASCII bytes that `unicode.IsSpace` accepts.
abbrev ascii_space : ℕ → Bool
ascii_space b = within 0x09 0x0D b || b == 0x20

-- Whether three bytes encode a space of `unicode.IsSpace` beyond Latin-1.
abbrev wide_space : ℕ → ℕ → ℕ → Bool
wide_space a b c =
    (a == 0xE1 && (b == 0x9A && c == 0x80))
    || (a == 0xE2
        && ((b == 0x80 && (within 0x80 0x8A c || (c == 0xA8 || (c == 0xA9 || c == 0xAF))))
            || (b == 0x81 && c == 0x9F)))
    || (a == 0xE3 && (b == 0x80 && c == 0x80))

-- How many bytes the space that begins the text takes, 0 when none does.
unfoldable pub space_width : List ℕ → ℕ
space_width b =
    let x = get_or b 0 0 in
    let y = get_or b 1 0 in
    if ascii_space x
    then 1
    else if (x == 0xC2) && (y == 0x85 || y == 0xA0)
    then 2
    else if wide_space x y (get_or b 2 0)
    then 3
    else 0

-- The loop of `TrimLeftFunc`, on fuel: each round drops a byte at least.
unfoldable pub trim_left : ℕ → List ℕ → List ℕ
unfolding space_width
trim_left zero b = b
trim_left (suc fuel) b =
    let rest = trim_left fuel (drop (space_width b) b) in if space_width b == 0 then b else rest

-- How many bytes the space that ends the text takes.
unfoldable pub end_space : List ℕ → ℕ
end_space b =
    let n = length b in
    if ascii_space (get_or b (n - 1) 0)
    then 1
    else if (get_or b (n - 2) 0 == 0xC2)
        && (get_or b (n - 1) 0 == 0x85 || get_or b (n - 1) 0 == 0xA0)
    then 2
    else if wide_space (get_or b (n - 3) 0) (get_or b (n - 2) 0) (get_or b (n - 1) 0)
    then 3
    else 0

-- The loop of `TrimRightFunc`, on fuel.
unfoldable pub trim_right : ℕ → List ℕ → List ℕ
unfolding end_space
trim_right zero b = b
trim_right (suc fuel) b =
    let rest = trim_right fuel (take (length b - end_space b) b) in
    if end_space b == 0 then b else rest

-- `strings.TrimSpace`
unfoldable pub trim_space : List ℕ → List ℕ
unfolding trim_left trim_right
trim_space b = let left = trim_left (length b) b in trim_right (length left) left

-- `strings.TrimSpace(b) == ""`
unfoldable pub is_blank : List ℕ → Bool
unfolding is_empty trim_space
is_blank b = is_empty (trim_space b)

-- `strings.TrimRight(b, " \t")`
unfoldable pub trim_padding : List ℕ → List ℕ
unfolding trim_end
trim_padding b = trim_end (λ c. c == 0x20 || c == 0x09) b
