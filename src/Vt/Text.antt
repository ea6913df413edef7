-- ===== src/Vt/Text.antt =====
-- Text as bytes: what internal/vt uses of unicode/utf8 and strconv, and the capture text of a row.
use pairmux.Prelude.{
  ℕ, ◌+◌, ◌/◌, ◌%◌, List, [], ◌∷◌, ◌++◌, Bool, ◌&&◌, ◌||◌, ltb, ◌==◌, if◌then◌else◌,
}
unfoldable pub use pairmux.Bytes.{codes, is_empty, trim_end}
unfoldable pub use pairmux.Bytes.Numbers.{decimal}
use pairmux.Vt.Cell.{Cell}

-- `utf8.RuneLen` of a code point that a decoder returned.
unfoldable pub rune_len : ℕ → ℕ
rune_len r = if ltb r 0x80 then 1 else if ltb r 0x800 then 2 else if ltb r 0x10000 then 3 else 4

-- `utf8.AppendRune(nil, r)` of such a code point.
unfoldable pub encode_rune : ℕ → List ℕ
encode_rune r =
    if ltb r 0x80
    then r ∷ []
    else if ltb r 0x800
    then (0xC0 + r / 64) ∷ (0x80 + r % 64) ∷ []
    else if ltb r 0x10000
    then (0xE0 + r / 4096) ∷ (0x80 + r / 64 % 64) ∷ (0x80 + r % 64) ∷ []
    else (0xF0 + r / 262144) ∷ (0x80 + r / 4096 % 64) ∷ (0x80 + r / 64 % 64) ∷ (0x80 + r % 64) ∷ []

is_trimmed : Cell → Bool
unfolding is_empty
is_trimmed c = (c.r == 0 || c.r == b' ') && is_empty c.comb

cell_text : Cell → List ℕ
unfolding encode_rune
cell_text c = if c.pad then [] else if c.r == 0 then b' ' ∷ [] else encode_rune c.r ++ c.comb

cells_text : List Cell → List ℕ
unfolding cell_text
cells_text [] = []
cells_text (c ∷ cs) = cell_text c ++ cells_text cs

-- `appendLineText(nil, cells)` without its newline.
unfoldable pub line_text : List Cell → List ℕ
unfolding cells_text is_trimmed trim_end
line_text cells = trim_end (λ b. b == b' ') (cells_text (trim_end is_trimmed cells))
