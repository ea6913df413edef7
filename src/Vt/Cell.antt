-- ===== src/Vt/Cell.antt =====
-- Cells, renditions and rows, from the head of internal/vt/screen.go.
use pairmux.Prelude.{ℕ, List, [], Bool, false, get_or}

-- `color`: the packed word's kind byte is the constructor, its low bits the argument.
pub data Color : Type 0 where
  default_color : Color
  indexed : ℕ → Color
  rgb : ℕ → ℕ → ℕ → Color

-- `attr`; each bit of its `flags` word is a field.
pub record Attr : Type 0 where
  pub fg : Color
  pub bg : Color
  pub ulc : Color
  pub bold : Bool
  pub dim : Bool
  pub italic : Bool
  pub blink : Bool
  pub reverse : Bool
  pub invisible : Bool
  pub strike : Bool
  pub overline : Bool
  pub ul : ℕ

abbrev pub zero_attr : Attr
zero_attr = record {
  fg = default_color;
  bg = default_color;
  ulc = default_color;
  bold = false;
  dim = false;
  italic = false;
  blink = false;
  reverse = false;
  invisible = false;
  strike = false;
  overline = false;
  ul = 0;
}

-- `cell`; the two bits of its `flags` byte are `wide` (cellWide) and `pad` (cellPad), and `comb`
-- holds UTF-8 bytes.
pub record Cell : Type 0 where
  pub r : ℕ
  pub wide : Bool
  pub pad : Bool
  pub a : Attr
  pub comb : List ℕ

abbrev pub zero_cell : Cell
zero_cell = record { r = 0; wide = false; pad = false; a = zero_attr; comb = [] }

-- A blank in rendition `a`: `cell{a: a}`.
abbrev pub blank_of : Attr → Cell
blank_of a = record { r = 0; wide = false; pad = false; a = a; comb = [] }

-- `cells[x]`
abbrev pub cell_at : List Cell → ℕ → Cell
cell_at cells x = get_or cells x zero_cell

pub record Line : Type 0 where
  pub cells : List Cell
  pub used : Bool

abbrev pub zero_line : Line
zero_line = record { cells = []; used = false }
