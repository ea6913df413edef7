-- ===== src/Vt/Print.antt =====
-- Printing: `printGlyph`, `combine`, `widen`, `joinPrev` and `printRune` of internal/vt/screen.go,
-- `RuneWidth` of internal/vt/width.go, and `printASCII` of internal/vt/parser.go.
pub mod Safe
pub mod Combine
pub mod Ascii
use pairmux.Prelude.{
  ℕ, zero, suc, ◌+◌, ◌-◌, ◌≤◌, ◌<◌, min, ◌≡◌, List, [], ◌∷◌, ◌++◌, Option, none, some, Bool, true,
  false, not, ◌&&◌, ◌||◌, ltb, leb, ◌==◌, within, if◌then◌else◌, length, get_or, set, take, drop,
}
use pairmux.Vt.Cell.{Cell, Line, cell_at}
use pairmux.Vt.Row
use pairmux.Vt.Scroll.{index}
use pairmux.Vt.State.{Screen, buf, set_line, set_cells, line_at, blank, max_comb}
use pairmux.Vt.Text.{rune_len, encode_rune, is_empty}
use pairmux.Vt.Width.{Unicode, rune_width, is_regional_indicator}

-- What a glyph needs before it is written: a pending wrap is carried out.
unfoldable pub wrap_pending : Screen → Screen
wrap_pending s = if s.pending_wrap then index (record s { pending_wrap = false; cx = 0 }) else s

-- The cursor's advance over a glyph of width `w` at column `x`.
abbrev pub advance : Screen → ℕ → ℕ → Screen
advance s x w =
    if ltb (x + w) s.cols
    then record s { cx = x + w }
    else record s { cx = s.cols - 1; pending_wrap = (s.modes).autowrap }

-- `printGlyph` from the write on, where the glyph fits from the cursor on.
unfoldable pub write_glyph : Screen → ℕ → ℕ → Screen
write_glyph s r w =
    let ln = line_at s s.cy in
    let inserted =
      if (s.modes).insert then Row.insert_cells ln.cells (blank s) s.cx w else ln.cells in
    let cells = Row.put_glyph inserted s.cx r w s.pen in
    advance
      (record (set_line s s.cy (record { cells = cells; used = true })) {
        last_rune = r;
        last_width = w;
      })
      s.cx w

unfoldable pub print_glyph : Screen → ℕ → ℕ → Screen
print_glyph s r w =
    if w == 2 && ltb s.cols 2
    then s
    else let s' = wrap_pending s in
      if w == 2 && (s'.cx == s'.cols - 1)
      then (if (s'.modes).autowrap then write_glyph (index (record s' { cx = 0 })) r w else s')
      else write_glyph s' r w

-- `prevCellX`; -1 is `none`.
unfoldable pub prev_cell_x : Screen → Option ℕ
prev_cell_x s =
    let vx = if s.pending_wrap then s.cols else s.cx in
    let cells = (line_at s s.cy).cells in
    if vx == 0
    then none
    else if (cell_at cells (vx - 1)).pad
    then (if vx == 1 || not (cell_at cells (vx - 2)).wide then none else some (vx - 2))
    else if (cell_at cells (vx - 1)).wide
    then none
    else some (vx - 1)

-- `widen`
unfoldable pub widen : Screen → ℕ → Screen
widen s x =
    let cells = (line_at s s.cy).cells in
    let s' = set_cells s s.cy (Row.put_widened cells x) in
    let nx = if s.pending_wrap then s.cols + 1 else s.cx + 1 in
    if leb s.cols (x + 1)
    then s
    else if ltb nx s.cols
    then record s' { cx = nx; pending_wrap = false }
    else record s' { cx = s.cols - 1; pending_wrap = (s.modes).autowrap }

-- The cell at column `x` of the cursor's row.
abbrev pub cell_of : Screen → ℕ → Cell
cell_of s x = cell_at (line_at s s.cy).cells x

-- A write of that cell.
abbrev set_cell : Screen → ℕ → Cell → Screen
set_cell s x c = set_cells s s.cy (set (line_at s s.cy).cells x c)

abbrev pub vs16 : ℕ
vs16 = 0xFE0F

-- `combine` with the column that `prevCellX` found.
unfoldable pub combine_at : Screen → ℕ → ℕ → Screen
combine_at s x r =
    let c = cell_of s x in
    let joined = record c { r = if c.r == 0 then b' ' else c.r; comb = c.comb ++ encode_rune r } in
    let ln = line_at s s.cy in
    let s' = set_line s s.cy (record { cells = set ln.cells x joined; used = true }) in
    if ltb max_comb (length c.comb + rune_len r)
    then s
    else if (r == vs16) && not c.wide
    then widen s' x
    else s'

unfoldable pub combine : Screen → ℕ → Screen
combine s r = elim (prev_cell_x s) [ none ↦ s | some x ↦ combine_at s x r ]

-- These three bytes are the UTF-8 of U+200D, and there are no others.
is_zwj : List ℕ → Bool
is_zwj (x ∷ y ∷ z ∷ []) = (x == 0xE2) && (y == 0x80) && (z == 0x8D)
is_zwj _ = false

-- `len(comb) >= 3 && comb[len(comb)-3:] == "\u200d"`
unfoldable pub ends_in_zwj : List ℕ → Bool
unfolding is_zwj
ends_in_zwj [] = false
ends_in_zwj (a ∷ rest) = is_zwj (a ∷ rest) || ends_in_zwj rest

-- `joinPrev` with the column that `prevCellX` found; the flag says whether `r` was consumed.
unfoldable pub join_at : Screen → ℕ → ℕ → Screen × Bool
join_at s x r =
    let c = cell_of s x in
    if ends_in_zwj c.comb
    then (
      if leb (length c.comb + rune_len r) max_comb
          then set_cell s x (record c { comb = c.comb ++ encode_rune r })
          else s,
      true,
    )
    else if is_regional_indicator r && is_regional_indicator c.r && is_empty c.comb && not c.wide
    then (widen (set_cell s x (record c { comb = encode_rune r })) x, true)
    else (s, false)

unfoldable pub join_prev : Screen → ℕ → Screen × Bool
join_prev s r = elim (prev_cell_x s) [ none ↦ (s, false) | some x ↦ join_at s x r ]

-- What the bytes above 0x5F print as in the DEC Special Graphics set.
abbrev dec_graphics : List ℕ
dec_graphics =
    0x00A0 ∷ 0x25C6 ∷ 0x2592 ∷ 0x2409 ∷ 0x240C ∷ 0x240D ∷ 0x240A ∷ 0x00B0 ∷ 0x00B1 ∷ 0x2424 ∷ 0x240B
    ∷ 0x2518 ∷ 0x2510 ∷ 0x250C ∷ 0x2514 ∷ 0x253C ∷ 0x23BA ∷ 0x23BB ∷ 0x2500 ∷ 0x23BC ∷ 0x23BD
    ∷ 0x251C ∷ 0x2524 ∷ 0x2534 ∷ 0x252C ∷ 0x2502 ∷ 0x2264 ∷ 0x2265 ∷ 0x03C0 ∷ 0x2260 ∷ 0x00A3
    ∷ 0x00B7 ∷ []

-- `s.g[s.gl]`
abbrev pub invoked_set : Screen → ℕ
invoked_set s = get_or s.g s.gl 0

-- The slow path of `printASCII` for one byte.
unfoldable pub print_byte : Screen → ℕ → Screen
print_byte s b =
    print_glyph s
      (if (invoked_set s == b'0') && leb 0x5F b then get_or dec_graphics (b - 0x5F) 0 else b) 1

-- The fast path of `printASCII` for the non-empty `run` before the last column.
unfoldable pub print_run : Screen → List ℕ → Screen
print_run s run =
    let ln = line_at s s.cy in
    let n = length run in
    record (set_line s s.cy (record { cells = Row.put_run ln.cells s.cx run s.pen; used = true })) {
      cx = s.cx + n;
      last_rune = get_or run (n - 1) 0;
      last_width = 1;
    }

-- `printASCII` on fuel; each round prints at least one byte, so the length of the run is enough.
pub print_ascii_loop : ℕ → Screen → List ℕ → Screen
print_ascii_loop zero s run = s
print_ascii_loop (suc fuel) s [] = s
print_ascii_loop (suc fuel) s (b ∷ rest) =
    let n = min (length (b ∷ rest)) (s.cols - 1 - s.cx) in
    let slow = print_ascii_loop fuel (print_byte s b) rest in
    let fast = print_ascii_loop fuel (print_run s (take n (b ∷ rest))) (drop n (b ∷ rest)) in
    if n == 0 || s.pending_wrap || (s.modes).insert || (invoked_set s == b'0') then slow else fast

unfoldable pub print_ascii : Screen → List ℕ → Screen
unfolding print_ascii_loop
print_ascii s run = print_ascii_loop (length run) s run

module _ (u : Unicode) where
  -- `printRune`
  unfoldable pub print_rune : Screen → ℕ → Screen
  print_rune s r =
      let w = rune_width u r in
      let joined = join_prev s r in
      if ltb r 0xA0
      then s
      else if w == 0
      then record (combine s r) { last_rune = 0 }
      else if joined.1
      then record (joined.0) { last_rune = 0 }
      else print_glyph s r w
