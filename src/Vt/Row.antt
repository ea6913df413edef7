-- ===== src/Vt/Row.antt =====
-- The operations of internal/vt/screen.go on the cells of one row. `copy` and the fill loops of
-- the source are given by what they leave at each index.
pub mod Slices
pub mod Paired
pub mod Shifts
pub mod Erasing
pub mod Glyphs
pub mod Runs
use pairmux.Prelude.{
  ℕ, ◌+◌, ◌-◌, min, List, [], true, false, ◌&&◌, ◌||◌, ltb, leb, ◌==◌, if◌then◌else◌, length,
  get_or, set, tabulate,
}
use pairmux.Vt.Cell.{Cell, Attr, zero_cell, cell_at}

-- `copy(cells[dst:], cells[src:src+n])` with memmove's reading of overlaps.
pub copy_cells : List Cell → ℕ → ℕ → ℕ → List Cell
copy_cells cells dst src n =
    tabulate (length cells) (λ i.
      if leb dst i && ltb i (dst + n) then cell_at cells (src + (i - dst)) else cell_at cells i)

-- `for i := x0; i < x1; i++ { cells[i] = b }`
pub fill_cells : List Cell → ℕ → ℕ → Cell → List Cell
fill_cells cells x0 x1 b =
    tabulate (length cells) (λ i. if leb x0 i && ltb i x1 then b else cell_at cells i)

pub split_wide : List Cell → ℕ → List Cell
split_wide cells x =
    if leb (length cells) x
    then cells
    else if (cell_at cells x).pad
    then set
        (if ltb 0 x && (cell_at cells (x - 1)).wide then set cells (x - 1) zero_cell else cells) x
        zero_cell
    else if (cell_at cells x).wide
    then set
        (if ltb (x + 1) (length cells) && (cell_at cells (x + 1)).pad
          then set cells (x + 1) zero_cell
          else cells)
        x zero_cell
    else cells

-- `if cells[x].flags&cellPad != 0 { splitWide(cells, x) }`
pub split_pad : List Cell → ℕ → List Cell
split_pad cells x = if (cell_at cells x).pad then split_wide cells x else cells

-- `if cells[x].flags != 0 { splitWide(cells, x) }`
pub split_any : List Cell → ℕ → List Cell
split_any cells x =
    if (cell_at cells x).wide || (cell_at cells x).pad then split_wide cells x else cells

-- `if cells[x].flags&cellWide != 0 { splitWide(cells, x) }`
pub split_lead : List Cell → ℕ → List Cell
split_lead cells x = if (cell_at cells x).wide then split_wide cells x else cells

-- `if cells[x].flags&cellWide != 0 { cells[x] = cell{} }`
pub clear_lead : List Cell → ℕ → List Cell
clear_lead cells x = if (cell_at cells x).wide then set cells x zero_cell else cells

-- What `insertCells` does for a count that fits the row.
pub shift_right : List Cell → Cell → ℕ → ℕ → List Cell
shift_right cells b x n =
    let split = split_pad cells x in
    let copied = copy_cells split (x + n) x (length cells - n - x) in
    clear_lead (fill_cells copied x (x + n) b) (length cells - 1)

pub insert_cells : List Cell → Cell → ℕ → ℕ → List Cell
insert_cells cells b x n =
    let k = min n (length cells - x) in if k == 0 then cells else shift_right cells b x k

-- What `deleteCells` does for a count that fits the row.
pub shift_left : List Cell → Cell → ℕ → ℕ → List Cell
shift_left cells b x n =
    let cols = length cells in
    let split = split_pad cells x in
    let split' = if ltb (x + n) cols then split_pad split (x + n) else split in
    fill_cells (copy_cells split' x (x + n) (cols - (x + n))) (cols - n) cols b

pub delete_cells : List Cell → Cell → ℕ → ℕ → List Cell
delete_cells cells b x n =
    let k = min n (length cells - x) in if k == 0 then cells else shift_left cells b x k

-- `eraseCells` on the row's cells; `x0` is never negative here.
pub erase_cells : List Cell → Cell → ℕ → ℕ → List Cell
erase_cells cells b x0 x1 =
    let end = min x1 (length cells) in
    if leb end x0 then cells else fill_cells (split_lead (split_pad cells x0) (end - 1)) x0 end b

unfoldable pub fit_cells : List Cell → ℕ → List Cell
fit_cells cells cols =
    let out = tabulate cols (λ i. cell_at cells i) in
    if ltb cols (length cells) then clear_lead out (cols - 1) else out

-- The writes of `printGlyph` at column `x`, for a glyph that fits there.
pub put_glyph : List Cell → ℕ → ℕ → ℕ → Attr → List Cell
put_glyph cells x r w pen =
    let split = split_any cells x in
    if w == 2
    then set
        (set (split_any split (x + 1)) x
          (record { r = r; wide = true; pad = false; a = pen; comb = [] }))
        (x + 1) (record { r = 0; wide = false; pad = true; a = pen; comb = [] })
    else set split x (record { r = r; wide = false; pad = false; a = pen; comb = [] })

-- The writes of `widen` for a base at column `x`, with `x + 1` in the row.
pub put_widened : List Cell → ℕ → List Cell
put_widened cells x =
    let split = split_any cells (x + 1) in
    let base = cell_at split x in
    set (set split x (record base { wide = true; pad = false })) (x + 1)
      (record { r = 0; wide = false; pad = true; a = base.a; comb = [] })

-- The writes of `printASCII`'s fast path for the bytes `run`, which fit from column `x`.
pub put_run : List Cell → ℕ → List ℕ → Attr → List Cell
put_run cells x run pen =
    let n = length run in
    let split = split_lead (split_pad cells x) (x + n - 1) in
    tabulate (length cells) (λ i.
      if leb x i && ltb i (x + n)
      then record { r = get_or run (i - x) 0; wide = false; pad = false; a = pen; comb = [] }
      else cell_at split i)
