-- ===== src/Vt/Row/Slices.antt =====
-- What each index of a row holds after the slice operations of internal/vt/screen.go.
use pairmux.Prelude.{
  ℕ, ◌+◌, ◌-◌, ◌≤◌, ◌<◌, ◌≡◌, List, true, false, ◌&&◌, ltb, leb, ◌==◌, if◌then◌else◌, arith, length,
  length-set, length-tabulate, get_or-set, get_or-tabulate, get_or-above,
}
use pairmux.Vt.Cell.{Cell, zero_cell, cell_at}
use pairmux.Vt.Row.{
  copy_cells, fill_cells, split_wide, split_pad, split_any, split_lead, clear_lead,
}

pub length-copy_cells :
    (cells : List Cell) (dst src n : ℕ) → length (copy_cells cells dst src n) ≡ length cells
unfolding copy_cells
length-copy_cells cells dst src n = length-tabulate (length cells) _

pub length-fill_cells :
    (cells : List Cell) (x0 x1 : ℕ) (b : Cell) → length (fill_cells cells x0 x1 b) ≡ length cells
unfolding fill_cells
length-fill_cells cells x0 x1 b = length-tabulate (length cells) _

pub cell_at-copy_cells :
    (cells : List Cell) (dst src n i : ℕ)
    → src + n ≤ length cells
    → dst + n ≤ length cells
    → cell_at (copy_cells cells dst src n) i
      ≡ (if leb dst i && ltb i (dst + n) then cell_at cells (src + (i - dst)) else cell_at cells i)
unfolding copy_cells
cell_at-copy_cells cells dst src n i h k = ground (
  arith,
  get_or-tabulate (length cells)
      (λ (j : ℕ).
        if leb dst j && ltb j (dst + n) then cell_at cells (src + (j - dst)) else cell_at cells j)
      i zero_cell,
  get_or-above cells i zero_cell,
)

pub cell_at-fill_cells :
    (cells : List Cell) (x0 x1 : ℕ) (b : Cell) (i : ℕ)
    → x1 ≤ length cells
    → cell_at (fill_cells cells x0 x1 b) i ≡ (if leb x0 i && ltb i x1 then b else cell_at cells i)
unfolding fill_cells
cell_at-fill_cells cells x0 x1 b i h = ground (
  arith,
  get_or-tabulate (length cells) (λ (j : ℕ). if leb x0 j && ltb j x1 then b else cell_at cells j) i
      zero_cell,
  get_or-above cells i zero_cell,
)

length-split_wide : (cells : List Cell) (x : ℕ) → length (split_wide cells x) ≡ length cells
unfolding split_wide
length-split_wide cells x = ground (
  arith,
  length-set cells (x - 1) zero_cell,
  length-set cells (x + 1) zero_cell,
  length-set cells x zero_cell,
  length-set (pairmux.Prelude.set cells (x - 1) zero_cell) x zero_cell,
  length-set (pairmux.Prelude.set cells (x + 1) zero_cell) x zero_cell,
)

pub length-split_pad : (cells : List Cell) (x : ℕ) → length (split_pad cells x) ≡ length cells
unfolding split_pad
length-split_pad cells x = ground (arith, length-split_wide cells x)

pub length-split_any : (cells : List Cell) (x : ℕ) → length (split_any cells x) ≡ length cells
unfolding split_any
length-split_any cells x = ground (arith, length-split_wide cells x)

pub length-split_lead : (cells : List Cell) (x : ℕ) → length (split_lead cells x) ≡ length cells
unfolding split_lead
length-split_lead cells x = ground (arith, length-split_wide cells x)

pub length-clear_lead : (cells : List Cell) (x : ℕ) → length (clear_lead cells x) ≡ length cells
unfolding clear_lead
length-clear_lead cells x = ground (arith, length-set cells x zero_cell)
