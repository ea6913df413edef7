-- ===== src/Vt/Row/Shifts.antt =====
-- `insertCells` and `deleteCells` of internal/vt/screen.go keep the pairing and the length of a row.
use pairmux.Prelude.{
  ℕ, suc, ◌+◌, ◌-◌, ◌≤◌, ◌<◌, min, ◌≡◌, ◌∙◌, List, true, false, ltb, ◌==◌, if◌then◌else◌, arith,
  inl, inr, length, get_or-set, get_or-above, Bool-cases,
}
use pairmux.Vt.Cell.{Cell, Attr, zero_cell, blank_of, cell_at}
use pairmux.Vt.Row.{
  copy_cells, fill_cells, split_pad, clear_lead, shift_right, insert_cells, shift_left,
  delete_cells,
}
use pairmux.Vt.Row.Slices.{
  length-copy_cells, length-fill_cells, length-split_pad, length-clear_lead, cell_at-copy_cells,
  cell_at-fill_cells,
}
use pairmux.Vt.Row.Paired.{IsPaired, IsRow, split_pad-IsPaired, cell_at-split_pad}

-- A row whose only loose half is a lead in its last column.
pub record IsPairedTo (cells : List Cell) (last : ℕ) : Type 0 where
  pub length_is : length cells ≡ suc last
  pub first : (cell_at cells 0).pad ≡ false
  pub joined : (i : ℕ) → i < last → (cell_at cells i).wide ≡ (cell_at cells (suc i)).pad
  pub single : (i : ℕ) → (cell_at cells i).wide ≡ true → (cell_at cells i).pad ≡ false

pub clear_lead-IsPaired :
    (cells : List Cell) (last : ℕ) → IsPairedTo cells last → IsPaired (clear_lead cells last)
unfolding clear_lead
clear_lead-IsPaired cells last p = record {
  first = ground (arith, p.first, get_or-set cells last zero_cell 0 zero_cell);
  joined = λ i. ground (
    arith,
    p.length_is,
    p.first,
    p.joined i,
    p.single last,
    p.joined (last - 1),
    get_or-above cells i zero_cell,
    get_or-above cells (suc i) zero_cell,
    get_or-set cells last zero_cell i zero_cell,
    get_or-set cells last zero_cell (suc i) zero_cell,
  );
  single = λ i e. ground (arith, p.single i, get_or-set cells last zero_cell i zero_cell);
}

module _ (cells : List Cell) (a : Attr) (x n : ℕ) (fits : x + n ≤ length cells) where
  abbrev shifted : List Cell
  shifted = fill_cells (copy_cells cells (x + n) x (length cells - n - x)) x (x + n) (blank_of a)

  cell_at-shifted :
      (i : ℕ)
      → cell_at shifted i ≡ (
          if ltb i x
          then cell_at cells i
          else if ltb i (x + n)
          then blank_of a
          else if ltb i (length cells)
          then cell_at cells (i - n)
          else cell_at cells i)
  cell_at-shifted i = ground (
    arith,
    cell_at-fill_cells (copy_cells cells (x + n) x (length cells - n - x)) x (x + n) (blank_of a) i,
    length-copy_cells cells (x + n) x (length cells - n - x),
    cell_at-copy_cells cells (x + n) x (length cells - n - x) i,
  )

  length-shifted : length shifted ≡ length cells
  length-shifted = length-fill_cells _ x (x + n) (blank_of a) ∙ length-copy_cells cells _ x _

  -- Before the last column is looked at, the shifted row is paired but for that column.
  shifted-IsPairedTo :
      IsPaired cells → (cell_at cells x).pad ≡ false → 0 < n → IsPairedTo shifted (length cells - 1)
  shifted-IsPairedTo p clean pos = record {
    length_is = omega (arith, length-shifted);
    first = ground (arith, p.first, cell_at-shifted 0);
    joined = λ i h.
        ground (arith, cell_at-shifted i, cell_at-shifted (suc i), p.joined i, p.joined (i - n));
    single = λ i e. ground (arith, cell_at-shifted i, p.single i, p.single (i - n));
  }

shift_right-IsRow :
    (cells : List Cell) (a : Attr) (x n cols : ℕ)
    → IsRow cols cells
    → 0 < n
    → x + n ≤ cols
    → IsRow cols (shift_right cells (blank_of a) x n)
unfolding shift_right
shift_right-IsRow cells a x n cols p pos fits =
    let same = length-split_pad cells x in
    let split = split_pad-IsPaired cells x p.paired in
    rw (← same) (record {
      width =
          length-clear_lead _ _
          ∙ length-shifted (split_pad cells x) a x n (omega (arith, p.width))
          ∙ same
          ∙ p.width;
      paired = clear_lead-IsPaired _ _ (
          shifted-IsPairedTo (split_pad cells x) a x n (omega (arith, p.width)) split
            (ground (arith, cell_at-split_pad cells x p.paired x)) pos);
    })

-- If the row has `cols` cells and no half of a wide glyph, so has the row after any number of
-- blanks is inserted at any column.
pub insert_cells-IsRow :
    (cells : List Cell) (a : Attr) (x n cols : ℕ)
    → IsRow cols cells
    → IsRow cols (insert_cells cells (blank_of a) x n)
unfolding insert_cells
insert_cells-IsRow cells a x n cols p = elim (Bool-cases (min n (length cells - x) == 0)) [
  | inl e ↦ rw e p
  | inr e ↦ rw e (shift_right-IsRow cells a x _ cols p (ground arith) (ground (arith, p.width)))
]

-- The row after its `split` by `deleteCells`, with no right half at `x` or at `x + n`.
module _ (cells : List Cell) (a : Attr) (x n : ℕ) (fits : x + n ≤ length cells) where
  abbrev closed_up : List Cell
  closed_up =
      fill_cells (copy_cells cells x (x + n) (length cells - (x + n))) (length cells - n)
        (length cells) (blank_of a)

  cell_at-closed_up :
      (i : ℕ)
      → cell_at closed_up i ≡ (
          if ltb i x
          then cell_at cells i
          else if ltb i (length cells - n)
          then cell_at cells (i + n)
          else if ltb i (length cells)
          then blank_of a
          else cell_at cells i)
  cell_at-closed_up i = ground (
    arith,
    cell_at-fill_cells (copy_cells cells x (x + n) (length cells - (x + n))) (length cells - n)
        (length cells) (blank_of a) i,
    length-copy_cells cells x (x + n) (length cells - (x + n)),
    cell_at-copy_cells cells x (x + n) (length cells - (x + n)) i,
  )

  closed_up-IsPaired :
      IsPaired cells
      → (cell_at cells x).pad ≡ false
      → (cell_at cells (x + n)).pad ≡ false
      → IsPaired closed_up
  closed_up-IsPaired p clean clean' = record {
    first = ground (arith, p.first, cell_at-closed_up 0);
    joined = λ i. ground (
      arith,
      cell_at-closed_up i,
      cell_at-closed_up (suc i),
      p.joined i,
      p.joined (i + n),
      get_or-above cells (suc i) zero_cell,
      get_or-above cells (suc (i + n)) zero_cell,
    );
    single = λ i e. ground (arith, cell_at-closed_up i, p.single i, p.single (i + n));
  }

shift_left-IsRow :
    (cells : List Cell) (a : Attr) (x n cols : ℕ)
    → IsRow cols cells
    → 0 < n
    → x + n ≤ cols
    → IsRow cols (shift_left cells (blank_of a) x n)
unfolding shift_left
shift_left-IsRow cells a x n cols p pos fits = elim (Bool-cases (ltb (x + n) (length cells))) [
  | inl e ↦
      let once = split_pad-IsPaired cells x p.paired in
      let twice = split_pad cells x in
      rw (e, ← length-split_pad cells x, ← length-split_pad twice (x + n))
        (record {
          width =
              length-fill_cells _ _ _ (blank_of a)
              ∙ length-copy_cells _ x _ _
              ∙ length-split_pad twice (x + n)
              ∙ length-split_pad cells x
              ∙ p.width;
          paired =
              closed_up-IsPaired (split_pad twice (x + n)) a x n
                (omega (arith, p.width, length-split_pad cells x, length-split_pad twice (x + n)))
                (split_pad-IsPaired twice (x + n) once)
                (ground (
                  arith,
                  cell_at-split_pad cells x p.paired x,
                  cell_at-split_pad twice (x + n) once x,
                ))
                (ground (arith, cell_at-split_pad twice (x + n) once (x + n)));
        })
  | inr e ↦
      rw (e, ← length-split_pad cells x)
        (record {
          width =
              length-fill_cells _ _ _ (blank_of a)
              ∙ length-copy_cells _ x _ _
              ∙ length-split_pad cells x
              ∙ p.width;
          paired =
              closed_up-IsPaired (split_pad cells x) a x n
                (omega (arith, p.width, length-split_pad cells x))
                (split_pad-IsPaired cells x p.paired)
                (ground (arith, cell_at-split_pad cells x p.paired x))
                (ground (
                  arith,
                  p.width,
                  length-split_pad cells x,
                  get_or-above (split_pad cells x) (x + n) zero_cell,
                ));
        })
]

-- If the row has `cols` cells and no half of a wide glyph, so has the row after any number of
-- cells is deleted at any column.
pub delete_cells-IsRow :
    (cells : List Cell) (a : Attr) (x n cols : ℕ)
    → IsRow cols cells
    → IsRow cols (delete_cells cells (blank_of a) x n)
unfolding delete_cells
delete_cells-IsRow cells a x n cols p = elim (Bool-cases (min n (length cells - x) == 0)) [
  | inl e ↦ rw e p
  | inr e ↦ rw e (shift_left-IsRow cells a x _ cols p (ground arith) (ground (arith, p.width)))
]
