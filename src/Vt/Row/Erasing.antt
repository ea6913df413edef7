-- ===== src/Vt/Row/Erasing.antt =====
-- Erasing a stretch of a row, and fitting a row to another width.
use pairmux.Prelude.{
  ℕ, suc, ◌-◌, ◌≤◌, ◌<◌, min, ◌≡◌, ◌∙◌, List, false, ltb, leb, if◌then◌else◌, arith, inl, inr,
  length, tabulate, length-tabulate, get_or-above, get_or-tabulate, Bool-cases,
}
use pairmux.Vt.Cell.{Cell, Attr, zero_cell, blank_of, cell_at}
use pairmux.Vt.Row.{fill_cells, split_pad, split_lead, erase_cells, fit_cells}
use pairmux.Vt.Row.Slices.{
  length-fill_cells, length-split_pad, length-split_lead, length-clear_lead, cell_at-fill_cells,
}
use pairmux.Vt.Row.Paired.{
  IsPaired, IsRow, split_pad-IsPaired, split_lead-IsPaired, cell_at-split_pad, cell_at-split_lead,
}
use pairmux.Vt.Row.Shifts.{IsPairedTo, clear_lead-IsPaired}

erased-IsPaired :
    (cells : List Cell) (a : Attr) (x0 x1 : ℕ)
    → x0 < x1
    → x1 ≤ length cells
    → IsPaired cells
    → (cell_at cells x0).pad ≡ false
    → (cell_at cells (x1 - 1)).wide ≡ false
    → IsPaired (fill_cells cells x0 x1 (blank_of a))
erased-IsPaired cells a x0 x1 lt fits p left right = record {
  first = ground (arith, p.first, cell_at-fill_cells cells x0 x1 (blank_of a) 0);
  joined = λ i. ground (
    arith,
    cell_at-fill_cells cells x0 x1 (blank_of a) i,
    cell_at-fill_cells cells x0 x1 (blank_of a) (suc i),
    p.joined i,
  );
  single = λ i e. ground (arith, cell_at-fill_cells cells x0 x1 (blank_of a) i, p.single i);
}

-- If the row has `cols` cells and no half of a wide glyph, so has the row after the columns from
-- `x0` to before `x1` are erased, whatever `x0` and `x1` are.
pub erase_cells-IsRow :
    (cells : List Cell) (a : Attr) (x0 x1 cols : ℕ)
    → IsRow cols cells
    → IsRow cols (erase_cells cells (blank_of a) x0 x1)
unfolding erase_cells
erase_cells-IsRow cells a x0 x1 cols p = elim (Bool-cases (leb (min x1 (length cells)) x0)) [
  | inl e ↦ rw e p
  | inr e ↦
      let end = min x1 (length cells) in
      let once = split_pad-IsPaired cells x0 p.paired in
      let left = split_pad cells x0 in
      rw e (record {
        width =
            length-fill_cells _ x0 end (blank_of a)
            ∙ length-split_lead left (end - 1)
            ∙ length-split_pad cells x0
            ∙ p.width;
        paired =
            erased-IsPaired (split_lead left (end - 1)) a x0 end (ground arith)
              (omega (arith, length-split_lead left (end - 1), length-split_pad cells x0))
              (split_lead-IsPaired left (end - 1) once)
              (ground (
                arith,
                cell_at-split_lead left (end - 1) once x0,
                cell_at-split_pad cells x0 p.paired x0,
              ))
              (ground (arith, cell_at-split_lead left (end - 1) once (end - 1)));
      })
]

module _ (cells : List Cell) (cols : ℕ) (p : IsPaired cells) where
  abbrev cut : List Cell
  cut = tabulate cols (λ i. cell_at cells i)

  cell_at-cut : (i : ℕ) → cell_at cut i ≡ (if ltb i cols then cell_at cells i else zero_cell)
  cell_at-cut i = get_or-tabulate cols (λ j. cell_at cells j) i zero_cell

  cut-IsPairedTo : 0 < cols → IsPairedTo cut (cols - 1)
  cut-IsPairedTo pos = record {
    length_is = omega (arith, length-tabulate cols (λ j. cell_at cells j));
    first = ground (arith, p.first, cell_at-cut 0);
    joined = λ i h. ground (arith, cell_at-cut i, cell_at-cut (suc i), p.joined i);
    single = λ i e. ground (arith, cell_at-cut i, p.single i);
  }

  cut-IsPaired : length cells ≤ cols → IsPaired cut
  cut-IsPaired fits = record {
    first = ground (arith, p.first, cell_at-cut 0);
    joined = λ i. ground (
      arith,
      cell_at-cut i,
      cell_at-cut (suc i),
      p.joined i,
      get_or-above cells (suc i) zero_cell,
    );
    single = λ i e. ground (arith, cell_at-cut i, p.single i);
  }

-- If the row has no half of a wide glyph and the new width is not 0, the row fitted to the new
-- width has that many cells and no half of a wide glyph.
pub fit_cells-IsRow :
    (cells : List Cell) (cols cols' : ℕ)
    → 0 < cols'
    → IsRow cols cells
    → IsRow cols' (fit_cells cells cols')
unfolding fit_cells
fit_cells-IsRow cells cols cols' pos p = elim (Bool-cases (ltb cols' (length cells))) [
  | inl e ↦ rw e (record {
    width = length-clear_lead _ _ ∙ length-tabulate cols' _;
    paired = clear_lead-IsPaired _ _ (cut-IsPairedTo cells cols' p.paired pos);
  })
  | inr e ↦ rw e (record {
    width = length-tabulate cols' _;
    paired = cut-IsPaired cells cols' p.paired (ground arith);
  })
]
