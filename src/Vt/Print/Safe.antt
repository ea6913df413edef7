-- ===== src/Vt/Print/Safe.antt =====
-- Printing keeps the screen well formed, for runes of every width and in every mode.
use pairmux.Prelude.{
  ℕ, ◌+◌, ◌-◌, ◌≤◌, ◌<◌, ◌≡◌, ◌∙◌, ◌⊎◌, inr, some, false, ◌&&◌, ltb, ◌==◌, if◌then◌else◌, arith,
  if_intro,
}
use pairmux.Vt.Row
use pairmux.Vt.Row.Glyphs.{put_glyph-IsRow}
use pairmux.Vt.Row.Paired.{IsRow}
use pairmux.Vt.Row.Shifts.{insert_cells-IsRow}
use pairmux.Vt.Scroll.{index}
use pairmux.Vt.Scroll.Frame.{index-cols}
use pairmux.Vt.Scroll.Safe.{index-IsScreen}
use pairmux.Vt.State.{Screen, line_at, blank}
use pairmux.Vt.Print.{wrap_pending, advance, write_glyph, print_glyph, prev_cell_x, cell_of}
use pairmux.Vt.Wf.{IsMemory, IsScreen, set_line-IsScreen, line_at-IsLine, if-IsScreen}

-- A carriage return within the row that a pending wrap is taken from.
home-IsScreen : (s : Screen) → IsScreen s → IsScreen (record s { pending_wrap = false; cx = 0 })
home-IsScreen s w =
    let p = w.grid.cols_pos in
    record { grid = w.grid; cursor = ground arith; charset = w.charset; memory = w.memory }

wrap_pending-IsScreen : (s : Screen) → IsScreen s → IsScreen (wrap_pending s)
unfolding wrap_pending
wrap_pending-IsScreen s w =
    if-IsScreen s.pending_wrap _ _ (λ _. index-IsScreen _ (home-IsScreen s w)) (λ _. w)

first_col-IsScreen :
    (s : Screen) → IsScreen s → s.pending_wrap ≡ false → IsScreen (record s { cx = 0 })
first_col-IsScreen s w e =
    let p = w.grid.cols_pos in
    record { grid = w.grid; cursor = ground arith; charset = w.charset; memory = w.memory }

wrap_pending_done :
    (s : Screen) → ((wrap_pending s).pending_wrap ≡ false) × ((wrap_pending s).cols ≡ s.cols)
unfolding wrap_pending
wrap_pending_done s = ground (arith, index-cols (record s { pending_wrap = false; cx = 0 }))

-- The cursor's advance from column `x`, over a screen that is well formed but for its cursor.
advance-IsScreen :
    (s : Screen) (x w : ℕ) → IsScreen s → s.pending_wrap ≡ false → IsScreen (advance s x w)
advance-IsScreen s x w v none_pending =
    let p = v.grid.cols_pos in
    if-IsScreen (ltb (x + w) s.cols) _ _
      (λ e. record { grid = v.grid; cursor = ground arith; charset = v.charset; memory = v.memory })
      (λ e. record { grid = v.grid; cursor = ground arith; charset = v.charset; memory = v.memory })

remember-IsScreen :
    (s : Screen) (r w : ℕ)
    → IsScreen s
    → IsMemory r w
    → IsScreen (record s { last_rune = r; last_width = w })
remember-IsScreen s r w v m = record {
  grid = v.grid;
  cursor = v.cursor;
  charset = v.charset;
  memory = m;
}

write_glyph-IsScreen :
    (s : Screen) (r w : ℕ)
    → IsScreen s
    → s.pending_wrap ≡ false
    → (w ≡ 1) ⊎ (w ≡ 2)
    → s.cx + w ≤ s.cols
    → IsScreen (write_glyph s r w)
unfolding write_glyph
write_glyph-IsScreen s r w v none_pending one_or_two fits =
    advance-IsScreen _ s.cx w
      (remember-IsScreen _ r w (set_line-IsScreen s s.cy _ v written) (inr one_or_two)) none_pending
  where
    written :
        s.cy < s.rows
        → IsRow s.cols (
            Row.put_glyph
              (if (s.modes).insert
                then Row.insert_cells (line_at s s.cy).cells (blank s) s.cx w
                else (line_at s s.cy).cells)
              s.cx
              r
              w
              s.pen)
    written lt =
        put_glyph-IsRow _ s.cx r w s.pen s.cols
          (if_intro (IsRow s.cols) (s.modes).insert _ _
            (λ _. insert_cells-IsRow _ _ s.cx w s.cols (line_at-IsLine s s.cy v lt))
            (λ _. line_at-IsLine s s.cy v lt))
          one_or_two fits

-- Printing a glyph of width 1 or 2 keeps a well-formed screen well formed, wherever the cursor
-- stands and whether or not a wrap is pending.
pub print_glyph-IsScreen :
    (s : Screen) (r w : ℕ) → IsScreen s → (w ≡ 1) ⊎ (w ≡ 2) → IsScreen (print_glyph s r w)
unfolding print_glyph
print_glyph-IsScreen s r w v one_or_two =
    let s' = wrap_pending s in
    let v' = wrap_pending-IsScreen s v in
    let d = wrap_pending_done s in
    let c = v'.cursor.col in
    let t = record s' { cx = 0 } in
    if-IsScreen (w == 2 && ltb s.cols 2) _ _ (λ _. v)
      λ wide_enough.
        if-IsScreen (w == 2 && (s'.cx == s'.cols - 1)) _ _
          (λ e.
            if-IsScreen (s'.modes).autowrap _ _
              (λ _.
                write_glyph-IsScreen (index t) r w (index-IsScreen t (first_col-IsScreen s' v' d.0))
                  ((index-cols t).3 ∙ d.0) one_or_two (ground (arith, index-cols t)))
              (λ _. v'))
          (λ e. write_glyph-IsScreen s' r w v' d.0 one_or_two (ground arith))

-- `prevCellX` finds a column of the cursor's row that holds no right half, and a lead only where
-- its right half stands next to it.
pub prev_cell_x-lt :
    (s : Screen) (x : ℕ)
    → IsScreen s
    → prev_cell_x s ≡ some x
    → (x < s.cols) × ((cell_of s x).pad ≡ false)
unfolding prev_cell_x
prev_cell_x-lt s x w e =
    let row = line_at-IsLine s s.cy w w.cursor.row in
    let vx = if s.pending_wrap then s.cols else s.cx in
    ground (arith, w.cursor.col, row.paired.single (vx - 2))
