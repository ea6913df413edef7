-- ===== src/Vt/Print/Combine.antt =====
-- Combining marks, widening and joining keep the screen well formed.
use pairmux.Prelude.{
  ℕ, suc, ◌+◌, ◌<◌, ◌≡◌, ◌∙◌, refl, ◌⊎◌, inl, inr, List, some, Bool, true, false, not, ◌&&◌, ltb,
  leb, ◌==◌, if◌then◌else◌, arith, if_intro, Option-cases, length, set, length-set, get_or-set,
}
use pairmux.Vt.Cell.{Cell, Line, cell_at, zero_cell, zero_line}
use pairmux.Vt.Row
use pairmux.Vt.Row.Glyphs.{put_widened-IsRow}
use pairmux.Vt.Row.Paired.{IsRow}
use pairmux.Vt.State.{Screen, buf, line_at, set_line, max_comb}
use pairmux.Vt.Text.{rune_len, is_empty}
use pairmux.Vt.Print.{
  prev_cell_x, widen, cell_of, combine_at, combine, join_at, join_prev, print_rune, ends_in_zwj,
  vs16,
}
use pairmux.Vt.Print.Safe.{print_glyph-IsScreen, prev_cell_x-lt}
use pairmux.Vt.Width.{Unicode, rune_width, is_regional_indicator}
use pairmux.Vt.Wf.{IsScreen, buf-IsBuffer, set_line-IsScreen, line_at-IsLine, if-IsScreen}

-- A rewritten cell with the halves of the old one.
set_same-IsRow :
    (cells : List Cell) (x cols : ℕ) (c : Cell)
    → IsRow cols cells
    → c.wide ≡ (cell_at cells x).wide
    → c.pad ≡ (cell_at cells x).pad
    → IsRow cols (set cells x c)
set_same-IsRow cells x cols c p e e' = record {
  width = length-set cells x c ∙ p.width;
  paired = record {
    first = ground (arith, p.paired.first, get_or-set cells x c 0 zero_cell);
    joined = λ i. ground (
      arith,
      p.paired.joined i,
      get_or-set cells x c i zero_cell,
      get_or-set cells x c (suc i) zero_cell,
    );
    single = λ i h. ground (arith, p.paired.single i, get_or-set cells x c i zero_cell);
  };
}

-- A row of the screen reads back what was written to it.
pub line_at-set_line :
    (s : Screen) (y : ℕ) (ln : Line) → IsScreen s → y < s.rows → line_at (set_line s y ln) y ≡ ln
line_at-set_line s y ln w lt =
    let b = buf-IsBuffer s w in ground (arith, get_or-set (buf s) y ln y zero_line)

widen-IsScreen :
    (s : Screen) (x : ℕ)
    → IsScreen s
    → (cell_of s x).wide ≡ false
    → (cell_of s x).pad ≡ false
    → IsScreen (widen s x)
unfolding widen
widen-IsScreen s x w narrow no_pad =
    let p = w.grid.cols_pos in
    let ln = line_at s s.cy in
    if-IsScreen (leb s.cols (x + 1)) _ _ (λ _. w)
      λ room.
        let v =
          set_line-IsScreen s s.cy (record ln { cells = Row.put_widened ln.cells x }) w
            (λ lt.
              put_widened-IsRow ln.cells x s.cols (line_at-IsLine s s.cy w lt) narrow no_pad
                (ground arith)) in
        if-IsScreen (ltb (if s.pending_wrap then s.cols + 1 else s.cx + 1) s.cols) _ _
          (λ e. record {
            grid = v.grid;
            cursor = ground arith;
            charset = v.charset;
            memory = v.memory;
          })
          (λ e. record {
            grid = v.grid;
            cursor = ground arith;
            charset = v.charset;
            memory = v.memory;
          })

-- The cell at column `x` of the cursor's row, rewritten with the halves that it has.
rewritten-IsScreen :
    (s : Screen) (x : ℕ) (c : Cell) (used : Bool)
    → IsScreen s
    → c.wide ≡ (cell_of s x).wide
    → c.pad ≡ (cell_of s x).pad
    → IsScreen (set_line s s.cy (record { cells = set (line_at s s.cy).cells x c; used = used }))
rewritten-IsScreen s x c used w e e' =
    set_line-IsScreen s s.cy _ w
      (λ lt. set_same-IsRow _ x s.cols c (line_at-IsLine s s.cy w lt) e e')

-- The same, widened: the rewritten cell must be narrow.
widened-IsScreen :
    (s : Screen) (x : ℕ) (c : Cell) (used : Bool)
    → IsScreen s
    → x < s.cols
    → (cell_of s x).wide ≡ false
    → (cell_of s x).pad ≡ false
    → c.wide ≡ false
    → c.pad ≡ false
    → IsScreen
        (widen (set_line s s.cy (record { cells = set (line_at s s.cy).cells x c; used = used })) x)
widened-IsScreen s x c used w lt e e' n n' =
    let ln : Line = record { cells = set (line_at s s.cy).cells x c; used = used } in
    let back = line_at-set_line s s.cy ln w w.cursor.row in
    let row = line_at-IsLine s s.cy w w.cursor.row in
    let entry : cell_of (set_line s s.cy ln) x ≡ c =
      ground (arith, row.width, get_or-set (line_at s s.cy).cells x c x zero_cell) in
    widen-IsScreen (set_line s s.cy ln) x
      (rewritten-IsScreen s x c used w (ground arith) (ground arith)) (ground arith) (ground arith)

module _ (s : Screen) (w : IsScreen s) (x : ℕ) (found : prev_cell_x s ≡ some x) (r : ℕ) where
  combine_at-IsScreen : IsScreen (combine_at s x r)
  unfolding combine_at
  combine_at-IsScreen =
      let (lt, no_pad) = prev_cell_x-lt s x w found in
      if-IsScreen (ltb max_comb (length (cell_of s x).comb + rune_len r)) _ _ (λ _. w)
        λ _.
          if-IsScreen ((r == vs16) && not (cell_of s x).wide) _ _
            (λ e. widened-IsScreen s x _ true w lt (ground arith) no_pad (ground arith) no_pad)
            (λ _. rewritten-IsScreen s x _ true w refl refl)

  join_at-IsScreen : IsScreen (join_at s x r).0
  unfolding join_at
  join_at-IsScreen =
      let (lt, no_pad) = prev_cell_x-lt s x w found in
      let c = cell_of s x in
      if_intro (λ (p : Screen × Bool). IsScreen (p.0)) (ends_in_zwj c.comb) _ _
        (λ _.
          if-IsScreen (leb (length c.comb + rune_len r) max_comb) _ _
            (λ _. rewritten-IsScreen s x _ (line_at s s.cy).used w refl refl) (λ _. w))
        (λ _.
          if_intro (λ (p : Screen × Bool). IsScreen (p.0))
            (is_regional_indicator r && is_regional_indicator c.r && is_empty c.comb && not c.wide)
            _ _
            (λ e.
              widened-IsScreen s x _ (line_at s s.cy).used w lt (ground arith) no_pad (ground arith)
                no_pad)
            (λ _. w))

combine-IsScreen : (s : Screen) (r : ℕ) → IsScreen s → IsScreen (combine s r)
unfolding combine
combine-IsScreen s r w = elim (Option-cases (prev_cell_x s)) [
  | inl e ↦ rw (e, combine) w
  | inr (x, e) ↦ rw (e, combine) (combine_at-IsScreen s w x e r)
]

join_prev-IsScreen : (s : Screen) (r : ℕ) → IsScreen s → IsScreen (join_prev s r).0
unfolding join_prev
join_prev-IsScreen s r w = elim (Option-cases (prev_cell_x s)) [
  | inl e ↦ rw (e, join_prev) w
  | inr (x, e) ↦ rw (e, join_prev) (join_at-IsScreen s w x e r)
]

pub no_memory-IsScreen : (s : Screen) → IsScreen s → IsScreen (record s { last_rune = 0 })
no_memory-IsScreen s w = record {
  grid = w.grid;
  cursor = w.cursor;
  charset = w.charset;
  memory = inl refl;
}

rune_width_cases :
    (u : Unicode) (r : ℕ) → (rune_width u r ≡ 0) ⊎ ((rune_width u r ≡ 1) ⊎ (rune_width u r ≡ 2))
unfolding rune_width
rune_width_cases u r = ground arith

-- Printing any decoded code point, whether it takes a column, combines with the glyph before it or
-- joins it, keeps a well-formed screen well formed.
pub print_rune-IsScreen :
    (u : Unicode) (s : Screen) (r : ℕ) → IsScreen s → IsScreen (print_rune u s r)
unfolding print_rune
print_rune-IsScreen u s r w =
    if-IsScreen (ltb r 0xA0) _ _ (λ _. w)
      λ _.
        if-IsScreen (rune_width u r == 0) _ _ (λ _. no_memory-IsScreen _ (combine-IsScreen s r w))
          λ e.
            if-IsScreen (join_prev s r).1 _ _ (λ _. no_memory-IsScreen _ (join_prev-IsScreen s r w))
              (λ _. print_glyph-IsScreen s r _ w (ground (arith, rune_width_cases u r)))
