-- ===== src/Vt/Resize/Safe.antt =====
-- Resizing keeps the screen well formed, unless it pulls lines back from the history.
use pairmux.Prelude.{
  ℕ, suc, ◌-◌, ◌≤◌, ◌<◌, ◌≡◌, ◌⊎◌, inl, inr, refl, ◌∙◌, List, Bool, true, false, ◌&&◌, ◌==◌,
  if◌then◌else◌, length, map, arith, if_intro, length-map, length-tabulate,
}
use pairmux.Prelude.All.{All-map}
use pairmux.Vt.Cell.{Line}
use pairmux.Vt.Row.Erasing.{fit_cells-IsRow}
use pairmux.Vt.State.{Screen, SavedCursor, max_dim, clamp}
use pairmux.Vt.Resize.{
  Rows, resize_rows, fit_line, resize_cols, rows_of, resize_alt_active, resize_main_active,
  clamp_saved, clamp_cursor, resize,
}
use pairmux.Vt.Width.{Unicode}
use pairmux.Vt.Wf.{IsLine, IsBuffer, IsGrid, IsCharset, IsScreen}
use pairmux.Vt.Resize.Buffers.{IsRows, PullsNone, resize_rows-IsRows}

-- A screen whose cursor need not be inside.
record IsResized (s : Screen) : Type 0 where
  pub grid : IsGrid s.cols s.rows s.main s.alt s.tabs s.hist
  pub last_col : s.pending_wrap ≡ true → suc s.cx ≡ s.cols
  pub wraps : s.pending_wrap ≡ true → (s.modes).autowrap ≡ true
  pub charset : IsCharset s.g s.gl s.saved_main s.saved_alt
  pub memory : (s.last_rune ≡ 0) ⊎ ((s.last_width ≡ 1) ⊎ (s.last_width ≡ 2))

clamp_cursor-IsScreen : (s : Screen) → IsResized s → IsScreen (clamp_cursor s)
unfolding clamp_cursor clamp_saved
clamp_cursor-IsScreen s w =
    let cols = w.grid.cols_pos in
    let rows = w.grid.rows_pos in
    record {
      grid = w.grid;
      cursor = record {
        col = ground arith;
        row = ground arith;
        region = omega arith;
        region_in = omega arith;
        last_col = λ e. ground (arith, w.last_col e);
        wraps = w.wraps;
      };
      charset = record {
        four = w.charset.four;
        invoked = w.charset.invoked;
        four_main = w.charset.four_main;
        invoked_main = w.charset.invoked_main;
        four_alt = w.charset.four_alt;
        invoked_alt = w.charset.invoked_alt;
      };
      memory = w.memory;
    }

fit_lines-IsBuffer :
    (old cols rows : ℕ) (lines : List Line)
    → 0 < cols
    → IsBuffer old rows lines
    → IsBuffer cols rows (map (fit_line cols) lines)
unfolding fit_line
fit_lines-IsBuffer old cols rows lines h b = (
  length-map (fit_line cols) lines ∙ b.0,
  All-map (IsLine old) (IsLine cols) (fit_line cols) (λ l. fit_cells-IsRow l.cells old cols h) lines
      b.1,
)

IsScreen-IsResized : (s : Screen) → IsScreen s → IsResized s
IsScreen-IsResized s w = record {
  grid = w.grid;
  last_col = w.cursor.last_col;
  wraps = w.cursor.wraps;
  charset = w.charset;
  memory = w.memory;
}

resize_cols-IsResized :
    (s : Screen) (cols : ℕ) → 0 < cols → cols ≤ 4096 → IsResized s → IsResized (resize_cols s cols)
unfolding resize_cols
resize_cols-IsResized s cols h k w = record {
  grid = record {
    cols_pos = h;
    cols_le = k;
    rows_pos = w.grid.rows_pos;
    rows_le = w.grid.rows_le;
    main_ok = fit_lines-IsBuffer s.cols cols s.rows s.main h w.grid.main_ok;
    alt_ok = fit_lines-IsBuffer s.cols cols s.rows s.alt h w.grid.alt_ok;
    tabs_ok = length-tabulate cols _;
    ring = w.grid.ring;
  };
  last_col = λ e. absurd (ground arith);
  wraps = λ e. absurd (ground arith);
  charset = w.charset;
  memory = w.memory;
}

-- The rows of the main buffer are shortened, or none of its history came by scrolling.
abbrev KeepsHistory : Screen → ℕ → Type 0
KeepsHistory s rows = (s.hscrolled ≡ 0) ⊎ (rows ≤ s.rows)

-- A screen whose rows are changed.
new_rows-IsResized :
    (s : Screen) (rows : ℕ) (main alt : Rows) (cy : ℕ) (saved : SavedCursor)
    → IsResized s
    → 0 < rows
    → rows ≤ 4096
    → IsRows s.cols rows main
    → IsRows s.cols rows alt
    → (length saved.g ≡ 4) × (saved.gl < 4)
    → IsResized (record s {
      rows = rows;
      alt = alt.lines;
      main = main.lines;
      cy = cy;
      hist = main.hist;
      hscrolled = main.hscrolled;
      saved_main = saved;
    })
new_rows-IsResized s rows main alt cy saved w h k m a c = record {
  grid = record {
    cols_pos = w.grid.cols_pos;
    cols_le = w.grid.cols_le;
    rows_pos = h;
    rows_le = k;
    main_ok = m.buffer;
    alt_ok = a.buffer;
    tabs_ok = w.grid.tabs_ok;
    ring = m.ring;
  };
  last_col = w.last_col;
  wraps = w.wraps;
  charset = record {
    four = w.charset.four;
    invoked = w.charset.invoked;
    four_main = c.0;
    invoked_main = c.1;
    four_alt = w.charset.four_alt;
    invoked_alt = w.charset.invoked_alt;
  };
  memory = w.memory;
}

pulls :
    (s : Screen) (rows : ℕ) (lines : List Line) (cy : ℕ)
    → KeepsHistory s rows
    → PullsNone (rows_of s lines cy) true ⊎ (rows ≤ s.rows)
pulls s rows lines cy (inl e) = inl (inr e)
pulls s rows lines cy (inr e) = inr e

main-IsRows :
    (u : Unicode) (s : Screen) (rows cy : ℕ)
    → IsResized s
    → KeepsHistory s rows
    → IsRows s.cols rows (resize_rows u s.cols (rows_of s s.main cy) rows true)
main-IsRows u s rows cy w p =
    resize_rows-IsRows u s.cols s.rows rows (rows_of s s.main cy) true (pulls s rows s.main cy p)
      (record { buffer = w.grid.main_ok; ring = w.grid.ring })

alt-IsRows :
    (u : Unicode) (s : Screen) (rows cy : ℕ)
    → IsResized s
    → IsRows s.cols rows (resize_rows u s.cols (rows_of s s.alt cy) rows false)
alt-IsRows u s rows cy w =
    resize_rows-IsRows u s.cols s.rows rows (rows_of s s.alt cy) false (inl (inl refl))
      (record { buffer = w.grid.alt_ok; ring = w.grid.ring })

saved_at :
    (c : SavedCursor) (y : ℕ)
    → (length c.g ≡ 4) × (c.gl < 4)
    → (b : Bool)
    → (length (if b then record c { y = y } else c).g ≡ 4)
      × ((if b then record c { y = y } else c).gl < 4)
saved_at c y h true = h
saved_at c y h false = h

resize_active-IsResized :
    (u : Unicode) (s : Screen) (rows : ℕ)
    → IsResized s
    → 0 < rows
    → rows ≤ 4096
    → KeepsHistory s rows
    → IsResized
        (record (if s.alt_active then resize_alt_active u s rows else resize_main_active u s rows) {
          rows = rows;
        })
unfolding resize_alt_active resize_main_active
resize_active-IsResized u s rows w h k p =
    let good : (length (s.saved_main).g ≡ 4) × ((s.saved_main).gl < 4) =
      (w.charset.four_main, w.charset.invoked_main) in
    let alt = resize_rows u s.cols (rows_of s s.alt s.cy) rows false in
    let y =
      clamp (if (s.saved_main).valid then (s.saved_main).y else alt.cy) 0 (length s.main - 1) in
    let main = resize_rows u s.cols (rows_of s s.main y) rows true in
    let main' = resize_rows u s.cols (rows_of s s.main s.cy) rows true in
    let alt' = resize_rows u s.cols (rows_of s s.alt 0) rows false in
    if_intro (λ (t : Screen). IsResized (record t { rows = rows })) s.alt_active _ _
      (λ _.
        new_rows-IsResized s rows main alt alt.cy
          (if (s.saved_main).valid then record (s.saved_main) { y = main.cy } else s.saved_main) w h
          k (main-IsRows u s rows y w p) (alt-IsRows u s rows s.cy w)
          (saved_at s.saved_main main.cy good (s.saved_main).valid))
      (λ _.
        new_rows-IsResized s rows main' alt' main'.cy s.saved_main w h k
          (main-IsRows u s rows s.cy w p) (alt-IsRows u s rows 0 w) good)

abbrev pub HasSize : ℕ → ℕ → Screen → Type 0
HasSize cols rows t = (t.cols ≡ cols) × (t.rows ≡ rows)

clamp_cursor_sized :
    (t : Screen) (cols rows : ℕ)
    → IsResized t × HasSize cols rows t
    → IsScreen (clamp_cursor t) × HasSize cols rows (clamp_cursor t)
unfolding clamp_cursor
clamp_cursor_sized t cols rows (w, h) = (unfold clamp_cursor in clamp_cursor-IsScreen t w, h)

resize_active-cols :
    (u : Unicode) (s : Screen) (rows : ℕ)
    → (if s.alt_active then resize_alt_active u s rows else resize_main_active u s rows).cols
      ≡ s.cols
unfolding resize_alt_active resize_main_active
resize_active-cols u s rows =
    if_intro (λ (t : Screen). t.cols ≡ s.cols) s.alt_active _ _ (λ _. refl) (λ _. refl)

-- For any requested size, resizing a well-formed screen leaves one of that size, clamped to
-- between 1 and 4096, with halves of wide glyphs paired and the cursor on the screen, if no line
-- of the history is to be pulled back: none has scrolled out, or there are not more rows than
-- before.
pub resize-IsScreen :
    (u : Unicode) (s : Screen) (cols rows : ℕ)
    → IsScreen s
    → KeepsHistory s (clamp rows 1 max_dim)
    → IsScreen (resize u s cols rows)
      × HasSize (clamp cols 1 max_dim) (clamp rows 1 max_dim) (resize u s cols rows)
unfolding resize resize_cols
resize-IsScreen u s cols0 rows0 w p =
    let cols : ℕ = clamp cols0 1 max_dim in
    let rows : ℕ = clamp rows0 1 max_dim in
    let wide : Screen = if cols == s.cols then s else resize_cols s cols in
    let fitted : (IsResized wide × KeepsHistory wide rows) × HasSize cols s.rows wide =
      if_intro (λ (t : Screen). (IsResized t × KeepsHistory t rows) × HasSize cols s.rows t)
        (cols == s.cols) _ _ (λ e. ((IsScreen-IsResized s w, p), (ground arith, refl)))
        (λ _. (
          (resize_cols-IsResized s cols (ground arith) (ground arith) (IsScreen-IsResized s w), p),
          (refl, refl),
        )) in
    if_intro (λ t. IsScreen t × HasSize cols rows t) ((cols == s.cols) && (rows == s.rows)) _ _
      (λ e. (w, (ground arith, ground arith)))
      (λ _. clamp_cursor_sized _ cols rows (
        if_intro (λ t. IsResized t × HasSize cols rows t) (rows == s.rows) _ _
          (λ e. (fitted.0.0, (fitted.1.0, fitted.1.1 ∙ ground arith)))
          (λ _. (
            resize_active-IsResized u wide rows fitted.0.0 (ground arith) (ground arith) fitted.0.1,
            (resize_active-cols u wide rows ∙ fitted.1.0, refl),
          ))))
