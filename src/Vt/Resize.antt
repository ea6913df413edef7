-- ===== src/Vt/Resize.antt =====
-- Changing the size of the screen, and its capture: Resize, resizeRows, cellsFromText and Capture
-- of internal/vt/screen.go.
pub mod Buffers
pub mod Safe
use pairmux.Prelude.{
  ℕ, zero, suc, ◌+◌, ◌-◌, ◌%◌, min, List, [], ◌∷◌, ◌++◌, Bool, true, false, not, ◌&&◌, ltb, ◌==◌,
  if◌then◌else◌, length, get_or, take, drop, replicate, tabulate, map,
}
use pairmux.Bytes.{is_empty}
use pairmux.Vt.Cell.{Cell, Line, zero_line}
use pairmux.Vt.History.{History, len, at, pop_newest}
use pairmux.Vt.Parser.{Term, in_ground}
use pairmux.Vt.Parser.Loop.{feed}
use pairmux.Vt.Row.{fit_cells}
use pairmux.Vt.Scroll.{push_all}
use pairmux.Vt.State.{Screen, SavedCursor, max_dim, clamp, new, new_line, buf}
use pairmux.Vt.Text.{line_text}
use pairmux.Vt.Width.{Unicode}

-- A parser that has consumed nothing, in front of a screen without autowrap.
abbrev scratch : ℕ → Term
scratch cols =
    let s = new cols 1 0 in
    record {
      screen = record s { modes = record (s.modes) { autowrap = false } };
      state = in_ground;
      seq = [];
      str_kind = 0;
      str_overflow = false;
      csi_overflow = false;
      ubuf = [];
    }

unfoldable cells_from_text : Unicode → ℕ → List ℕ → List Cell
unfolding feed new
cells_from_text u cols text = (get_or ((feed u (scratch cols) text).screen).main 0 zero_line).cells

-- What `resizeRows` changes: the history, how much of it scrolled out, the rows and the cursor row.
pub record Rows : Type 0 where
  pub hist : History
  pub hscrolled : ℕ
  pub lines : List Line
  pub cy : ℕ

-- The rows scroll off the top, into the history of the main buffer.
unfoldable pub scroll_off : Rows → ℕ → Bool → Rows
unfolding push_all
scroll_off r needed is_main =
    let gone = take needed r.lines in
    let kept = record r { lines = drop needed r.lines; cy = r.cy - needed } in
    if is_main && ltb 0 (r.hist).limit
    then record kept { hist = push_all r.hist gone; hscrolled = r.hscrolled + needed }
    else kept

-- Rows below the cursor are dropped first.
unfoldable pub shrink_rows : Rows → ℕ → Bool → Rows
unfolding scroll_off
shrink_rows r rows is_main =
    let old = length r.lines in
    let needed = old - rows in
    let avail = min (old - 1 - r.cy) needed in
    scroll_off (record r { lines = take (old - avail) r.lines }) (needed - avail) is_main

-- The `n` newest lines of the history in front of `lines`.
unfoldable pub pull_lines : Unicode → ℕ → ℕ → History → List Line → History × List Line
unfolding cells_from_text is_empty
pull_lines u cols zero h lines = (h, lines)
pull_lines u cols (suc n) h lines =
    let (text, rest) = pop_newest h in
    pull_lines u cols n rest
      (record { cells = cells_from_text u cols text; used = not (is_empty text) } ∷ lines)

unfoldable pub grow_rows : Unicode → ℕ → Rows → ℕ → Bool → Rows
unfolding pull_lines
grow_rows u cols r rows is_main =
    let needed = rows - length r.lines in
    let n = if is_main then min needed (min r.hscrolled (len r.hist)) else 0 in
    let (hist, lines) = pull_lines u cols n r.hist r.lines in
    record {
      hist = hist;
      hscrolled = r.hscrolled - n;
      lines = lines ++ replicate (needed - n) (new_line cols);
      cy = r.cy + n;
    }

unfoldable pub resize_rows : Unicode → ℕ → Rows → ℕ → Bool → Rows
unfolding shrink_rows grow_rows
resize_rows u cols r rows is_main =
    if ltb rows (length r.lines)
    then shrink_rows r rows is_main
    else if ltb (length r.lines) rows
    then grow_rows u cols r rows is_main
    else r

unfoldable pub fit_line : ℕ → Line → Line
unfolding fit_cells
fit_line cols l = record l { cells = fit_cells l.cells cols }

unfoldable pub resize_cols : Screen → ℕ → Screen
unfolding fit_line
resize_cols s cols = record s {
  main = map (fit_line cols) s.main;
  alt = map (fit_line cols) s.alt;
  tabs =
      tabulate cols (λ i. if ltb i s.cols then get_or s.tabs i false else (i % 8 == 0) && ltb 0 i);
  cols = cols;
  pending_wrap = false;
}

-- The rows of a buffer with the cursor row on which they pivot.
abbrev pub rows_of : Screen → List Line → ℕ → Rows
rows_of s lines cy = record { hist = s.hist; hscrolled = s.hscrolled; lines = lines; cy = cy }

-- The alternate buffer pivots on the cursor, the main one on the cursor saved for it.
unfoldable pub resize_alt_active : Unicode → Screen → ℕ → Screen
unfolding resize_rows
resize_alt_active u s rows =
    let alt = resize_rows u s.cols (rows_of s s.alt s.cy) rows false in
    let saved = s.saved_main in
    let y = clamp (if saved.valid then saved.y else alt.cy) 0 (length s.main - 1) in
    let main = resize_rows u s.cols (rows_of s s.main y) rows true in
    record s {
      alt = alt.lines;
      main = main.lines;
      cy = alt.cy;
      hist = main.hist;
      hscrolled = main.hscrolled;
      saved_main = if saved.valid then record saved { y = main.cy } else saved;
    }

unfoldable pub resize_main_active : Unicode → Screen → ℕ → Screen
unfolding resize_rows
resize_main_active u s rows =
    let main = resize_rows u s.cols (rows_of s s.main s.cy) rows true in
    let alt = resize_rows u s.cols (rows_of s s.alt 0) rows false in
    record s {
      alt = alt.lines;
      main = main.lines;
      cy = main.cy;
      hist = main.hist;
      hscrolled = main.hscrolled;
    }

unfoldable pub clamp_saved : ℕ → ℕ → SavedCursor → SavedCursor
clamp_saved cols rows c = record c { x = clamp c.x 0 (cols - 1); y = clamp c.y 0 (rows - 1) }

-- The end of `Resize`.
unfoldable pub clamp_cursor : Screen → Screen
unfolding clamp_saved
clamp_cursor s = record s {
  top = 0;
  bottom = s.rows - 1;
  cx = clamp s.cx 0 (s.cols - 1);
  cy = clamp s.cy 0 (s.rows - 1);
  saved_main = clamp_saved s.cols s.rows s.saved_main;
  saved_alt = clamp_saved s.cols s.rows s.saved_alt;
}

unfoldable pub resize : Unicode → Screen → ℕ → ℕ → Screen
unfolding resize_cols resize_alt_active resize_main_active clamp_cursor
resize u s cols0 rows0 =
    let cols = clamp cols0 1 max_dim in
    let rows = clamp rows0 1 max_dim in
    let wide = if cols == s.cols then s else resize_cols s cols in
    let tall =
      if rows == s.rows
      then wide
      else record (if wide.alt_active
          then resize_alt_active u wide rows
          else resize_main_active u wide rows) { rows = rows } in
    if (cols == s.cols) && (rows == s.rows) then s else clamp_cursor tall

-- The lines of the history from index `i` on, `n` of them, each ended by a line feed.
unfoldable history_text : History → ℕ → ℕ → List ℕ
unfolding at
history_text h i zero = []
history_text h i (suc n) = at h i ++ (0x0A ∷ history_text h (suc i) n)

unfoldable rows_text : List Line → List ℕ
unfolding line_text
rows_text [] = []
rows_text (l ∷ ls) = line_text l.cells ++ (0x0A ∷ rows_text ls)

-- `Capture`; a negative count is 0.
unfoldable pub capture : Screen → ℕ → List ℕ
unfolding history_text rows_text
capture s history_lines =
    let n = len s.hist in
    let count = min history_lines n in
    if ltb 0 history_lines && not s.alt_active
    then history_text s.hist (n - count) count ++ rows_text (buf s)
    else rows_text (buf s)
