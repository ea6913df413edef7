-- ===== src/Vt/Cursor/Safe.antt =====
-- Moves, tabs, save and restore, buffer switches and resets keep the screen well formed.
use pairmux.Prelude.{
  ℕ, ◌-◌, ◌<◌, ◌≡◌, ◌∙◌, refl, List, Bool, true, false, arith, inl, length, length-map,
  length-tabulate, length-replicate, replicate,
}
use pairmux.Prelude.All.{All-map, All-replicate}
use pairmux.Vt.Cell.{Line, zero_attr, zero_cell}
use pairmux.Vt.Cursor.{
  move_to, move_to_origin, cursor_up, cursor_down, carriage_return, backspace, tab_forward,
  tab_backward, save_cursor, restore_from, restore_cursor, switch_buffer, clear_buffer,
  alignment_test, full_reset, soft_reset,
}
use pairmux.Vt.Cursor.Tabs.{tabs_forward_bounds, tabs_backward-le}
use pairmux.Vt.Scroll.{can_scroll_on_clear}
use pairmux.Vt.Scroll.Rows.{replicate-IsRow}
use pairmux.Vt.Scroll.Safe.{clear_to_history-IsScreen}
use pairmux.Vt.State.{
  Screen, SavedCursor, reset_state, start_tabs, buf, new, zero_screen, blank, clamp, new_line,
  max_dim,
}
use pairmux.Vt.Wf.{
  IsLine, IsBuffer, IsGrid, IsCursor, IsScreen, buf-IsBuffer, set_buf-IsScreen, if-IsScreen,
}

pub move_to-IsScreen : (s : Screen) (x y : ℕ) → IsScreen s → IsScreen (move_to s x y)
unfolding move_to
move_to-IsScreen s x y w =
    let p = w.grid.cols_pos in
    let q = w.grid.rows_pos in
    record { grid = w.grid; cursor = ground arith; charset = w.charset; memory = w.memory }

pub move_to_origin-IsScreen : (s : Screen) (x y : ℕ) → IsScreen s → IsScreen (move_to_origin s x y)
unfolding move_to_origin
move_to_origin-IsScreen s x y w =
    if-IsScreen (s.modes).origin_mode _ _ (λ _. move_to-IsScreen s x _ w)
      (λ _. move_to-IsScreen s x y w)

pub cursor_up-IsScreen : (s : Screen) (n : ℕ) → IsScreen s → IsScreen (cursor_up s n)
unfolding cursor_up
cursor_up-IsScreen s n w = move_to-IsScreen s _ _ w

pub cursor_down-IsScreen : (s : Screen) (n : ℕ) → IsScreen s → IsScreen (cursor_down s n)
unfolding cursor_down
cursor_down-IsScreen s n w = move_to-IsScreen s _ _ w

pub carriage_return-IsScreen : (s : Screen) → IsScreen s → IsScreen (carriage_return s)
unfolding carriage_return
carriage_return-IsScreen s w =
    let p = w.grid.cols_pos in
    record { grid = w.grid; cursor = ground arith; charset = w.charset; memory = w.memory }

pub backspace-IsScreen : (s : Screen) → IsScreen s → IsScreen (backspace s)
unfolding backspace
backspace-IsScreen s w = record {
  grid = w.grid;
  cursor = ground arith;
  charset = w.charset;
  memory = w.memory;
}

pub tab_forward-IsScreen : (s : Screen) (n : ℕ) → IsScreen s → IsScreen (tab_forward s n)
unfolding tab_forward
tab_forward-IsScreen s n w =
    let b = tabs_forward_bounds n s.cols s.tabs s.cx w.cursor.col in
    if-IsScreen s.pending_wrap _ _ (λ _. w)
      (λ e. record { grid = w.grid; cursor = ground arith; charset = w.charset; memory = w.memory })

pub tab_backward-IsScreen : (s : Screen) (n : ℕ) → IsScreen s → IsScreen (tab_backward s n)
unfolding tab_backward
tab_backward-IsScreen s n w =
    let b = tabs_backward-le n s.tabs s.cx in
    record { grid = w.grid; cursor = ground arith; charset = w.charset; memory = w.memory }

pub save_cursor-IsScreen : (s : Screen) → IsScreen s → IsScreen (save_cursor s)
unfolding save_cursor
save_cursor-IsScreen s w = record {
  grid = w.grid;
  cursor = w.cursor;
  charset = let c = w.charset in ground arith;
  memory = w.memory;
}

restore_from-IsScreen :
    (s : Screen) (sc : SavedCursor)
    → IsScreen s
    → length sc.g ≡ 4
    → sc.gl < 4
    → IsScreen (restore_from s sc)
unfolding restore_from
restore_from-IsScreen s sc w four invoked =
    let p = w.grid.cols_pos in
    let q = w.grid.rows_pos in
    let c = w.charset in
    record { grid = w.grid; cursor = ground arith; charset = ground arith; memory = w.memory }

pub restore_cursor-IsScreen : (s : Screen) → IsScreen s → IsScreen (restore_cursor s)
unfolding restore_cursor
restore_cursor-IsScreen s w =
    let c = w.charset in restore_from-IsScreen s _ w (ground arith) (ground arith)

pub switch_buffer-IsScreen :
    (s : Screen) (alt : Bool) → IsScreen s → IsScreen (switch_buffer s alt).0
unfolding switch_buffer
switch_buffer-IsScreen s true w = record {
  grid = w.grid;
  cursor = w.cursor;
  charset = w.charset;
  memory = w.memory;
}
switch_buffer-IsScreen s false w = record {
  grid = w.grid;
  cursor = w.cursor;
  charset = w.charset;
  memory = w.memory;
}

pub clear_buffer-IsBuffer :
    (s : Screen) (cols rows : ℕ) (lines : List Line)
    → IsBuffer cols rows lines
    → IsBuffer cols rows (clear_buffer s lines)
unfolding clear_buffer
clear_buffer-IsBuffer s cols rows lines b = (
  length-map _ lines ∙ b.0,
  All-map (IsLine cols) (IsLine cols) _
      (λ l h. rw h.width (replicate-IsRow cols (blank s) refl refl)) lines b.1,
)

pub alignment_test-IsScreen : (s : Screen) → IsScreen s → IsScreen (alignment_test s)
unfolding alignment_test
alignment_test-IsScreen s w =
    let q = w.grid.rows_pos in
    let c = w.cursor in
    let reset_cursor : IsCursor s.cols s.rows s.cx s.cy 0 (s.rows - 1) s.pending_wrap
        (s.modes).autowrap =
      ground arith in
    let b = buf-IsBuffer s w in
    let filled = set_buf-IsScreen s _ w (
      length-map _ (buf s) ∙ b.0,
      All-map (IsLine s.cols) (IsLine s.cols) _
          (λ l h. rw h.width (replicate-IsRow s.cols _ refl refl)) (buf s) b.1,
    ) in
    move_to-IsScreen _ 0 0 (record {
      grid = filled.grid;
      cursor = reset_cursor;
      charset = filled.charset;
      memory = filled.memory;
    })

-- The grid alone makes the reset screen well formed, whatever cursor stood before.
reset_state-IsScreen :
    (s : Screen) {tabs : List Bool}
    → IsGrid s.cols s.rows s.main s.alt tabs s.hist
    → IsScreen (reset_state s)
unfolding reset_state
reset_state-IsScreen s g = record {
  grid = record {
    cols_pos = g.cols_pos;
    cols_le = g.cols_le;
    rows_pos = g.rows_pos;
    rows_le = g.rows_le;
    main_ok = g.main_ok;
    alt_ok = g.alt_ok;
    tabs_ok = length-tabulate s.cols _;
    ring = g.ring;
  };
  cursor = let p = g.cols_pos in let q = g.rows_pos in ground arith;
  charset = ground arith;
  memory = inl refl;
}

pub soft_reset-IsScreen : (s : Screen) → IsScreen s → IsScreen (soft_reset s)
unfolding soft_reset
soft_reset-IsScreen s w =
    let q = w.grid.rows_pos in
    record { grid = w.grid; cursor = ground arith; charset = ground arith; memory = w.memory }

-- A new screen is well formed whatever columns, rows and history limit it is asked for.
pub new-IsScreen : (cols rows limit : ℕ) → IsScreen (new cols rows limit)
unfolding new
new-IsScreen cols rows limit =
    let w = clamp cols 1 max_dim in
    let h = clamp rows 1 max_dim in
    let fresh : IsBuffer w h (replicate h (new_line w)) = (
      length-replicate h (new_line w),
      All-replicate (IsLine w) h (new_line w) (replicate-IsRow w zero_cell refl refl),
    ) in
    reset_state-IsScreen (zero_screen w h limit) {tabs = start_tabs w} (record {
      cols_pos = ground arith;
      cols_le = ground arith;
      rows_pos = ground arith;
      rows_le = ground arith;
      main_ok = fresh;
      alt_ok = fresh;
      tabs_ok = length-tabulate w _;
      ring = record {
        bounded = omega arith;
        head_in = omega arith;
        head_lt = λ ne. absurd (ne refl);
        turned = λ ne. absurd (ne refl);
      };
    })

-- The alternate buffer is cleared first, in the pen that was set before the reset.
cleared_alt-IsScreen :
    (s : Screen) → IsScreen s → IsScreen (record s { alt = clear_buffer s s.alt; pen = zero_attr })
cleared_alt-IsScreen s w = record {
  grid = record {
    cols_pos = w.grid.cols_pos;
    cols_le = w.grid.cols_le;
    rows_pos = w.grid.rows_pos;
    rows_le = w.grid.rows_le;
    main_ok = w.grid.main_ok;
    alt_ok = clear_buffer-IsBuffer s s.cols s.rows s.alt w.grid.alt_ok;
    tabs_ok = w.grid.tabs_ok;
    ring = w.grid.ring;
  };
  cursor = w.cursor;
  charset = w.charset;
  memory = w.memory;
}

cleared_main-IsScreen :
    (s : Screen) → IsScreen s → IsScreen (record s { main = clear_buffer s s.main })
cleared_main-IsScreen s w = record {
  grid = record {
    cols_pos = w.grid.cols_pos;
    cols_le = w.grid.cols_le;
    rows_pos = w.grid.rows_pos;
    rows_le = w.grid.rows_le;
    main_ok = clear_buffer-IsBuffer s s.cols s.rows s.main w.grid.main_ok;
    alt_ok = w.grid.alt_ok;
    tabs_ok = w.grid.tabs_ok;
    ring = w.grid.ring;
  };
  cursor = w.cursor;
  charset = w.charset;
  memory = w.memory;
}

-- A full reset of a well-formed screen leaves a well-formed screen.
pub full_reset-IsScreen : (s : Screen) → IsScreen s → IsScreen (full_reset s)
unfolding full_reset
full_reset-IsScreen s w =
    let on_main = (switch_buffer s false).0 in
    let v = cleared_alt-IsScreen on_main (switch_buffer-IsScreen s false w) in
    let t = record on_main { alt = clear_buffer on_main on_main.alt; pen = zero_attr } in
    let u =
      if-IsScreen (can_scroll_on_clear t) _ _ (λ _. clear_to_history-IsScreen t v)
        (λ _. cleared_main-IsScreen t v) in
    reset_state-IsScreen _ u.grid
