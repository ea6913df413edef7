-- ===== src/Vt/Cursor.antt =====
-- Cursor movement, tab stops, save and restore, buffers and resets, from internal/vt/screen.go.
pub mod Tabs
pub mod Safe
use pairmux.Prelude.{
  ℕ, zero, suc, ◌+◌, ◌-◌, min, max, List, [], ◌∷◌, map, Bool, true, false, not, ◌&&◌, ltb, leb,
  ◌==◌, if◌then◌else◌, length, get_or, set, replicate,
}
use pairmux.Vt.Cell.{Cell, Line, zero_attr, zero_cell}
use pairmux.Vt.State.{
  Screen, Modes, SavedCursor, no_cursor, ascii_sets, clamp, reset_state, buf, set_buf, blank,
}
use pairmux.Vt.Scroll.{can_scroll_on_clear, clear_to_history}

-- `moveTo`; a negative coordinate, which `clampInt` raises to 0, is represented by 0.
unfoldable pub move_to : Screen → ℕ → ℕ → Screen
move_to s x y = record s {
  cx = clamp x 0 (s.cols - 1);
  cy = clamp y 0 (s.rows - 1);
  pending_wrap = false;
}

unfoldable pub move_to_origin : Screen → ℕ → ℕ → Screen
move_to_origin s x y =
    if s.modes.origin_mode then move_to s x (clamp (y + s.top) s.top s.bottom) else move_to s x y

unfoldable pub cursor_up : Screen → ℕ → Screen
cursor_up s n = let top = if leb s.top s.cy then s.top else 0 in move_to s s.cx (max (s.cy - n) top)

unfoldable pub cursor_down : Screen → ℕ → Screen
cursor_down s n =
    let bottom = if leb s.cy s.bottom then s.bottom else s.rows - 1 in
    move_to s s.cx (min (s.cy + n) bottom)

unfoldable pub carriage_return : Screen → Screen
carriage_return s = record s { cx = 0; pending_wrap = false }

unfoldable pub backspace : Screen → Screen
backspace s = record s { cx = if ltb 0 s.cx then s.cx - 1 else s.cx; pending_wrap = false }

-- `for x < s.cols-1 && !s.tabs[x] { x++ }`; the fuel `s.cols` is more than the columns left.
pub next_tab : ℕ → ℕ → List Bool → ℕ → ℕ
next_tab zero cols tabs x = x
next_tab (suc fuel) cols tabs x =
    let rest = next_tab fuel cols tabs (x + 1) in
    if ltb (x + 1) cols && not (get_or tabs x false) then rest else x

-- `for x > 0 && !s.tabs[x] { x-- }`
pub prev_tab : List Bool → ℕ → ℕ
prev_tab tabs zero = zero
prev_tab tabs (suc x) =
    let rest = prev_tab tabs x in if get_or tabs (suc x) false then suc x else rest

-- The outer loop of `tabForward`, on its counter.
pub tabs_forward : ℕ → ℕ → List Bool → ℕ → ℕ
unfolding next_tab
tabs_forward zero cols tabs x = x
tabs_forward (suc n) cols tabs x =
    let rest = tabs_forward n cols tabs (next_tab cols cols tabs (x + 1)) in
    if ltb (x + 1) cols then rest else x

-- The outer loop of `tabBackward`, on its counter.
pub tabs_backward : ℕ → List Bool → ℕ → ℕ
unfolding prev_tab
tabs_backward zero tabs x = x
tabs_backward (suc n) tabs x =
    let rest = tabs_backward n tabs (prev_tab tabs (x - 1)) in if ltb 0 x then rest else x

unfoldable pub tab_forward : Screen → ℕ → Screen
tab_forward s n = if s.pending_wrap then s else record s { cx = tabs_forward n s.cols s.tabs s.cx }

unfoldable pub tab_backward : Screen → ℕ → Screen
tab_backward s n = record s { cx = tabs_backward n s.tabs s.cx; pending_wrap = false }

-- `saveCursor`
unfoldable pub save_cursor : Screen → Screen
save_cursor s =
    let sc : SavedCursor = record {
      valid = true;
      x = s.cx;
      y = s.cy;
      pending_wrap = s.pending_wrap;
      pen = s.pen;
      origin = s.modes.origin_mode;
      g = s.g;
      gl = s.gl;
    } in
    record s {
      saved_main = if s.alt_active then s.saved_main else sc;
      saved_alt = if s.alt_active then sc else s.saved_alt;
    }

-- `*s.slot()`
abbrev slot : Screen → SavedCursor
slot s = if s.alt_active then s.saved_alt else s.saved_main

-- What `restoreCursor` restores: the slot, or the home position without a prior save.
abbrev restorable : SavedCursor → SavedCursor
restorable sc = if sc.valid then sc else record no_cursor { g = ascii_sets }

unfoldable pub restore_from : Screen → SavedCursor → Screen
restore_from s sc =
    let x = clamp sc.x 0 (s.cols - 1) in
    record s {
      cx = x;
      cy = clamp sc.y 0 (s.rows - 1);
      pending_wrap = sc.pending_wrap && s.modes.autowrap && (x == s.cols - 1);
      pen = sc.pen;
      modes = record (s.modes) { origin_mode = sc.origin };
      g = sc.g;
      gl = sc.gl;
    }

unfoldable pub restore_cursor : Screen → Screen
restore_cursor s = restore_from s (restorable (slot s))

-- `switchBuffer`, with whether the active buffer changed.
unfoldable pub switch_buffer : Screen → Bool → Screen × Bool
switch_buffer s true = (record s { alt_active = true }, not s.alt_active)
switch_buffer s false = (record s { alt_active = false }, s.alt_active)

-- `clearBuffer`
unfoldable pub clear_buffer : Screen → List Line → List Line
clear_buffer s lines =
    map (λ l. record { cells = replicate (length l.cells) (blank s); used = false }) lines

unfoldable pub alignment_test : Screen → Screen
alignment_test s =
    let full = λ (l : Line). record l {
      cells = replicate (length l.cells) (record zero_cell { r = b'E' });
      used = true;
    } in
    let filled = set_buf s (map full (buf s)) in
    move_to
      (record filled {
        top = 0;
        bottom = s.rows - 1;
        modes = record (s.modes) { origin_mode = false };
      })
      0 0

unfoldable pub full_reset : Screen → Screen
full_reset s =
    let on_main = (switch_buffer s false).0 in
    let cleared = record on_main { alt = clear_buffer on_main on_main.alt; pen = zero_attr } in
    reset_state (
      if can_scroll_on_clear cleared
      then clear_to_history cleared
      else record cleared { main = clear_buffer cleared cleared.main })

unfoldable pub soft_reset : Screen → Screen
soft_reset s = record s {
  modes = record (s.modes) {
    cursor_visible = true;
    insert = false;
    origin_mode = false;
    app_cursor = false;
    app_keypad = false;
    autowrap = true;
  };
  top = 0;
  bottom = s.rows - 1;
  g = ascii_sets;
  gl = 0;
  pen = zero_attr;
  saved_main = no_cursor;
  saved_alt = no_cursor;
  pending_wrap = false;
}
