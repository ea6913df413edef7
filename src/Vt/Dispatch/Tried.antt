-- ===== src/Vt/Dispatch/Tried.antt =====
-- The CSI sequences that move, erase, shift, scroll and set keep the screen well formed.
use pairmux.Prelude.{
  ℕ, ◌+◌, ◌≡◌, ◌∙◌, refl, List, Option, none, some, Bool, true, false, ◌||◌, leb, ◌==◌,
  if◌then◌else◌, arith, if_intro, length, length-set, length-replicate,
}
use pairmux.Vt.Csi.{modes_of}
use pairmux.Vt.Csi.Safe.{IsHandled, written-IsScreen}
use pairmux.Vt.Csi.Others.{rep-IsScreen, set_region-IsScreen, set_insert-IsScreen}
use pairmux.Vt.Cursor.Safe.{
  move_to-IsScreen, move_to_origin-IsScreen, cursor_up-IsScreen, cursor_down-IsScreen,
  tab_forward-IsScreen, tab_backward-IsScreen, save_cursor-IsScreen, restore_cursor-IsScreen,
}
use pairmux.Vt.Cell.{Cell, zero_attr}
use pairmux.Vt.Cursor.{cursor_up, cursor_down, move_to}
use pairmux.Vt.Dispatch.{
  clear_tabs, insert_blanks, delete_chars, csi_move, csi_edit, csi_set, or_else,
}
use pairmux.Vt.Params.{Params, arg, count}
use pairmux.Vt.Row.Paired.{IsRow}
use pairmux.Vt.Scroll.{unwrapped}
use pairmux.Vt.Row.Shifts.{insert_cells-IsRow, delete_cells-IsRow}
use pairmux.Vt.Scroll.Safe.{
  erase_cells-IsScreen, erase_display-IsScreen, erase_in_line-IsScreen, insert_lines-IsScreen,
  delete_lines-IsScreen, scroll_up-IsScreen, scroll_down-IsScreen, unwrapped-IsScreen,
}
use pairmux.Vt.State.{Screen, line_at, set_cells}
use pairmux.Vt.Wf.{IsScreen, if-IsScreen, set_line-IsScreen, line_at-IsLine}

-- New tab stops, one for each column.
pub tabs-IsScreen :
    (s : Screen) (tabs : List Bool)
    → IsScreen s
    → length tabs ≡ s.cols
    → IsScreen (record s { tabs = tabs })
tabs-IsScreen s tabs w e = record {
  grid = record {
    cols_pos = w.grid.cols_pos;
    cols_le = w.grid.cols_le;
    rows_pos = w.grid.rows_pos;
    rows_le = w.grid.rows_le;
    main_ok = w.grid.main_ok;
    alt_ok = w.grid.alt_ok;
    tabs_ok = e;
    ring = w.grid.ring;
  };
  cursor = w.cursor;
  charset = w.charset;
  memory = w.memory;
}

cursor_up-calm : (s : Screen) (n : ℕ) → (cursor_up s n).pending_wrap ≡ false
unfolding cursor_up move_to
cursor_up-calm s n = refl

cursor_down-calm : (s : Screen) (n : ℕ) → (cursor_down s n).pending_wrap ≡ false
unfolding cursor_down move_to
cursor_down-calm s n = refl

-- The cursor goes to column 0.
first_col-IsScreen :
    (s : Screen) → IsScreen s → s.pending_wrap ≡ false → IsScreen (record s { cx = 0 })
first_col-IsScreen s w calm =
    let p = w.grid.cols_pos in
    record { grid = w.grid; cursor = ground arith; charset = w.charset; memory = w.memory }

clear_tabs-IsScreen : (s : Screen) (n : ℕ) → IsScreen s → IsScreen (clear_tabs s n)
unfolding clear_tabs
clear_tabs-IsScreen s n w =
    if-IsScreen (n == 0) _ _
      (λ _. tabs-IsScreen s _ w (length-set s.tabs s.cx false ∙ w.grid.tabs_ok))
      λ _.
        if-IsScreen (n == 3) _ _
          (λ _. tabs-IsScreen s _ w (length-replicate (length s.tabs) false ∙ w.grid.tabs_ok))
          (λ _. w)

row-IsScreen :
    (s : Screen) (cells : List Cell)
    → IsScreen s
    → (IsRow s.cols (line_at s s.cy).cells → IsRow s.cols cells)
    → IsScreen (unwrapped (set_cells s s.cy cells))
row-IsScreen s cells w ok =
    unwrapped-IsScreen _ (set_line-IsScreen s s.cy _ w (λ lt. ok (line_at-IsLine s s.cy w lt)))

insert_blanks-IsScreen : (s : Screen) (n : ℕ) → IsScreen s → IsScreen (insert_blanks s n)
unfolding insert_blanks
insert_blanks-IsScreen s n w =
    row-IsScreen s _ w (insert_cells-IsRow _ (record zero_attr { bg = s.pen.bg }) s.cx n s.cols)

delete_chars-IsScreen : (s : Screen) (n : ℕ) → IsScreen s → IsScreen (delete_chars s n)
unfolding delete_chars
delete_chars-IsScreen s n w =
    row-IsScreen s _ w (delete_cells-IsRow _ (record zero_attr { bg = s.pen.bg }) s.cx n s.cols)

-- A handler that may not know the sequence.
abbrev IsTried : Option Screen → Type 0
IsTried none = tt ≡ tt
IsTried (some s) = IsScreen s

if-IsTried :
    (b : Bool) (o p : Option Screen)
    → (b ≡ true → IsTried o)
    → (b ≡ false → IsTried p)
    → IsTried (if b then o else p)
if-IsTried = if_intro IsTried

pub or_else-IsHandled :
    (o : Option Screen) (r : Screen × Bool) → IsTried o → IsHandled r → IsHandled (or_else o r)
or_else-IsHandled none r h k = k
or_else-IsHandled (some s) r h k = h

pub csi_move-IsTried :
    (s : Screen) (final : ℕ) (p : Params) → IsScreen s → IsTried (csi_move s final p)
unfolding csi_move
csi_move-IsTried s final p w =
    let n = count p 0 in
    let up = cursor_up-IsScreen s n w in
    let down = cursor_down-IsScreen s n w in
    if-IsTried (final == b'A') _ _ (λ _. up)
      λ _.
        if-IsTried (final == b'B' || final == b'e') _ _ (λ _. down)
          λ _.
            if-IsTried (final == b'C' || final == b'a') _ _ (λ _. move_to-IsScreen s _ _ w)
              λ _.
                if-IsTried (final == b'D') _ _ (λ _. move_to-IsScreen s _ _ w)
                  λ _.
                    if-IsTried (final == b'E') _ _
                      (λ _. first_col-IsScreen _ down (cursor_down-calm s n))
                      λ _.
                        if-IsTried (final == b'F') _ _
                          (λ _. first_col-IsScreen _ up (cursor_up-calm s n))
                          λ _.
                            if-IsTried (final == b'G' || final == b'`') _ _
                              (λ _. move_to-IsScreen s _ _ w)
                              λ _.
                                if-IsTried (final == b'H' || final == b'f') _ _
                                  (λ _. move_to_origin-IsScreen s _ _ w)
                                  λ _.
                                    if-IsTried (final == b'd') _ _
                                      (λ _.
                                        if-IsScreen (s.modes).origin_mode _ _
                                          (λ _. move_to_origin-IsScreen s _ _ w)
                                          (λ _. move_to-IsScreen s _ _ w))
                                      λ _.
                                        if-IsTried (final == b'I') _ _
                                          (λ _. tab_forward-IsScreen s n w)
                                          λ _.
                                            if-IsTried (final == b'Z') _ _
                                              (λ _. tab_backward-IsScreen s n w) (λ _. refl)

pub csi_edit-IsTried :
    (s : Screen) (final : ℕ) (p : Params) → IsScreen s → IsTried (csi_edit s final p)
unfolding csi_edit
csi_edit-IsTried s final p w =
    let n = count p 0 in
    let low = w.cursor.region_in in
    if-IsTried (final == b'J') _ _ (λ _. erase_display-IsScreen s _ w)
      λ _.
        if-IsTried (final == b'K') _ _ (λ _. erase_in_line-IsScreen s _ w)
          λ _.
            if-IsTried (final == b'@') _ _ (λ _. insert_blanks-IsScreen s n w)
              λ _.
                if-IsTried (final == b'P') _ _ (λ _. delete_chars-IsScreen s n w)
                  λ _.
                    if-IsTried (final == b'X') _ _
                      (λ _. erase_cells-IsScreen _ s.cy s.cx (s.cx + n) (unwrapped-IsScreen s w))
                      λ _.
                        if-IsTried (final == b'L') _ _ (λ _. insert_lines-IsScreen s n w)
                          λ _.
                            if-IsTried (final == b'M') _ _ (λ _. delete_lines-IsScreen s n w)
                              λ _.
                                if-IsTried (final == b'S') _ _
                                  (λ _. scroll_up-IsScreen s s.top s.bottom n true w low)
                                  λ _.
                                    if-IsTried (final == b'T') _ _
                                      (λ _.
                                        if-IsScreen (leb (length p.top) 1) _ _
                                          (λ _. scroll_down-IsScreen s s.top s.bottom n w low)
                                          (λ _. w))
                                      λ _.
                                        if-IsTried (final == b'b') _ _ (λ _. rep-IsScreen n s w)
                                          (λ _. refl)

pub csi_set-IsTried :
    (s : Screen) (final : ℕ) (p : Params) → IsScreen s → IsTried (csi_set s final p)
unfolding csi_set
csi_set-IsTried s final p w =
    if-IsTried (final == b'r') _ _ (λ _. set_region-IsScreen s p w)
      λ _.
        if-IsTried (final == b's') _ _
          (λ _. if-IsScreen (length p.v == 0) _ _ (λ _. save_cursor-IsScreen s w) (λ _. w))
          λ _.
            if-IsTried (final == b'u') _ _
              (λ _. if-IsScreen (length p.v == 0) _ _ (λ _. restore_cursor-IsScreen s w) (λ _. w))
              λ _.
                if-IsTried (final == b'g') _ _ (λ _. clear_tabs-IsScreen s (arg p 0 0) w)
                  λ _.
                    if-IsTried (final == b'm') _ _ (λ _. written-IsScreen s _ _ _ _ _ w)
                      λ _.
                        if-IsTried (final == b'h' || final == b'l') _ _
                          (λ _. set_insert-IsScreen s (modes_of p) (final == b'h') w) (λ _. refl)
