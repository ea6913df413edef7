-- ===== src/Vt/Scroll.antt =====
-- Erasing and scrolling on the screen, from internal/vt/screen.go.
pub mod Frame
pub mod Rows
pub mod Safe
use pairmux.Prelude.{
  ℕ, zero, suc, ◌+◌, ◌-◌, min, List, [], ◌∷◌, ◌++◌, map, Bool, true, false, not, ◌&&◌, ◌||◌, ltb,
  leb, ◌==◌, if◌then◌else◌, length, take, drop,
}
use pairmux.Vt.Cell.{Cell, Line}
use pairmux.Vt.History.{History, push, clear}
use pairmux.Vt.Row
use pairmux.Vt.State.{Screen, buf, set_buf, line_at, set_line, blank}
use pairmux.Vt.Text.{line_text}

-- `pushHistory` of each row in turn, as it changes the history.
unfoldable pub push_all : History → List Line → History
push_all h [] = h
push_all h (l ∷ ls) = push_all (push h (line_text l.cells)) ls

-- `for _, l := range lines { s.pushHistory(l.cells) }`
abbrev pub push_lines : Screen → List Line → Screen
push_lines s lines = record s { hist = push_all s.hist lines }

-- `eraseCells`; no caller passes a negative `x0`.
unfoldable pub erase_cells : Screen → ℕ → ℕ → ℕ → Screen
erase_cells s y x0 x1 =
    let end = min x1 s.cols in
    let ln = line_at s y in
    if leb end x0
    then s
    else set_line s y (record {
      cells = Row.erase_cells ln.cells (blank s) x0 end;
      used = if x0 == 0 && end == s.cols then false else ln.used;
    })

abbrev pub erase_line : Screen → ℕ → Screen
erase_line s y = erase_cells s y 0 s.cols

-- `for y := from; y < from+n; y++ { s.eraseLine(y) }`
unfoldable pub erase_lines : Screen → ℕ → ℕ → Screen
erase_lines s from zero = s
erase_lines s from (suc n) = erase_lines (erase_line s from) (from + 1) n

-- A row that scrolled out, blanked for use at the other end of the region.
abbrev pub blank_line : Cell → Line → Line
blank_line b l = record { cells = Row.fill_cells l.cells 0 (length l.cells) b; used = false }

-- Rows `[top, bottom]` of `lines` moved up by `n`, the first `n` of them blanked at the bottom.
abbrev pub rotate_up : List Line → ℕ → ℕ → ℕ → Cell → List Line
rotate_up lines top bottom n b =
    take top lines
    ++ (take (bottom + 1 - top - n) (drop (top + n) lines)
        ++ (map (blank_line b) (take n (drop top lines)) ++ drop (bottom + 1) lines))

-- Rows `[top, bottom]` of `lines` moved down by `n`, the last `n` of them blanked at the top.
abbrev pub rotate_down : List Line → ℕ → ℕ → ℕ → Cell → List Line
rotate_down lines top bottom n b =
    take top lines
    ++ (map (blank_line b) (take n (drop (bottom + 1 - n) lines))
        ++ (take (bottom + 1 - top - n) (drop top lines) ++ drop (bottom + 1) lines))

-- The history's part of `scrollUp`.
unfoldable pub scroll_out : Screen → ℕ → ℕ → Bool → Screen
scroll_out s top n to_history =
    if to_history && (top == 0) && not s.alt_active && ltb 0 s.hist.limit
    then record (push_lines s (take n (buf s))) { hscrolled = s.hscrolled + n }
    else s

unfoldable pub scroll_up : Screen → ℕ → ℕ → ℕ → Bool → Screen
scroll_up s top bottom n to_history =
    let k = min n (bottom + 1 - top) in
    let s' = scroll_out s top k to_history in
    if k == 0 then s else set_buf s' (rotate_up (buf s') top bottom k (blank s'))

unfoldable pub scroll_down : Screen → ℕ → ℕ → ℕ → Screen
scroll_down s top bottom n =
    let k = min n (bottom + 1 - top) in
    if k == 0 then s else set_buf s (rotate_down (buf s) top bottom k (blank s))

unfoldable pub index : Screen → Screen
index s =
    if s.cy == s.bottom
    then scroll_up s s.top s.bottom 1 true
    else if ltb (s.cy + 1) s.rows
    then record s { cy = s.cy + 1 }
    else s

unfoldable pub reverse_index : Screen → Screen
reverse_index s =
    if s.cy == s.top
    then scroll_down s s.top s.bottom 1
    else if ltb 0 s.cy
    then record s { cy = s.cy - 1 }
    else s

abbrev pub can_scroll_on_clear : Screen → Bool
can_scroll_on_clear s = not s.alt_active && ltb 0 s.hist.limit

-- One more than the index of the last used row, 0 without one; `i` is the index of the first row.
pub last_used : List Line → ℕ → ℕ → ℕ
last_used [] i last = last
last_used (l ∷ ls) i last = last_used ls (i + 1) (if l.used then i + 1 else last)

unfoldable pub clear_to_history : Screen → Screen
clear_to_history s =
    record (erase_lines (push_lines s (take (last_used (buf s) 0 0) (buf s))) 0 s.rows) {
      hscrolled = 0;
    }

-- The cases of `eraseDisplay` that end in `s.pendingWrap = false`.
abbrev pub unwrapped : Screen → Screen
unwrapped s = record s { pending_wrap = false }

unfoldable pub erase_display : Screen → ℕ → Screen
erase_display s mode =
    if mode == 0
    then unwrapped (
        if s.cx == 0 && s.cy == 0 && can_scroll_on_clear s
        then clear_to_history s
        else erase_lines (erase_cells s s.cy s.cx s.cols) (s.cy + 1) (s.rows - (s.cy + 1)))
    else if mode == 1
    then unwrapped (erase_cells (erase_lines s 0 s.cy) s.cy 0 (s.cx + 1))
    else if mode == 2
    then unwrapped (if can_scroll_on_clear s then clear_to_history s else erase_lines s 0 s.rows)
    else if mode == 3
    then record s { hist = clear s.hist; hscrolled = 0 }
    else s

-- `eraseInLine` of internal/vt/csi.go.
unfoldable pub erase_in_line : Screen → ℕ → Screen
erase_in_line s mode =
    if mode == 0
    then unwrapped (erase_cells s s.cy s.cx s.cols)
    else if mode == 1
    then unwrapped (erase_cells s s.cy 0 (s.cx + 1))
    else if mode == 2
    then unwrapped (erase_cells s s.cy 0 s.cols)
    else s

-- The last row that `insertLines` and `deleteLines` of internal/vt/csi.go shift.
abbrev pub shift_bottom : Screen → ℕ
shift_bottom s = if ltb s.cy s.top || ltb s.bottom s.cy then s.rows - 1 else s.bottom

unfoldable pub insert_lines : Screen → ℕ → Screen
insert_lines s n = unwrapped (scroll_down s s.cy (shift_bottom s) n)

unfoldable pub delete_lines : Screen → ℕ → Screen
delete_lines s n = unwrapped (scroll_up s s.cy (shift_bottom s) n false)
