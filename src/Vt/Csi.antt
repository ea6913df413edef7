-- ===== src/Vt/Csi.antt =====
-- The CSI sequences of internal/vt/csi.go. Each function returns the screen and, where the source
-- does, whether the sequence is forwarded.
pub mod Others
pub mod Safe
use pairmux.Prelude.{
  ℕ, zero, suc, ◌+◌, ◌-◌, ◌*◌, ◌≤◌, List, [], ◌∷◌, ◌++◌, Option, none, some, Bool, true, false, not,
  ◌&&◌, ◌||◌, ltb, leb, ◌==◌, within, if◌then◌else◌, length, get_or, set, replicate,
}
use pairmux.Vt.Cell.{zero_attr}
use pairmux.Vt.Cursor.{
  move_to, move_to_origin, cursor_up, cursor_down, tab_forward, tab_backward, save_cursor,
  restore_cursor, switch_buffer, clear_buffer, soft_reset,
}
use pairmux.Vt.Params.{Params, arg?, arg, count, parse}
use pairmux.Vt.Print.{print_glyph}
use pairmux.Vt.Render.{render, esc, attr_eq, bool_eq}
use pairmux.Vt.Row
use pairmux.Vt.Scroll.{
  erase_cells, erase_display, erase_in_line, insert_lines, delete_lines, scroll_up, scroll_down,
  unwrapped,
}
use pairmux.Vt.Sgr.{sgr}
use pairmux.Vt.State.{Screen, Modes, line_at, set_cells, blank, reset_tabs, buf}
use pairmux.Vt.Text.{codes, decimal, is_empty}

abbrev pub answer : Screen → List ℕ → Screen
answer s b = record s { reply = s.reply ++ b }

-- `strconv.AppendInt(nil, a - b, 10)`
unfoldable decimal_diff : ℕ → ℕ → List ℕ
unfolding decimal
decimal_diff a b = if leb b a then decimal (a - b) else b'-' ∷ decimal (b - a)

-- `appendCPR`
unfoldable pub cpr : Screen → Bool → List ℕ
unfolding decimal_diff decimal
cpr s private =
    let base = if (s.modes).origin_mode then s.top else 0 in
    esc
    ∷ b'['
    ∷ ((if private then b'?' ∷ [] else [])
        ++ (decimal_diff (s.cy + 1) base ++ (b';' ∷ (decimal (s.cx + 1) ++ (b'R' ∷ [])))))

-- `appendReport`
unfoldable report : ℕ → ℕ → ℕ → List ℕ
unfolding decimal
report c a b =
    esc ∷ b'[' ∷ (decimal c ++ (b';' ∷ (decimal a ++ (b';' ∷ (decimal b ++ (b't' ∷ []))))))

-- `windowOp`
unfoldable pub window_op : Screen → Params → Screen × Bool
unfolding report
window_op s p =
    let op = arg p 0 0 in
    if op == 11
    then (answer s (esc ∷ codes "[1t"), false)
    else if op == 13
    then (answer s (esc ∷ codes "[3;0;0t"), false)
    else if op == 14
    then (answer s (report 4 (s.rows * 16) (s.cols * 8)), false)
    else if op == 15
    then (answer s (report 5 (s.rows * 16) (s.cols * 8)), false)
    else if op == 16
    then (answer s (esc ∷ codes "[6;16;8t"), false)
    else if op == 18
    then (answer s (report 8 s.rows s.cols), false)
    else if op == 19
    then (answer s (report 9 s.rows s.cols), false)
    else (s, op == 22 || op == 23)

-- The value that DECRQM reports for a mode that is known.
abbrev set_value : Bool → ℕ
set_value v = if v then 1 else 2

unfoldable private_mode_value : Screen → ℕ → ℕ
private_mode_value s mode =
    let m = s.modes in
    if mode == 1
    then set_value m.app_cursor
    else if mode == 6
    then set_value m.origin_mode
    else if mode == 7
    then set_value m.autowrap
    else if mode == 9 || mode == 1000 || mode == 1002 || mode == 1003
    then set_value (m.mouse_tracking == mode)
    else if mode == 25
    then set_value m.cursor_visible
    else if mode == 47 || mode == 1047 || mode == 1049
    then set_value s.alt_active
    else if mode == 66
    then set_value m.app_keypad
    else if mode == 1004
    then set_value m.focus_events
    else if mode == 1005 || mode == 1006 || mode == 1015 || mode == 1016
    then set_value (m.mouse_encoding == mode)
    else if mode == 2004
    then set_value m.bracketed_paste
    else 0

-- `reportMode`
unfoldable pub report_mode : Screen → Bool → ℕ → Screen
unfolding private_mode_value decimal
report_mode s private mode =
    let pm =
      if private
      then private_mode_value s mode
      else if mode == 4
      then set_value (s.modes).insert
      else 0 in
    answer s (
      esc
      ∷ b'['
      ∷ ((if private then b'?' ∷ [] else [])
          ++ (decimal mode ++ (b';' ∷ (decimal pm ++ codes "$y")))))

-- `setDECMode`; an omitted mode, -1, is none of the cases.
unfoldable pub set_dec_mode : Screen → ℕ → Bool → Screen
set_dec_mode s v on =
    let m = s.modes in
    if v == 1
    then record s { modes = record m { app_cursor = on } }
    else if v == 6
    then move_to_origin (record s { modes = record m { origin_mode = on } }) 0 0
    else if v == 7
    then record s {
      modes = record m { autowrap = on };
      pending_wrap = if on then s.pending_wrap else false;
    }
    else if v == 9 || v == 1000 || v == 1002 || v == 1003
    then record s { modes = record m { mouse_tracking = if on then v else 0 } }
    else if v == 25
    then record s { modes = record m { cursor_visible = on } }
    else if v == 66
    then record s { modes = record m { app_keypad = on } }
    else if v == 1004
    then record s { modes = record m { focus_events = on } }
    else if v == 1005 || v == 1006 || v == 1015 || v == 1016
    then record s { modes = record m { mouse_encoding = if on then v else 0 } }
    else if v == 1048
    then (if on then save_cursor s else restore_cursor s)
    else if v == 2004
    then record s { modes = record m { bracketed_paste = on } }
    else s

-- `isFilteredDECMode`
abbrev is_filtered : ℕ → Bool
is_filtered v = v == 3 || v == 47 || v == 1047 || v == 1049 || v == 9001

unfoldable sets_eq : List ℕ → List ℕ → Bool
sets_eq [] [] = true
sets_eq (a ∷ xs) (b ∷ ys) = (a == b) && sets_eq xs ys
sets_eq _ _ = false

-- `s.cursorState() == before`
unfoldable same_cursor : Screen → Screen → Bool
unfolding attr_eq sets_eq
same_cursor s t =
    (s.cx == t.cx)
    && (s.cy == t.cy)
    && bool_eq s.pending_wrap t.pending_wrap
    && attr_eq s.pen t.pen
    && bool_eq (s.modes).origin_mode (t.modes).origin_mode
    && sets_eq s.g t.g
    && (s.gl == t.gl)

-- A switch with whether it needs a repaint, by mode.
unfoldable pub switch_for : Screen → ℕ → Bool → Screen × Bool
unfolding same_cursor
switch_for s v on =
    let saved = save_cursor s in
    let cleared = record s { alt = if s.alt_active then clear_buffer s s.alt else s.alt } in
    let on_main = switch_buffer s false in
    let restored = restore_cursor on_main.0 in
    if v == 47
    then switch_buffer s on
    else if (v == 1047) && on
    then switch_buffer s true
    else if v == 1047
    then switch_buffer cleared false
    else if (v == 1049) && on
    then (if s.alt_active
        then (saved, false)
        else switch_buffer (record saved { alt = clear_buffer saved saved.alt }) true)
    else if v == 1049
    then (restored, on_main.1 || not (same_cursor restored s))
    else (s, false)

-- `altScreen`
unfoldable pub alt_screen : Screen → ℕ → Bool → Screen
unfolding switch_for
alt_screen s v on =
    let (t, changed) = switch_for s v on in
    if changed then record t { out = t.out ++ render t } else t

-- The modes of a `decset` sequence in order; an omitted one is `none`.
unfoldable pub modes_from : Params → ℕ → ℕ → List (Option ℕ)
modes_from p i zero = []
modes_from p i (suc left) = arg? p i ∷ modes_from p (i + 1) left

abbrev pub modes_of : Params → List (Option ℕ)
modes_of p = modes_from p 0 (length p.top)

unfoldable pub any_filtered : List (Option ℕ) → Bool
any_filtered [] = false
any_filtered (none ∷ ms) = any_filtered ms
any_filtered (some v ∷ ms) = is_filtered v || any_filtered ms

unfoldable pub set_modes : Screen → List (Option ℕ) → Bool → Screen
unfolding set_dec_mode
set_modes s [] on = s
set_modes s (none ∷ ms) on = set_modes s ms on
set_modes s (some v ∷ ms) on = set_modes (set_dec_mode s v on) ms on

unfoldable join_modes : List ℕ → List ℕ
unfolding decimal
join_modes [] = []
join_modes (v ∷ []) = decimal v
join_modes (v ∷ w ∷ ws) = decimal v ++ (b';' ∷ join_modes (w ∷ ws))

-- The closure `flush` of `decset`, over the modes kept since the last one.
unfoldable pub flush_modes : Screen → List ℕ → Bool → Screen
unfolding join_modes
flush_modes s [] on = s
flush_modes s (v ∷ vs) on = record s {
  out = s.out ++ (esc ∷ b'[' ∷ b'?' ∷ (join_modes (v ∷ vs) ++ ((if on then b'h' else b'l') ∷ [])));
}

-- The second loop of `decset`, which splits the sequence at the filtered modes.
unfoldable pub split_modes : Screen → List ℕ → List (Option ℕ) → Bool → Screen
unfolding flush_modes set_dec_mode alt_screen
split_modes s keep [] on = flush_modes s keep on
split_modes s keep (none ∷ ms) on = split_modes s keep ms on
split_modes s keep (some v ∷ ms) on =
    let dropped = split_modes s keep ms on in
    let switched = split_modes (alt_screen (flush_modes s keep on) v on) [] ms on in
    let passed = split_modes (set_dec_mode s v on) (keep ++ (v ∷ [])) ms on in
    if v == 3 || v == 9001
    then dropped
    else if v == 47 || v == 1047 || v == 1049
    then switched
    else passed

unfoldable pub decset : Screen → Params → Bool → Screen × Bool
unfolding modes_from any_filtered set_modes split_modes
decset s p on =
    if any_filtered (modes_of p)
    then (split_modes s [] (modes_of p) on, false)
    else (set_modes s (modes_of p) on, true)

-- The loop of REP.
unfoldable pub repeat_glyph : ℕ → Screen → ℕ → ℕ → Screen
repeat_glyph zero s r w = s
repeat_glyph (suc n) s r w = repeat_glyph n (print_glyph s r w) r w

-- DECSTBM
unfoldable pub set_region : Screen → Params → Screen
set_region s p =
    let top = count p 0 - 1 in
    let last = arg p 1 0 in
    let bottom = if last == 0 || leb s.rows (last - 1) then s.rows - 1 else last - 1 in
    if ltb top bottom then move_to_origin (record s { top = top; bottom = bottom }) 0 0 else s

-- SM and RM: only IRM is known.
unfoldable pub set_insert : Screen → List (Option ℕ) → Bool → Screen
set_insert s [] on = s
set_insert s (none ∷ ms) on = set_insert s ms on
set_insert s (some v ∷ ms) on =
    set_insert (if v == 4 then record s { modes = record (s.modes) { insert = on } } else s) ms on

-- DSR
unfoldable pub status_report : Screen → ℕ → Screen
unfolding cpr
status_report s n =
    if n == 5 then answer s (esc ∷ codes "[0n") else if n == 6 then answer s (cpr s false) else s

abbrev pub da1_reply : List ℕ
da1_reply = esc ∷ codes "[?1;2c"

abbrev pub da2_reply : List ℕ
da2_reply = esc ∷ codes "[>0;10;1c"

abbrev pub xt_version_reply : List ℕ
xt_version_reply = esc ∷ codes "P>|pairmux" ++ (esc ∷ codes "\\")
