-- ===== src/Vt/Dispatch.antt =====
-- `dispatchCSI` of internal/vt/csi.go and the functions that it dispatches to.
pub mod Safe
pub mod Tried
use pairmux.Prelude.{
  ℕ, zero, suc, ◌+◌, ◌-◌, ◌≤◌, List, [], ◌∷◌, ◌++◌, Option, none, some, Bool, true, false, not,
  ◌&&◌, ◌||◌, ltb, leb, ◌==◌, within, if◌then◌else◌, length, get_or, set, replicate, take, drop,
}
unfoldable pub use pairmux.Bytes.{span_length, all_bytes}
use pairmux.Vt.Csi.{
  answer, cpr, window_op, report_mode, decset, repeat_glyph, set_region, set_insert, status_report,
  modes_of, da1_reply, da2_reply, xt_version_reply,
}
use pairmux.Vt.Cursor.{
  move_to, move_to_origin, cursor_up, cursor_down, tab_forward, tab_backward, save_cursor,
  restore_cursor, soft_reset,
}
use pairmux.Vt.Params.{Params, arg, count, parse}
use pairmux.Vt.Row
use pairmux.Vt.Scroll.{
  erase_cells, erase_display, erase_in_line, insert_lines, delete_lines, scroll_up, scroll_down,
  unwrapped,
}
use pairmux.Vt.Sgr.{sgr}
use pairmux.Vt.State.{Screen, Modes, line_at, set_cells, blank, reset_tabs}
use pairmux.Vt.Text.{is_empty}

-- TBC
unfoldable pub clear_tabs : Screen → ℕ → Screen
clear_tabs s n =
    if n == 0
    then record s { tabs = set s.tabs s.cx false }
    else if n == 3
    then record s { tabs = replicate (length s.tabs) false }
    else s

-- ICH
unfoldable pub insert_blanks : Screen → ℕ → Screen
insert_blanks s n =
    unwrapped (set_cells s s.cy (Row.insert_cells (line_at s s.cy).cells (blank s) s.cx n))

-- DCH
unfoldable pub delete_chars : Screen → ℕ → Screen
delete_chars s n =
    unwrapped (set_cells s s.cy (Row.delete_cells (line_at s s.cy).cells (blank s) s.cx n))

-- The cases of `csiPlain` that move the cursor; `none` if `final` is another.
unfoldable pub csi_move : Screen → ℕ → Params → Option Screen
csi_move s final p =
    let n = count p 0 in
    if final == b'A'
    then some (cursor_up s n)
    else if final == b'B' || final == b'e'
    then some (cursor_down s n)
    else if final == b'C' || final == b'a'
    then some (move_to s (s.cx + n) s.cy)
    else if final == b'D'
    then some (move_to s (s.cx - n) s.cy)
    else if final == b'E'
    then some (record (cursor_down s n) { cx = 0 })
    else if final == b'F'
    then some (record (cursor_up s n) { cx = 0 })
    else if final == b'G' || final == b'`'
    then some (move_to s (n - 1) s.cy)
    else if final == b'H' || final == b'f'
    then some (move_to_origin s (count p 1 - 1) (n - 1))
    else if final == b'd'
    then some
        (if (s.modes).origin_mode then move_to_origin s s.cx (n - 1) else move_to s s.cx (n - 1))
    else if final == b'I'
    then some (tab_forward s n)
    else if final == b'Z'
    then some (tab_backward s n)
    else none

-- The cases that erase, shift and scroll.
unfoldable pub csi_edit : Screen → ℕ → Params → Option Screen
unfolding insert_blanks delete_chars
csi_edit s final p =
    let n = count p 0 in
    if final == b'J'
    then some (erase_display s (arg p 0 0))
    else if final == b'K'
    then some (erase_in_line s (arg p 0 0))
    else if final == b'@'
    then some (insert_blanks s n)
    else if final == b'P'
    then some (delete_chars s n)
    else if final == b'X'
    then some (erase_cells (unwrapped s) s.cy s.cx (s.cx + n))
    else if final == b'L'
    then some (insert_lines s n)
    else if final == b'M'
    then some (delete_lines s n)
    else if final == b'S'
    then some (scroll_up s s.top s.bottom n true)
    else if final == b'T'
    then some (if leb (length p.top) 1 then scroll_down s s.top s.bottom n else s)
    else if final == b'b'
    then some (if s.last_rune == 0 then s else repeat_glyph n s s.last_rune s.last_width)
    else none

-- The cases that set a state and are forwarded.
unfoldable pub csi_set : Screen → ℕ → Params → Option Screen
unfolding clear_tabs
csi_set s final p =
    if final == b'r'
    then some (set_region s p)
    else if final == b's'
    then some (if length p.v == 0 then save_cursor s else s)
    else if final == b'u'
    then some (if length p.v == 0 then restore_cursor s else s)
    else if final == b'g'
    then some (clear_tabs s (arg p 0 0))
    else if final == b'm'
    then some (record s { pen = sgr p s.pen })
    else if final == b'h' || final == b'l'
    then some (set_insert s (modes_of p) (final == b'h'))
    else none

-- The queries of `csiPlain`, and the forwarding of what it does not know.
unfoldable pub csi_query : Screen → ℕ → Params → Screen × Bool
csi_query s final p =
    if final == b'n'
    then (status_report s (arg p 0 0), false)
    else if final == b'c'
    then (if arg p 0 0 == 0 then answer s da1_reply else s, false)
    else if final == b't'
    then window_op s p
    else (s, not (final == b'x'))

-- The first function that knows the sequence handles and forwards it.
abbrev pub or_else : Option Screen → Screen × Bool → Screen × Bool
or_else none other = other
or_else (some s) other = (s, true)

unfoldable pub csi_plain : Screen → ℕ → Params → Screen × Bool
unfolding csi_move csi_edit csi_set csi_query
csi_plain s final p =
    or_else (csi_move s final p)
      (or_else (csi_edit s final p) (or_else (csi_set s final p) (csi_query s final p)))

-- `csiPrivate`
unfoldable pub csi_private : Screen → ℕ → Params → Screen × Bool
csi_private s final p =
    if final == b'h' || final == b'l'
    then decset s p (final == b'h')
    else if final == b'J'
    then (erase_display s (arg p 0 0), true)
    else if final == b'K'
    then (erase_in_line s (arg p 0 0), true)
    else if final == b'n'
    then (if arg p 0 0 == 6 then answer s (cpr s true) else s, false)
    else if final == b'u' || final == b'S' || final == b'm' || final == b'c'
    then (s, false)
    else if final == b'W'
    then (if arg p 0 0 == 5 then reset_tabs s else s, true)
    else (s, true)

-- `csiOtherPrivate`
unfoldable pub csi_other_private : Screen → ℕ → ℕ → Params → Screen × Bool
csi_other_private s priv final p =
    let first = (priv == b'>') && (arg p 0 0 == 0) in
    if final == b'c'
    then (if first then answer s da2_reply else s, false)
    else if final == b'q'
    then (if first then (answer s xt_version_reply, false) else (s, true))
    else (s, not (final == b'u'))

-- `csiIntermediate`
unfoldable pub csi_intermediate : Screen → ℕ → ℕ → ℕ → Params → Screen × Bool
csi_intermediate s priv im final p =
    if (im == b' ') && (final == b'q') && (priv == 0)
    then (if leb (arg p 0 0) 6 then record s { cursor_style = arg p 0 0 } else s, true)
    else if (im == b'$') && (final == b'p') && (priv == 0 || priv == b'?')
    then (report_mode s (priv == b'?') (arg p 0 0), false)
    else if (im == b'!') && (final == b'p') && (priv == 0)
    then (soft_reset s, true)
    else (s, true)

-- The index of the first byte that the test refuses.
-- The switch at the end of `dispatchCSI`.
unfoldable pub csi_route : Screen → ℕ → List ℕ → ℕ → Params → Screen × Bool
csi_route s priv inter final p =
    let im = get_or inter 0 0 in
    if ltb 1 (length inter)
    then (s, true)
    else if (im == 0) && (priv == 0)
    then csi_plain s final p
    else if (im == 0) && (priv == b'?')
    then csi_private s final p
    else if im == 0
    then csi_other_private s priv final p
    else csi_intermediate s priv im final p

abbrev pub route_params : Screen → ℕ → List ℕ → ℕ → Option Params → Screen × Bool
route_params s priv inter final none = (s, true)
route_params s priv inter final (some p) = csi_route s priv inter final p

-- The bytes between the private marker and the final byte.
unfoldable pub csi_body : Screen → ℕ → List ℕ → ℕ → Screen × Bool
unfolding span_length all_bytes csi_route
csi_body s priv body final =
    let k = span_length (λ c. within 0x30 0x3F c || c == 0x7F) body in
    let inter = drop k body in
    if all_bytes (λ c. within 0x20 0x2F c || c == 0x7F) inter
    then route_params s priv inter final (parse (take k body))
    else (s, true)

-- `dispatchCSI` on the buffered sequence `ESC [ … final`.
unfoldable pub dispatch_csi : Screen → List ℕ → Screen × Bool
unfolding csi_body
dispatch_csi s seq =
    let body = drop 2 seq in
    let last = length body - 1 in
    let final = get_or body last 0 in
    let inner = take last body in
    let priv = get_or inner 0 0 in
    if within b'<' b'?' priv then csi_body s priv (drop 1 inner) final else csi_body s 0 inner final
