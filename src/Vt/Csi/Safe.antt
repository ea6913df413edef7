-- ===== src/Vt/Csi/Safe.antt =====
-- The modes and the alternate screen keep the screen well formed.
use pairmux.Prelude.{
  ℕ, ◌≡◌, refl, List, [], ◌∷◌, ◌++◌, Option, none, some, Bool, true, false, ◌&&◌, ◌||◌, ◌==◌,
  if◌then◌else◌, arith, if_intro,
}
use pairmux.Vt.Cell.{Attr, Line}
use pairmux.Vt.Csi.{
  set_dec_mode, switch_for, alt_screen, set_modes, flush_modes, split_modes, decset, modes_of,
  any_filtered,
}
use pairmux.Vt.Cursor.{clear_buffer}
use pairmux.Vt.Cursor.Safe.{
  move_to_origin-IsScreen, save_cursor-IsScreen, restore_cursor-IsScreen, switch_buffer-IsScreen,
  clear_buffer-IsBuffer,
}
use pairmux.Vt.Params.{Params}
use pairmux.Vt.State.{Screen, Modes}
use pairmux.Vt.Wf.{IsScreen, IsBuffer, if-IsScreen}

-- The screen of a handler's result is well formed.
abbrev pub IsHandled : Screen × Bool → Type 0
IsHandled r = IsScreen r.0

pub if-IsHandled :
    (b : Bool) (p q : Screen × Bool)
    → (b ≡ true → IsHandled p)
    → (b ≡ false → IsHandled q)
    → IsHandled (if b then p else q)
if-IsHandled = if_intro IsHandled

-- What is written out, the title, the pen and the cursor's style play no part.
pub written-IsScreen :
    (s : Screen) (pen : Attr) (out reply title : List ℕ) (style : ℕ)
    → IsScreen s
    → IsScreen
        (record s { pen = pen; out = out; reply = reply; title = title; cursor_style = style })
written-IsScreen s pen out reply title style w = record {
  grid = w.grid;
  cursor = w.cursor;
  charset = w.charset;
  memory = w.memory;
}

pub out-IsScreen : (s : Screen) (b : List ℕ) → IsScreen s → IsScreen (record s { out = b })
out-IsScreen s b = written-IsScreen s _ b _ _ _

pub reply-IsScreen : (s : Screen) (b : List ℕ) → IsScreen s → IsScreen (record s { reply = b })
reply-IsScreen s b = written-IsScreen s _ _ b _ _

-- Any change of the modes that leaves autowrap alone.
pub modes-IsScreen :
    (s : Screen) (m : Modes)
    → IsScreen s
    → m.autowrap ≡ (s.modes).autowrap
    → IsScreen (record s { modes = m })
modes-IsScreen s m w same = record {
  grid = w.grid;
  cursor = ground arith;
  charset = w.charset;
  memory = w.memory;
}

autowrap-IsScreen :
    (s : Screen) (on : Bool)
    → IsScreen s
    → IsScreen (record s {
      modes = record (s.modes) { autowrap = on };
      pending_wrap = if on then s.pending_wrap else false;
    })
autowrap-IsScreen s on w = record {
  grid = w.grid;
  cursor = ground arith;
  charset = w.charset;
  memory = w.memory;
}

set_dec_mode-IsScreen :
    (s : Screen) (v : ℕ) (on : Bool) → IsScreen s → IsScreen (set_dec_mode s v on)
unfolding set_dec_mode
set_dec_mode-IsScreen s v on w =
    let keep : (m : Modes) → m.autowrap ≡ (s.modes).autowrap → IsScreen (record s { modes = m }) =
      λ m. modes-IsScreen s m w in
    if-IsScreen (v == 1) _ _ (λ _. keep _ refl)
      λ _.
        if-IsScreen (v == 6) _ _ (λ _. move_to_origin-IsScreen _ 0 0 (keep _ refl))
          λ _.
            if-IsScreen (v == 7) _ _ (λ _. autowrap-IsScreen s on w)
              λ _.
                if-IsScreen (v == 9 || v == 1000 || v == 1002 || v == 1003) _ _ (λ _. keep _ refl)
                  λ _.
                    if-IsScreen (v == 25) _ _ (λ _. keep _ refl)
                      λ _.
                        if-IsScreen (v == 66) _ _ (λ _. keep _ refl)
                          λ _.
                            if-IsScreen (v == 1004) _ _ (λ _. keep _ refl)
                              λ _.
                                if-IsScreen (v == 1005 || v == 1006 || v == 1015 || v == 1016) _ _
                                  (λ _. keep _ refl)
                                  λ _.
                                    if-IsScreen (v == 1048) _ _
                                      (λ _.
                                        if-IsScreen on _ _ (λ _. save_cursor-IsScreen s w)
                                          (λ _. restore_cursor-IsScreen s w))
                                      λ _. if-IsScreen (v == 2004) _ _ (λ _. keep _ refl) (λ _. w)

-- A new alternate buffer of the screen's size.
set_alt-IsScreen :
    (s : Screen) (lines : List Line)
    → IsScreen s
    → IsBuffer s.cols s.rows lines
    → IsScreen (record s { alt = lines })
set_alt-IsScreen s lines w ok = record {
  grid = record {
    cols_pos = w.grid.cols_pos;
    cols_le = w.grid.cols_le;
    rows_pos = w.grid.rows_pos;
    rows_le = w.grid.rows_le;
    main_ok = w.grid.main_ok;
    alt_ok = ok;
    tabs_ok = w.grid.tabs_ok;
    ring = w.grid.ring;
  };
  cursor = w.cursor;
  charset = w.charset;
  memory = w.memory;
}

cleared-IsBuffer : (s : Screen) → IsScreen s → IsBuffer s.cols s.rows (clear_buffer s s.alt)
cleared-IsBuffer s w = clear_buffer-IsBuffer s s.cols s.rows s.alt w.grid.alt_ok

-- Leaving the alternate screen clears it, if it is active.
left_alt-IsScreen :
    (s : Screen)
    → IsScreen s
    → IsScreen (record s { alt = if s.alt_active then clear_buffer s s.alt else s.alt })
left_alt-IsScreen s w = set_alt-IsScreen s _ w (
    if_intro (IsBuffer s.cols s.rows) s.alt_active _ _ (λ _. cleared-IsBuffer s w)
      (λ _. w.grid.alt_ok))

switch_for-IsHandled : (s : Screen) (v : ℕ) (on : Bool) → IsScreen s → IsHandled (switch_for s v on)
unfolding switch_for
switch_for-IsHandled s v on w =
    let saved = save_cursor-IsScreen s w in
    if-IsHandled (v == 47) _ _ (λ _. switch_buffer-IsScreen s on w)
      λ _.
        if-IsHandled ((v == 1047) && on) _ _ (λ _. switch_buffer-IsScreen s true w)
          λ _.
            if-IsHandled (v == 1047) _ _
              (λ _. switch_buffer-IsScreen _ false (left_alt-IsScreen s w))
              λ _.
                if-IsHandled ((v == 1049) && on) _ _
                  (λ _.
                    if-IsHandled s.alt_active _ _ (λ _. saved)
                      (λ _.
                        switch_buffer-IsScreen _ true
                          (set_alt-IsScreen _ _ saved (cleared-IsBuffer _ saved))))
                  λ _.
                    if-IsHandled (v == 1049) _ _
                      (λ _. restore_cursor-IsScreen _ (switch_buffer-IsScreen s false w)) (λ _. w)

alt_screen-IsScreen : (s : Screen) (v : ℕ) (on : Bool) → IsScreen s → IsScreen (alt_screen s v on)
unfolding alt_screen
alt_screen-IsScreen s v on w =
    let h = switch_for-IsHandled s v on w in
    if-IsScreen (switch_for s v on).1 _ _ (λ _. out-IsScreen _ _ h) (λ _. h)

set_modes-IsScreen :
    (s : Screen) (ms : List (Option ℕ)) (on : Bool) → IsScreen s → IsScreen (set_modes s ms on)
unfolding set_modes
set_modes-IsScreen s [] on w = w
set_modes-IsScreen s (none ∷ ms) on w = set_modes-IsScreen s ms on w
set_modes-IsScreen s (some v ∷ ms) on w =
    set_modes-IsScreen (set_dec_mode s v on) ms on (set_dec_mode-IsScreen s v on w)

flush_modes-IsScreen :
    (s : Screen) (keep : List ℕ) (on : Bool) → IsScreen s → IsScreen (flush_modes s keep on)
unfolding flush_modes
flush_modes-IsScreen s [] on w = w
flush_modes-IsScreen s (v ∷ vs) on w = out-IsScreen s _ w

split_modes-IsScreen :
    (s : Screen) (keep : List ℕ) (ms : List (Option ℕ)) (on : Bool)
    → IsScreen s
    → IsScreen (split_modes s keep ms on)
unfolding split_modes
split_modes-IsScreen s keep [] on w = flush_modes-IsScreen s keep on w
split_modes-IsScreen s keep (none ∷ ms) on w = split_modes-IsScreen s keep ms on w
split_modes-IsScreen s keep (some v ∷ ms) on w =
    if-IsScreen (v == 3 || v == 9001) _ _ (λ _. split_modes-IsScreen s keep ms on w)
      λ _.
        if-IsScreen (v == 47 || v == 1047 || v == 1049) _ _
          (λ _.
            split_modes-IsScreen (alt_screen (flush_modes s keep on) v on) [] ms on
              (alt_screen-IsScreen _ v on (flush_modes-IsScreen s keep on w)))
          (λ _.
            split_modes-IsScreen (set_dec_mode s v on) (keep ++ (v ∷ [])) ms on
              (set_dec_mode-IsScreen s v on w))

-- Any DECSET or DECRST sequence on a well-formed screen, alternate screen switches among its modes
-- included, leaves a well-formed screen.
pub decset-IsHandled :
    (s : Screen) (p : Params) (on : Bool) → IsScreen s → IsHandled (decset s p on)
unfolding decset
decset-IsHandled s p on w =
    if-IsHandled (any_filtered (modes_of p)) _ _ (λ _. split_modes-IsScreen s [] (modes_of p) on w)
      (λ _. set_modes-IsScreen s (modes_of p) on w)
