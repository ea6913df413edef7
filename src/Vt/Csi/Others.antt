-- ===== src/Vt/Csi/Others.antt =====
-- REP, the scroll region, IRM and the reports keep the screen well formed.
use pairmux.Prelude.{
  ℕ, zero, suc, ◌-◌, ◌<◌, ◌≡◌, refl, ◌⊎◌, List, [], ◌∷◌, Option, none, some, Bool, false, ◌||◌, ltb,
  leb, ◌==◌, if◌then◌else◌, arith,
}
use pairmux.Vt.Csi.{window_op, report_mode, repeat_glyph, set_region, set_insert, status_report}
use pairmux.Vt.Cursor.Safe.{move_to_origin-IsScreen}
use pairmux.Vt.Params.{Params, arg, count}
use pairmux.Vt.Print.Safe.{print_glyph-IsScreen}
use pairmux.Vt.State.{Screen}
use pairmux.Vt.Wf.{IsScreen, IsMemory, if-IsScreen}
use pairmux.Vt.Csi.Safe.{IsHandled, if-IsHandled, reply-IsScreen, modes-IsScreen}

repeat_glyph-IsScreen :
    (n : ℕ) (s : Screen) (r w : ℕ)
    → IsScreen s
    → (w ≡ 1) ⊎ (w ≡ 2)
    → IsScreen (repeat_glyph n s r w)
unfolding repeat_glyph
repeat_glyph-IsScreen zero s r w v one_or_two = v
repeat_glyph-IsScreen (suc n) s r w v one_or_two =
    repeat_glyph-IsScreen n _ r w (print_glyph-IsScreen s r w v one_or_two) one_or_two

remembered : (r w : ℕ) → IsMemory r w → (r == 0) ≡ false → (w ≡ 1) ⊎ (w ≡ 2)
remembered r w m ne = ground arith

-- REP repeats only a glyph that the screen remembers.
pub rep-IsScreen :
    (n : ℕ) (s : Screen)
    → IsScreen s
    → IsScreen (if s.last_rune == 0 then s else repeat_glyph n s s.last_rune s.last_width)
rep-IsScreen n s w =
    if-IsScreen (s.last_rune == 0) _ _ (λ _. w)
      (λ e. repeat_glyph-IsScreen n s _ _ w (remembered _ _ w.memory e))

region-IsScreen :
    (s : Screen) (top bottom : ℕ)
    → IsScreen s
    → top < bottom
    → bottom < s.rows
    → IsScreen (record s { top = top; bottom = bottom })
region-IsScreen s top bottom w lt low = record {
  grid = w.grid;
  cursor = ground arith;
  charset = w.charset;
  memory = w.memory;
}

pub set_region-IsScreen : (s : Screen) (p : Params) → IsScreen s → IsScreen (set_region s p)
unfolding set_region
set_region-IsScreen s p w =
    let q = w.grid.rows_pos in
    let last = arg p 1 0 in
    let top = count p 0 - 1 in
    let bottom = if last == 0 || leb s.rows (last - 1) then s.rows - 1 else last - 1 in
    let low : bottom < s.rows = ground arith in
    if-IsScreen (ltb top bottom) _ _
      (λ e. move_to_origin-IsScreen _ 0 0 (region-IsScreen s top bottom w (ground arith) low))
      (λ _. w)

pub set_insert-IsScreen :
    (s : Screen) (ms : List (Option ℕ)) (on : Bool) → IsScreen s → IsScreen (set_insert s ms on)
unfolding set_insert
set_insert-IsScreen s [] on w = w
set_insert-IsScreen s (none ∷ ms) on w = set_insert-IsScreen s ms on w
set_insert-IsScreen s (some v ∷ ms) on w =
    set_insert-IsScreen
      (if v == 4 then record s { modes = record (s.modes) { insert = on } } else s) ms on
      (if-IsScreen (v == 4) _ _ (λ _. modes-IsScreen s _ w refl) (λ _. w))

pub status_report-IsScreen : (s : Screen) (n : ℕ) → IsScreen s → IsScreen (status_report s n)
unfolding status_report
status_report-IsScreen s n w =
    if-IsScreen (n == 5) _ _ (λ _. reply-IsScreen s _ w)
      λ _. if-IsScreen (n == 6) _ _ (λ _. reply-IsScreen s _ w) (λ _. w)

pub window_op-IsHandled : (s : Screen) (p : Params) → IsScreen s → IsHandled (window_op s p)
unfolding window_op
window_op-IsHandled s p w =
    let op = arg p 0 0 in
    let told : (b : List ℕ) → IsScreen (record s { reply = b }) = λ b. reply-IsScreen s b w in
    if-IsHandled (op == 11) _ _ (λ _. told _)
      λ _.
        if-IsHandled (op == 13) _ _ (λ _. told _)
          λ _.
            if-IsHandled (op == 14) _ _ (λ _. told _)
              λ _.
                if-IsHandled (op == 15) _ _ (λ _. told _)
                  λ _.
                    if-IsHandled (op == 16) _ _ (λ _. told _)
                      λ _.
                        if-IsHandled (op == 18) _ _ (λ _. told _)
                          λ _. if-IsHandled (op == 19) _ _ (λ _. told _) (λ _. w)

pub report_mode-IsScreen :
    (s : Screen) (private : Bool) (mode : ℕ) → IsScreen s → IsScreen (report_mode s private mode)
unfolding report_mode
report_mode-IsScreen s private mode w = reply-IsScreen s _ w
