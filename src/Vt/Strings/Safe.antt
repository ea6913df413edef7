-- ===== src/Vt/Strings/Safe.antt =====
-- String sequences keep the screen well formed.
use pairmux.Prelude.{
  ℕ, ◌+◌, List, [], Option, none, some, Bool, true, not, ◌||◌, leb, ◌==◌, within, length, get_or,
  drop,
}
use pairmux.Vt.Csi.Safe.{IsHandled, if-IsHandled, written-IsScreen, reply-IsScreen}
use pairmux.Vt.State.{Screen}
use pairmux.Vt.Dispatch.{span_length}
use pairmux.Vt.Strings.{cut_at, parse_number, osc_number, osc, dcs}
use pairmux.Vt.Wf.{IsScreen}

osc_number-IsHandled :
    (s : Screen) (num : ℕ) (rest : List ℕ) (st : Bool)
    → IsScreen s
    → IsHandled (osc_number s num rest st)
unfolding osc_number
osc_number-IsHandled s num rest st w =
    if-IsHandled (num == 0 || num == 2) _ _ (λ _. written-IsScreen s _ _ _ _ _ w)
      λ _.
        if-IsHandled (num == 4) _ _ (λ _. w)
          λ _.
            if-IsHandled (within 10 19 num) _ _ (λ _. reply-IsScreen s _ w)
              λ _. if-IsHandled (num == 52) _ _ (λ _. w) (λ _. w)

-- A string without a number is passed on.
parsed-IsHandled :
    (s : Screen) (rest : List ℕ) (st : Bool) (o : Option ℕ)
    → IsScreen s
    → IsHandled (elim o [ none ↦ (s, true) | some n ↦ osc_number s n rest st ])
parsed-IsHandled s rest st none w = w
parsed-IsHandled s rest st (some n) w = osc_number-IsHandled s n rest st w

pub osc-IsHandled :
    (s : Screen) (payload : List ℕ) (st : Bool) → IsScreen s → IsHandled (osc s payload st)
unfolding osc
osc-IsHandled s payload st w =
    parsed-IsHandled s (elim (cut_at b';' payload).1 [ none ↦ [] | some r ↦ r ]) st
      (parse_number (cut_at b';' payload).0) w

pub dcs-IsHandled : (s : Screen) (payload : List ℕ) → IsScreen s → IsHandled (dcs s payload)
unfolding dcs
dcs-IsHandled s payload w =
    let k = span_length (λ c. within 0x30 0x3F c) payload in
    let inter = span_length (λ c. within 0x20 0x2F c) (drop k payload) in
    let j = k + inter in
    let mark = get_or payload k 0 in
    if-IsHandled
      (leb (length payload) j
        || not (k == 0)
        || not (inter == 1)
        || not (get_or payload j 0 == b'q'))
      _ _ (λ _. w)
      λ _.
        if-IsHandled (mark == b'$') _ _ (λ _. reply-IsScreen s _ w)
          λ _. if-IsHandled (mark == b'+') _ _ (λ _. reply-IsScreen s _ w) (λ _. w)
