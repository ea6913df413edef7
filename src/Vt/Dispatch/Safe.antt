-- ===== src/Vt/Dispatch/Safe.antt =====
-- Every CSI sequence keeps the screen well formed.
use pairmux.Prelude.{
  ℕ, ◌-◌, List, Option, none, some, ◌&&◌, ◌||◌, ltb, leb, ◌==◌, within, length, get_or, take, drop,
  length-tabulate,
}
use pairmux.Vt.Csi.Safe.{
  IsHandled, if-IsHandled, written-IsScreen, reply-IsScreen, decset-IsHandled,
}
use pairmux.Vt.Csi.Others.{status_report-IsScreen, window_op-IsHandled, report_mode-IsScreen}
use pairmux.Vt.Cursor.Safe.{soft_reset-IsScreen}
use pairmux.Vt.Dispatch.{
  csi_move, csi_edit, csi_set, csi_query, csi_plain, csi_private, csi_other_private,
  csi_intermediate, csi_route, route_params, csi_body, dispatch_csi, span_length, all_bytes,
}
use pairmux.Vt.Params.{Params, arg, parse}
use pairmux.Vt.Scroll.Safe.{erase_display-IsScreen, erase_in_line-IsScreen}
use pairmux.Vt.State.{Screen}
use pairmux.Vt.Wf.{IsScreen, if-IsScreen}
use pairmux.Vt.Dispatch.Tried.{
  tabs-IsScreen, or_else-IsHandled, csi_move-IsTried, csi_edit-IsTried, csi_set-IsTried,
}

csi_query-IsHandled :
    (s : Screen) (final : ℕ) (p : Params) → IsScreen s → IsHandled (csi_query s final p)
unfolding csi_query
csi_query-IsHandled s final p w =
    if-IsHandled (final == b'n') _ _ (λ _. status_report-IsScreen s _ w)
      λ _.
        if-IsHandled (final == b'c') _ _
          (λ _. if-IsScreen (arg p 0 0 == 0) _ _ (λ _. reply-IsScreen s _ w) (λ _. w))
          λ _. if-IsHandled (final == b't') _ _ (λ _. window_op-IsHandled s p w) (λ _. w)

csi_plain-IsHandled :
    (s : Screen) (final : ℕ) (p : Params) → IsScreen s → IsHandled (csi_plain s final p)
unfolding csi_plain
csi_plain-IsHandled s final p w =
    or_else-IsHandled (csi_move s final p) _ (csi_move-IsTried s final p w) (
      or_else-IsHandled (csi_edit s final p) _ (csi_edit-IsTried s final p w) (
        or_else-IsHandled (csi_set s final p) _ (csi_set-IsTried s final p w)
          (csi_query-IsHandled s final p w)))

csi_private-IsHandled :
    (s : Screen) (final : ℕ) (p : Params) → IsScreen s → IsHandled (csi_private s final p)
unfolding csi_private
csi_private-IsHandled s final p w =
    if-IsHandled (final == b'h' || final == b'l') _ _ (λ _. decset-IsHandled s p _ w)
      λ _.
        if-IsHandled (final == b'J') _ _ (λ _. erase_display-IsScreen s _ w)
          λ _.
            if-IsHandled (final == b'K') _ _ (λ _. erase_in_line-IsScreen s _ w)
              λ _.
                if-IsHandled (final == b'n') _ _
                  (λ _. if-IsScreen (arg p 0 0 == 6) _ _ (λ _. reply-IsScreen s _ w) (λ _. w))
                  λ _.
                    if-IsHandled (final == b'u' || final == b'S' || final == b'm' || final == b'c')
                      _ _ (λ _. w)
                      λ _.
                        if-IsHandled (final == b'W') _ _
                          (λ _.
                            if-IsScreen (arg p 0 0 == 5) _ _
                              (λ _. tabs-IsScreen s _ w (length-tabulate s.cols _)) (λ _. w))
                          (λ _. w)

csi_other_private-IsHandled :
    (s : Screen) (priv final : ℕ) (p : Params)
    → IsScreen s
    → IsHandled (csi_other_private s priv final p)
unfolding csi_other_private
csi_other_private-IsHandled s priv final p w =
    let first = (priv == b'>') && (arg p 0 0 == 0) in
    if-IsHandled (final == b'c') _ _
      (λ _. if-IsScreen first _ _ (λ _. reply-IsScreen s _ w) (λ _. w))
      λ _.
        if-IsHandled (final == b'q') _ _
          (λ _. if-IsHandled first _ _ (λ _. reply-IsScreen s _ w) (λ _. w)) (λ _. w)

csi_intermediate-IsHandled :
    (s : Screen) (priv im final : ℕ) (p : Params)
    → IsScreen s
    → IsHandled (csi_intermediate s priv im final p)
unfolding csi_intermediate
csi_intermediate-IsHandled s priv im final p w =
    if-IsHandled ((im == b' ') && (final == b'q') && (priv == 0)) _ _
      (λ _. if-IsScreen (leb (arg p 0 0) 6) _ _ (λ _. written-IsScreen s _ _ _ _ _ w) (λ _. w))
      λ _.
        if-IsHandled ((im == b'$') && (final == b'p') && (priv == 0 || priv == b'?')) _ _
          (λ _. report_mode-IsScreen s _ _ w)
          λ _.
            if-IsHandled ((im == b'!') && (final == b'p') && (priv == 0)) _ _
              (λ _. soft_reset-IsScreen s w) (λ _. w)

csi_route-IsHandled :
    (s : Screen) (priv : ℕ) (inter : List ℕ) (final : ℕ) (p : Params)
    → IsScreen s
    → IsHandled (csi_route s priv inter final p)
unfolding csi_route
csi_route-IsHandled s priv inter final p w =
    let im = get_or inter 0 0 in
    if-IsHandled (ltb 1 (length inter)) _ _ (λ _. w)
      λ _.
        if-IsHandled ((im == 0) && (priv == 0)) _ _ (λ _. csi_plain-IsHandled s final p w)
          λ _.
            if-IsHandled ((im == 0) && (priv == b'?')) _ _ (λ _. csi_private-IsHandled s final p w)
              λ _.
                if-IsHandled (im == 0) _ _ (λ _. csi_other_private-IsHandled s priv final p w)
                  (λ _. csi_intermediate-IsHandled s priv im final p w)

route_params-IsHandled :
    (s : Screen) (priv : ℕ) (inter : List ℕ) (final : ℕ) (o : Option Params)
    → IsScreen s
    → IsHandled (route_params s priv inter final o)
route_params-IsHandled s priv inter final none w = w
route_params-IsHandled s priv inter final (some p) w = csi_route-IsHandled s priv inter final p w

csi_body-IsHandled :
    (s : Screen) (priv : ℕ) (body : List ℕ) (final : ℕ)
    → IsScreen s
    → IsHandled (csi_body s priv body final)
unfolding csi_body
csi_body-IsHandled s priv body final w =
    let k = span_length (λ c. within 0x30 0x3F c || c == 0x7F) body in
    if-IsHandled (all_bytes (λ c. within 0x20 0x2F c || c == 0x7F) (drop k body)) _ _
      (λ _. route_params-IsHandled s priv (drop k body) final (parse (take k body)) w) (λ _. w)

-- Any bytes dispatched as a CSI sequence on a well-formed screen leave a well-formed screen.
pub dispatch_csi-IsHandled :
    (s : Screen) (seq : List ℕ) → IsScreen s → IsHandled (dispatch_csi s seq)
unfolding dispatch_csi
dispatch_csi-IsHandled s seq w =
    let body = drop 2 seq in
    let last = length body - 1 in
    let inner = take last body in
    if-IsHandled (within b'<' b'?' (get_or inner 0 0)) _ _
      (λ _. csi_body-IsHandled s _ (drop 1 inner) _ w) (λ _. csi_body-IsHandled s 0 inner _ w)
