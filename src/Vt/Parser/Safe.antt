-- ===== src/Vt/Parser/Safe.antt =====
-- Whatever bytes arrive, in whatever state of the parser, the screen stays well formed.
use pairmux.Prelude.{
  ℕ, ◌+◌, ◌-◌, ◌≡◌, ◌∙◌, refl, List, [], ◌∷◌, ◌++◌, Option, none, some, Bool, true, false, not,
  ◌||◌, ltb, leb, ◌==◌, within, if◌then◌else◌, if_intro, arith, length, get_or, set, take, drop,
  length-set,
}
use pairmux.Vt.Csi.Safe.{IsHandled, if-IsHandled, out-IsScreen, reply-IsScreen, modes-IsScreen}
use pairmux.Vt.Cursor.Safe.{
  backspace-IsScreen, tab_forward-IsScreen, carriage_return-IsScreen, save_cursor-IsScreen,
  restore_cursor-IsScreen, alignment_test-IsScreen, full_reset-IsScreen,
}
use pairmux.Vt.Dispatch.Safe.{dispatch_csi-IsHandled}
use pairmux.Vt.Dispatch.Tried.{tabs-IsScreen}
use pairmux.Vt.Parser.{
  Term, bel, can, sub, forward, abort_seq, control_effect, control, common_c0, esc_effect,
  esc_inter_effect, finish_seq, esc_byte, esc_inter_byte, csi_byte, string_append, string_effect,
  finish_string, string_esc_byte, string_end, max_csi, max_string,
}
use pairmux.Vt.Print.Combine.{no_memory-IsScreen}
use pairmux.Vt.Render.{esc}
use pairmux.Vt.Scroll.Safe.{index-IsScreen, reverse_index-IsScreen, unwrapped-IsScreen}
use pairmux.Vt.State.{Screen}
use pairmux.Vt.Strings.Safe.{osc-IsHandled, dcs-IsHandled}
use pairmux.Vt.Wf.{IsScreen, if-IsScreen}

-- The terminal's screen is well formed.
abbrev pub IsTerm : Term → Type 0
IsTerm t = IsScreen t.screen

abbrev pub IsStep : Term × Bool → Type 0
IsStep r = IsTerm r.0

if-IsTerm :
    (b : Bool) (t u : Term)
    → (b ≡ true → IsTerm t)
    → (b ≡ false → IsTerm u)
    → IsTerm (if b then t else u)
if-IsTerm = if_intro IsTerm

if-IsStep :
    (b : Bool) (p q : Term × Bool)
    → (b ≡ true → IsStep p)
    → (b ≡ false → IsStep q)
    → IsStep (if b then p else q)
if-IsStep = if_intro IsStep

invoked-IsScreen :
    (s : Screen) (n : ℕ)
    → IsScreen s
    → (n == 0 || n == 1 || n == 2 || n == 3) ≡ true
    → IsScreen (record s { gl = n })
invoked-IsScreen s n w small = record {
  grid = w.grid;
  cursor = w.cursor;
  charset = let c = w.charset in ground arith;
  memory = w.memory;
}

designated-IsScreen : (s : Screen) (i c : ℕ) → IsScreen s → IsScreen (record s { g = set s.g i c })
designated-IsScreen s i c w = record {
  grid = w.grid;
  cursor = w.cursor;
  charset = let h = w.charset in let l = length-set s.g i c in ground arith;
  memory = w.memory;
}

pub forward-IsTerm : (t : Term) (b : List ℕ) → IsTerm t → IsTerm (forward t b)
forward-IsTerm t b w = out-IsScreen t.screen _ w

abort_seq-IsTerm : (t : Term) → IsTerm t → IsTerm (abort_seq t)
unfolding abort_seq
abort_seq-IsTerm t w = out-IsScreen t.screen _ w

control_effect-IsScreen : (s : Screen) (b : ℕ) → IsScreen s → IsScreen (control_effect s b)
unfolding control_effect
control_effect-IsScreen s b w =
    if-IsScreen (b == 0x08) _ _ (λ _. backspace-IsScreen s w)
      λ _.
        if-IsScreen (b == 0x09) _ _ (λ _. tab_forward-IsScreen s 1 w)
          λ _.
            if-IsScreen (b == 0x0A || b == 0x0B || b == 0x0C) _ _
              (λ _. index-IsScreen _ (unwrapped-IsScreen s w))
              λ _.
                if-IsScreen (b == 0x0D) _ _ (λ _. carriage_return-IsScreen s w)
                  λ _.
                    if-IsScreen (b == 0x0E) _ _ (λ _. invoked-IsScreen s 1 w refl)
                      λ _. if-IsScreen (b == 0x0F) _ _ (λ _. invoked-IsScreen s 0 w refl) (λ _. w)

pub control-IsTerm : (t : Term) (b : ℕ) → IsTerm t → IsTerm (control t b)
unfolding control
control-IsTerm t b w =
    let s = record (t.screen) { last_rune = 0 } in
    let v = no_memory-IsScreen t.screen w in
    if-IsTerm (b == 0x05) _ _ (λ _. v) (λ _. out-IsScreen _ _ (control_effect-IsScreen s b v))

-- The screen after a byte that every sequence treats alike, if it is one.
abbrev IsCommon : Option Term → Type 0
IsCommon none = tt ≡ tt
IsCommon (some t) = IsTerm t

common_c0-IsCommon : (t : Term) (b : ℕ) → IsTerm t → IsCommon (common_c0 t b)
unfolding common_c0
common_c0-IsCommon t b w =
    if_intro IsCommon (b == esc) _ _ (λ _. abort_seq-IsTerm t w)
      λ _.
        if_intro IsCommon (b == can || b == sub) _ _
          (λ _. forward-IsTerm (abort_seq t) (b ∷ []) (abort_seq-IsTerm t w))
          λ _. if_intro IsCommon (ltb b 0x20) _ _ (λ _. control-IsTerm t b w) (λ _. refl)

esc_effect-IsHandled : (s : Screen) (final : ℕ) → IsScreen s → IsHandled (esc_effect s final)
unfolding esc_effect
esc_effect-IsHandled s final w =
    if-IsHandled (final == b'7') _ _ (λ _. save_cursor-IsScreen s w)
      λ _.
        if-IsHandled (final == b'8') _ _ (λ _. restore_cursor-IsScreen s w)
          λ _.
            if-IsHandled (final == b'D') _ _ (λ _. index-IsScreen _ (unwrapped-IsScreen s w))
              λ _.
                if-IsHandled (final == b'E') _ _
                  (λ _. index-IsScreen _ (carriage_return-IsScreen s w))
                  λ _.
                    if-IsHandled (final == b'M') _ _
                      (λ _. reverse_index-IsScreen _ (unwrapped-IsScreen s w))
                      λ _.
                        if-IsHandled (final == b'c') _ _
                          (λ _. out-IsScreen _ _ (full_reset-IsScreen s w))
                          λ _.
                            if-IsHandled (final == b'=') _ _ (λ _. modes-IsScreen s _ w refl)
                              λ _.
                                if-IsHandled (final == b'>') _ _ (λ _. modes-IsScreen s _ w refl)
                                  λ _.
                                    if-IsHandled (final == b'H') _ _
                                      (λ _.
                                        tabs-IsScreen s _ w
                                          (length-set s.tabs s.cx true ∙ w.grid.tabs_ok))
                                      λ _.
                                        if-IsHandled (final == b'n') _ _
                                          (λ _. invoked-IsScreen s 2 w refl)
                                          λ _.
                                            if-IsHandled (final == b'o') _ _
                                              (λ _. invoked-IsScreen s 3 w refl)
                                              λ _.
                                                if-IsHandled (final == b'Z') _ _
                                                  (λ _. reply-IsScreen s _ w) (λ _. w)

esc_inter_effect-IsScreen :
    (s : Screen) (inter : List ℕ) (final : ℕ)
    → IsScreen s
    → IsScreen (esc_inter_effect s inter final)
unfolding esc_inter_effect
esc_inter_effect-IsScreen s inter final w =
    let i = get_or inter 0 0 in
    if-IsScreen (not (length inter == 1)) _ _ (λ _. w)
      λ _.
        if-IsScreen (within b'(' b'+' i) _ _ (λ _. designated-IsScreen s _ _ w)
          λ _.
            if-IsScreen (within b'-' b'/' i) _ _ (λ _. designated-IsScreen s _ _ w)
              λ _.
                if-IsScreen (i == b'#') _ _
                  (λ _. if-IsScreen (final == b'8') _ _ (λ _. alignment_test-IsScreen s w) (λ _. w))
                  (λ _. w)

finish_seq-IsTerm :
    (t : Term) (seq : List ℕ) (r : Screen × Bool) → IsHandled r → IsTerm (finish_seq t seq r)
finish_seq-IsTerm t seq (s, pass) w = out-IsScreen s _ w

-- A byte is either common or the sequence's own.
or_common-IsStep :
    (o : Option Term) (own : Term × Bool)
    → IsCommon o
    → IsStep own
    → IsStep (elim o [ some t ↦ (t, true) | none ↦ own ])
or_common-IsStep none own h k = k
or_common-IsStep (some t) own h k = h

pub esc_byte-IsStep : (t : Term) (b : ℕ) → IsTerm t → IsStep (esc_byte t b)
unfolding esc_byte
esc_byte-IsStep t b w =
    let kind = b == b']' || b == b'P' || b == b'X' || b == b'^' || b == b'_' in
    or_common-IsStep (common_c0 t b) _ (common_c0-IsCommon t b w) (
      if-IsStep (b == 0x7F) _ _ (λ _. w)
        λ _.
          if-IsStep (within 0x20 0x2F b) _ _ (λ _. w)
            λ _.
              if-IsStep (b == b'[') _ _ (λ _. w)
                λ _.
                  if-IsStep kind _ _ (λ _. w)
                    λ _.
                      if-IsStep (within 0x30 0x7E b) _ _
                        (λ _.
                          finish_seq-IsTerm t _ _
                            (esc_effect-IsHandled _ b (no_memory-IsScreen t.screen w)))
                        (λ _. abort_seq-IsTerm t w))

pub esc_inter_byte-IsStep : (t : Term) (b : ℕ) → IsTerm t → IsStep (esc_inter_byte t b)
unfolding esc_inter_byte
esc_inter_byte-IsStep t b w =
    let seq = t.seq ++ (b ∷ []) in
    or_common-IsStep (common_c0 t b) _ (common_c0-IsCommon t b w) (
      if-IsStep (b == 0x7F) _ _ (λ _. w)
        λ _.
          if-IsStep (within 0x20 0x2F b) _ _
            (λ _. if-IsStep (leb 16 (length t.seq)) _ _ (λ _. abort_seq-IsTerm t w) (λ _. w))
            λ _.
              if-IsStep (within 0x30 0x7E b) _ _
                (λ _.
                  finish_seq-IsTerm t seq (_, true)
                    (esc_inter_effect-IsScreen _ (take (length seq - 2) (drop 1 seq)) b
                      (no_memory-IsScreen t.screen w)))
                (λ _. abort_seq-IsTerm t w))

pub csi_byte-IsStep : (t : Term) (b : ℕ) → IsTerm t → IsStep (csi_byte t b)
unfolding csi_byte
csi_byte-IsStep t b w =
    let seq = t.seq ++ (b ∷ []) in
    let kept : IsScreen (if b == b'b' then t.screen else record (t.screen) { last_rune = 0 }) =
      if-IsScreen (b == b'b') _ _ (λ _. w) (λ _. no_memory-IsScreen t.screen w) in
    or_common-IsStep (common_c0 t b) _ (common_c0-IsCommon t b w) (
      if-IsStep (within 0x20 0x3F b || b == 0x7F) _ _
        (λ _.
          if-IsTerm t.csi_overflow _ _ (λ _. forward-IsTerm t _ w)
            λ _. if-IsTerm (ltb max_csi (length seq)) _ _ (λ _. forward-IsTerm t _ w) (λ _. w))
        λ _.
          if-IsStep (within 0x40 0x7E b) _ _
            (λ _.
              if-IsTerm t.csi_overflow _ _ (λ _. forward-IsTerm t _ w)
                (λ _. finish_seq-IsTerm t _ _ (dispatch_csi-IsHandled _ seq kept)))
            (λ _. abort_seq-IsTerm t w))

pub string_append-IsTerm : (t : Term) (b : List ℕ) → IsTerm t → IsTerm (string_append t b)
unfolding string_append
string_append-IsTerm t b w =
    if-IsTerm (length b == 0) _ _ (λ _. w)
      λ _.
        if-IsTerm t.str_overflow _ _ (λ _. forward-IsTerm t _ w)
          λ _.
            if-IsTerm (ltb max_string (length t.seq + length b)) _ _ (λ _. forward-IsTerm t _ w)
              (λ _. w)

string_effect-IsHandled :
    (s : Screen) (kind : ℕ) (payload : List ℕ) (st : Bool)
    → IsScreen s
    → IsHandled (string_effect s kind payload st)
unfolding string_effect
string_effect-IsHandled s kind payload st w =
    if-IsHandled (kind == b']') _ _ (λ _. osc-IsHandled s payload st w)
      λ _.
        if-IsHandled (kind == b'P') _ _ (λ _. dcs-IsHandled s payload w)
          λ _. if-IsHandled (kind == b'_') _ _ (λ _. w) (λ _. w)

finish_string-IsTerm :
    (t : Term) (seq : List ℕ) (st : Bool) → IsTerm t → IsTerm (finish_string t seq st)
unfolding finish_string
finish_string-IsTerm t seq st w =
    finish_seq-IsTerm t seq _
      (string_effect-IsHandled _ t.str_kind _ st (no_memory-IsScreen t.screen w))

pub string_esc_byte-IsStep : (t : Term) (b : ℕ) → IsTerm t → IsStep (string_esc_byte t b)
unfolding string_esc_byte
string_esc_byte-IsStep t b w =
    if-IsStep (b == b'\\') _ _
      (λ _.
        if-IsTerm t.str_overflow _ _ (λ _. forward-IsTerm t _ w)
          (λ _. finish_string-IsTerm t _ true w))
      (λ _. if-IsTerm t.str_overflow _ _ (λ _. w) (λ _. forward-IsTerm t _ w))

pub string_end-IsTerm : (t : Term) (c : ℕ) → IsTerm t → IsTerm (string_end t c)
unfolding string_end
string_end-IsTerm t c w =
    if-IsTerm (c == bel) _ _
      (λ _.
        if-IsTerm (not (t.str_kind == b']')) _ _ (λ _. string_append-IsTerm t (bel ∷ []) w)
          λ _.
            if-IsTerm t.str_overflow _ _ (λ _. forward-IsTerm t _ w)
              (λ _. finish_string-IsTerm t _ false w))
      λ _.
        if-IsTerm (c == can || c == sub) _ _
          (λ _. forward-IsTerm (abort_seq t) (c ∷ []) (abort_seq-IsTerm t w)) (λ _. w)
