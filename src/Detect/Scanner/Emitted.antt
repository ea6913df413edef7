-- ===== src/Detect/Scanner/Emitted.antt =====
-- The sequences that the shells print, recognized in the stream they are printed to.
use mathlib.Core.List.{append-nil, append_assoc}
use pairmux.Prelude.{
  ℕ, ◌+◌, ◌≤◌, ◌<◌, ◌^◌, ◌≡◌, refl, ap, ◌∙◌, List, [], ◌∷◌, ◌++◌, some, Bool, true, not, ◌&&◌, ltb,
  ◌==◌, length, arith, if_intro, length-append,
}
use pairmux.Bytes.{codes, all_bytes, split, onto_first}
use pairmux.Bytes.Digits.{
  is_digit, atoi-decimal, length-decimal, all_digits-decimal, trim_space-digits,
}
use pairmux.Bytes.Lines.{split-all}
use pairmux.Bytes.Numbers.{pos, decimal}
use pairmux.Detect.Scanner.{
  Scanner, Mark, ScanState, in_ground, in_esc, in_osc, in_osc_esc, mark_d, mark_sentinel,
  payload_cap, finish, exit_from, exit_value, reported, ground_byte, esc_byte, osc_byte,
  osc_esc_byte, step, feed,
}
use pairmux.Detect.Scanner.Chunks.{feed-append}

-- A byte that neither ends a sequence nor begins one.
abbrev pub is_payload : ℕ → Bool
is_payload c = not (c == 0x07) && not (c == 0x1B)

-- The scanner collects the sequence that began at `start`.
record Collects (start : ℕ) (payload : List ℕ) (s : Scanner) : Type 0 where
  pub state_eq : s.state ≡ in_osc
  pub start_eq : s.mark_start ≡ start
  pub payload_eq : s.payload ≡ payload
  pub offset_eq : s.offset ≡ start + 2 + length payload

-- Whatever the scanner was doing, the introducer of an OSC begins a sequence.
abbrev Introduced : ℕ → Scanner × List Mark → Type 0
Introduced start (s, ms) = Collects start [] s × (ms ≡ [])

introducer : (s : Scanner) → Introduced s.offset (feed s (0x1B ∷ b']' ∷ []))
unfolding feed step ground_byte esc_byte osc_byte osc_esc_byte
introducer s = by_state s.state refl
  where
    begun :
        (s' : Scanner)
        → s'.state ≡ in_osc
        → s'.mark_start ≡ s.offset
        → s'.payload ≡ []
        → s'.offset ≡ s.offset + 2
        → Introduced s.offset (s', [])
    begun s' a b c d =
        (record { state_eq = a; start_eq = b; payload_eq = c; offset_eq = omega arith }, refl)

    by_state : (st : ScanState) → s.state ≡ st → Introduced s.offset (feed s (0x1B ∷ b']' ∷ []))
    by_state in_ground e = rw e (begun _ refl refl refl (omega arith))
    by_state in_esc e = rw e (begun _ refl refl refl (omega arith))
    by_state in_osc e = rw e (begun _ refl (omega arith) refl (omega arith))
    by_state in_osc_esc e = rw e (begun _ refl refl refl (omega arith))

-- What a byte of a payload does.
collect :
    (start : ℕ) (q : List ℕ) (s : Scanner) (b : ℕ)
    → Collects start q s
    → is_payload b ≡ true
    → length q < payload_cap
    → Collects start (q ++ (b ∷ [])) (step s b).0 × ((step s b).1 ≡ [])
unfolding step osc_byte
collect start q s b w h k =
    rw (w.state_eq, w.payload_eq)
      (if_intro Next (b == 0x07) _ _ (λ e. absurd (ground arith))
        (λ e.
          if_intro Next (b == 0x1B) _ _ (λ e'. absurd (ground arith))
            (λ e'.
              if_intro Next (ltb payload_cap (length (q ++ (b ∷ [])))) _ _
                (λ f. absurd (ground (arith, longer)))
                (λ f. (
                  record {
                    state_eq = refl;
                    start_eq = w.start_eq;
                    payload_eq = refl;
                    offset_eq = omega (arith, w.offset_eq, longer);
                  },
                  refl,
                )))))
  where
    Next : Scanner × List Mark → Type 0
    Next r = Collects start (q ++ (b ∷ [])) r.0 × (r.1 ≡ [])

    longer : length (q ++ (b ∷ [])) ≡ length q + 1
    longer = length-append q (b ∷ [])

collects :
    (start : ℕ) (q p : List ℕ) (s : Scanner)
    → Collects start q s
    → all_bytes is_payload p ≡ true
    → length q + length p ≤ payload_cap
    → Collects start (q ++ p) (feed s p).0 × ((feed s p).1 ≡ [])
unfolding feed all_bytes
collects start q [] s w h k = (rw (append-nil q) w, refl)
collects start q (b ∷ p) s w h k =
    let one = collect start q s b w (ground arith) (omega arith) in
    let rest =
      collects start (q ++ (b ∷ [])) p (step s b).0 one.0 (ground arith)
        (omega (arith, length-append q (b ∷ []))) in
    (rw⁻¹ (append_assoc q (b ∷ []) p) rest.0, rw (one.1, rest.1) refl)

finished :
    (start : ℕ) (p : List ℕ) (s : Scanner)
    → Collects start p s
    → (feed s (0x07 ∷ [])).1 ≡ reported (finish start p (start + 3 + length p))
unfolding feed step osc_byte
finished start p s w =
    rw (w.state_eq, w.payload_eq, w.start_eq)
      (append-nil _ ∙ ap (λ k. reported (finish start p k)) (omega (arith, w.offset_eq)))

-- An OSC of at most 160 bytes is finished as a whole, whatever the scanner was doing before.
feed-osc :
    (s : Scanner) (p : List ℕ)
    → all_bytes is_payload p ≡ true
    → length p ≤ payload_cap
    → (feed s (0x1B ∷ b']' ∷ (p ++ (0x07 ∷ [])))).1
      ≡ reported (finish s.offset p (s.offset + 3 + length p))
feed-osc s p h k =
    let intro = introducer s in
    let s1 : Scanner = (feed s (0x1B ∷ b']' ∷ [])).0 in
    let body = collects s.offset [] p s1 intro.0 h (omega arith) in
    let s2 : Scanner = (feed s1 p).0 in
    let outer : (feed s (0x1B ∷ b']' ∷ (p ++ (0x07 ∷ [])))).1
        ≡ (feed s (0x1B ∷ b']' ∷ [])).1 ++ (feed s1 (p ++ (0x07 ∷ []))).1 =
      ap (λ r. r.1) (feed-append s (0x1B ∷ b']' ∷ []) (p ++ (0x07 ∷ []))) in
    let inner : (feed s1 (p ++ (0x07 ∷ []))).1 ≡ (feed s1 p).1 ++ (feed s2 (0x07 ∷ [])).1 =
      ap (λ r. r.1) (feed-append s1 p (0x07 ∷ [])) in
    rw (outer, intro.1, inner, body.1) (finished s.offset p s2 body.0)

all_payload-digits :
    (b : List ℕ)
    → all_bytes is_digit b ≡ true
    → (all_bytes is_payload b ≡ true) × (all_bytes (λ c. not (c == b';')) b ≡ true)
unfolding all_bytes
all_payload-digits [] h = (refl, refl)
all_payload-digits (c ∷ cs) h =
    let rest = all_payload-digits cs (ground arith) in (ground (arith, rest), ground (arith, rest))

finish-sentinel :
    (start code stop : ℕ)
    → code < 2 ^ 63
    → finish start (codes "7779;p;" ++ decimal code) stop
      ≡ some (record { kind = mark_sentinel; exit_code = pos code; start = start; end' = stop })
unfolding finish split onto_first exit_from exit_value
finish-sentinel start code stop h =
    rw
      (
        split-all b';' (decimal code)
            (all_payload-digits (decimal code) (all_digits-decimal code)).1,
        trim_space-digits (decimal code) (all_digits-decimal code),
        atoi-decimal code h,
      )
      refl

finish-done :
    (start code stop : ℕ)
    → code < 2 ^ 63
    → finish start (codes "133;D;" ++ decimal code) stop
      ≡ some (record { kind = mark_d; exit_code = pos code; start = start; end' = stop })
unfolding finish split onto_first exit_from exit_value
finish-done start code stop h =
    rw
      (
        split-all b';' (decimal code)
            (all_payload-digits (decimal code) (all_digits-decimal code)).1,
        trim_space-digits (decimal code) (all_digits-decimal code),
        atoi-decimal code h,
      )
      refl

-- The bytes that a shell prints when a command is done, `name` up to its exit code.
abbrev pub printed : List ℕ → ℕ → List ℕ
printed name code = 0x1B ∷ b']' ∷ ((name ++ decimal code) ++ (0x07 ∷ []))

feed-printed :
    (s : Scanner) (name : List ℕ) (code : ℕ)
    → all_bytes is_payload (name ++ decimal code) ≡ true
    → length name ≤ 100
    → code < 2 ^ 63
    → (feed s (printed name code)).1
      ≡ reported (finish s.offset (name ++ decimal code) (s.offset + length (printed name code)))
feed-printed s name code h k c =
    feed-osc s (name ++ decimal code) h
      (omega (arith, length-append name (decimal code), length-decimal code c))
    ∙ ap (λ stop. reported (finish s.offset (name ++ decimal code) stop))
        (omega (arith, length-append (name ++ decimal code) (0x07 ∷ [])))

-- From any state of the scanner, in the middle of text or of another sequence, the bytes that the
-- sentinel's printf writes for an exit code below 2^63 give exactly one mark, the sentinel with
-- that exit code, from the first byte to behind the last.
pub feed-sentinel :
    (s : Scanner) (code : ℕ)
    → code < 2 ^ 63
    → (feed s (printed (codes "7779;p;") code)).1
      ≡ record {
        kind = mark_sentinel;
        exit_code = pos code;
        start = s.offset;
        end' = s.offset + length (printed (codes "7779;p;") code);
      }
        ∷ []
unfolding all_bytes reported
feed-sentinel s code h =
    feed-printed s (codes "7779;p;") code
      (all_payload-digits (decimal code) (all_digits-decimal code)).0 (omega arith) h
    ∙ rw (finish-sentinel s.offset code (s.offset + length (printed (codes "7779;p;") code)) h) refl

-- The D mark that a shell prints is recognized in the same way.
pub feed-done :
    (s : Scanner) (code : ℕ)
    → code < 2 ^ 63
    → (feed s (printed (codes "133;D;") code)).1
      ≡ record {
        kind = mark_d;
        exit_code = pos code;
        start = s.offset;
        end' = s.offset + length (printed (codes "133;D;") code);
      }
        ∷ []
unfolding all_bytes reported
feed-done s code h =
    feed-printed s (codes "133;D;") code
      (all_payload-digits (decimal code) (all_digits-decimal code)).0 (omega arith) h
    ∙ rw (finish-done s.offset code (s.offset + length (printed (codes "133;D;") code)) h) refl
