-- ===== src/Detect/Scanner/Places.antt =====
-- What one byte does to the sequence that is pending, internal/detect/scanner.go.
use pairmux.Prelude.{
  ℕ, zero, suc, ◌+◌, ◌-◌, ◌≤◌, ◌<◌, ◌≡◌, refl, sym, subst, List, [], ◌∷◌, ◌++◌, Option, none, some,
  Bool, not, ltb, ◌==◌, ◌||◌, if◌then◌else◌, length, take, drop, get_or, arith, if_intro,
  length-append, length-take,
}
use pairmux.Bytes.{codes, bytes_eq, has_prefix, split}
use pairmux.Bytes.Numbers.{negsuc}
use pairmux.Core.{sentinel_boundary}
use pairmux.Detect.Scanner.{
  Scanner, Mark, MarkKind, ScanState, in_ground, in_esc, in_osc, in_osc_esc, fallback, next_bnd,
  match_boundary, finish, letter_kind, exit_from, shell_mark, reported, ground_byte, esc_byte,
  osc_byte, osc_esc_byte, step, payload_cap, mark_boundary,
}

-- What is collected in a state of the machine, no byte of it before `from`.
abbrev pub Collected : ScanState → ℕ → Scanner → Type 0
Collected in_ground from s = (s.bnd < 9) × (from + s.bnd ≤ s.offset)
Collected in_esc from s = (s.bnd ≡ 0) × ((from ≤ s.mark_start) × (s.mark_start + 1 ≡ s.offset))
Collected in_osc from s =
    (s.bnd ≡ 0) × ((from ≤ s.mark_start) × (s.mark_start + 2 + length s.payload ≡ s.offset))
Collected in_osc_esc from s =
    (s.bnd ≡ 0) × ((from ≤ s.mark_start) × (s.mark_start + 3 + length s.payload ≡ s.offset))

-- A sequence that is not complete has a payload within the cap and begins at `from` or later.
abbrev pub Pending : ℕ → Scanner → Type 0
Pending from s = (length s.payload ≤ payload_cap) × Collected s.state from s

-- Marks in order, and what is pending begins after the last.
abbrev pub After : ℕ → Scanner × List Mark → Type 0
After from (s, []) = Pending from s
After from (s, m ∷ ms) =
    (from ≤ m.start) × ((m.start < m.end') × ((m.end' ≤ m.start + 164) × After m.end' (s, ms)))

fallback-le : (seen : List ℕ) (n : ℕ) → fallback seen n ≤ n
unfolding fallback
fallback-le seen zero = omega arith
fallback-le seen (suc n) =
    if_intro (λ k. k ≤ suc n) (has_prefix sentinel_boundary (drop (length seen - suc n) seen)) _ _
      (λ _. omega arith) (λ _. omega (arith, fallback-le seen n))

next_bnd-le : (bnd b : ℕ) → next_bnd bnd b ≤ suc bnd
unfolding next_bnd
next_bnd-le bnd b =
    let seen : List ℕ = take bnd sentinel_boundary ++ (b ∷ []) in
    ground (
      arith,
      fallback-le seen (length seen - 1),
      length-append (take bnd sentinel_boundary) (b ∷ []),
      length-take bnd sentinel_boundary,
    )

-- A recognized sequence is placed where it began and ended.
abbrev Placed : ℕ → ℕ → Option Mark → Type 0
Placed start stop none = Unit {0}
Placed start stop (some m) = (m.start ≡ start) × (m.end' ≡ stop)

finish-Placed :
    (start : ℕ) (payload : List ℕ) (stop : ℕ) → Placed start stop (finish start payload stop)
unfolding finish shell_mark
finish-Placed start payload stop =
    if_intro P (bytes_eq first (codes "133")) _ _
      (λ _.
        if_intro P (ltb (length fields) 2 || not (length second == 1)) _ _ (λ _. tt)
          (λ _. letter (letter_kind second)))
      (λ _.
        if_intro P (bytes_eq first (codes "7779")) _ _
          (λ _.
            if_intro P (ltb (length fields) 3 || not (bytes_eq second (codes "p"))) _ _ (λ _. tt)
              (λ _. (refl, refl)))
          (λ _. tt))
  where
    P : Option Mark → Type 0
    P = Placed start stop

    fields : List (List ℕ)
    fields = split b';' payload

    first : List ℕ
    first = get_or fields 0 []

    second : List ℕ
    second = get_or fields 1 []

    letter :
        (k : Option MarkKind) → Placed start stop (shell_mark k (exit_from fields 2) start stop)
    letter none = tt
    letter (some k) = (refl, refl)

reported-After :
    (from : ℕ) (s : Scanner) (o : Option Mark) (start stop : ℕ)
    → Placed start stop o
    → from ≤ start
    → start < stop
    → stop ≤ start + 164
    → Pending stop s
    → Pending from s
    → After from (s, reported o)
unfolding reported
reported-After from s none start stop p a b c d e = e
reported-After from s (some m) start stop p a b c d e =
    (omega arith, (omega arith, (omega arith, subst (λ e. Pending e s) (sym p.1) d)))

ground_byte-After :
    (from : ℕ) (s : Scanner) (off b : ℕ)
    → off + 1 ≡ s.offset
    → length s.payload ≤ payload_cap
    → s.bnd < 9
    → from + s.bnd < s.offset
    → After from (ground_byte (record s { state = in_ground }) off b)
unfolding ground_byte match_boundary
ground_byte-After from s off b q p h k =
    if_intro (After from) (b == 0x1B) _ _ (λ _. (p, ground arith))
      (λ _.
        if_intro
          (λ (r : ℕ × Bool).
            After from
              (record s { state = in_ground; bnd = r.0 }, if r.1 then boundary ∷ [] else []))
          (next_bnd s.bnd b == length sentinel_boundary) _ _
          (λ e. ground (arith, next_bnd-le s.bnd b)) (λ e. ground (arith, next_bnd-le s.bnd b)))
  where
    boundary : Mark
    boundary = record {
      kind = mark_boundary;
      exit_code = negsuc 0;
      start = s.offset - length sentinel_boundary;
      end' = s.offset;
    }

esc_byte-After :
    (from : ℕ) (s : Scanner) (off b : ℕ)
    → off + 1 ≡ s.offset
    → length s.payload ≤ payload_cap
    → s.bnd ≡ 0
    → from ≤ s.mark_start
    → s.mark_start + 2 ≡ s.offset
    → After from (esc_byte (record s { state = in_esc }) off b)
unfolding esc_byte
esc_byte-After from s off b q p z h k =
    if_intro (After from) (b == b']') _ _ (λ _. ground arith)
      (λ _. if_intro (After from) (b == 0x1B) _ _ (λ _. ground arith) (λ _. ground arith))

osc_byte-After :
    (from : ℕ) (s : Scanner) (off b : ℕ)
    → off + 1 ≡ s.offset
    → length s.payload ≤ payload_cap
    → s.bnd ≡ 0
    → from ≤ s.mark_start
    → s.mark_start + 3 + length s.payload ≡ s.offset
    → After from (osc_byte (record s { state = in_osc }) off b)
unfolding osc_byte
osc_byte-After from s off b q p z h k =
    let longer = length-append s.payload (b ∷ []) in
    if_intro (After from) (b == 0x07) _ _
      (λ _.
        reported-After from _ _ _ _ (finish-Placed s.mark_start s.payload (off + 1)) h (omega arith)
          (omega arith) (ground arith) (ground arith))
      (λ _.
        if_intro (After from) (b == 0x1B) _ _ (λ _. ground arith)
          (λ _.
            if_intro (After from) (ltb payload_cap (length (s.payload ++ (b ∷ [])))) _ _
              (λ _. ground arith) (λ e. ground (arith, longer))))

osc_esc_byte-After :
    (from : ℕ) (s : Scanner) (off b : ℕ)
    → off + 1 ≡ s.offset
    → length s.payload ≤ payload_cap
    → s.bnd ≡ 0
    → from ≤ s.mark_start
    → s.mark_start + 4 + length s.payload ≡ s.offset
    → After from (osc_esc_byte (record s { state = in_osc_esc }) off b)
unfolding osc_esc_byte
osc_esc_byte-After from s off b q p z h k =
    if_intro (After from) (b == 0x5C) _ _
      (λ _.
        reported-After from _ _ _ _ (finish-Placed s.mark_start s.payload (off + 1)) h (omega arith)
          (omega arith) (ground arith) (ground arith))
      (λ _.
        if_intro (After from) (b == b']') _ _ (λ _. ground arith)
          (λ _. if_intro (After from) (b == 0x1B) _ _ (λ _. ground arith) (λ _. ground arith)))

pub step-After : (from : ℕ) (s : Scanner) (b : ℕ) → Pending from s → After from (step s b)
unfolding step
step-After from s b w = by_state s.state refl w.1
  where
    moved : ScanState → Scanner
    moved st = record s { state = st; offset = s.offset + 1 }

    by_state : (st : ScanState) → s.state ≡ st → Collected st from s → After from (step s b)
    by_state in_ground e c =
        rw e (ground_byte-After from (moved in_ground) s.offset b refl w.0 c.0 (omega arith))
    by_state in_esc e c =
        rw e (esc_byte-After from (moved in_esc) s.offset b refl w.0 c.0 c.1.0 (omega arith))
    by_state in_osc e c =
        rw e (osc_byte-After from (moved in_osc) s.offset b refl w.0 c.0 c.1.0 (omega arith))
    by_state in_osc_esc e c =
        rw e
          (osc_esc_byte-After from (moved in_osc_esc) s.offset b refl w.0 c.0 c.1.0 (omega arith))
