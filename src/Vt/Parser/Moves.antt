-- ===== src/Vt/Parser/Moves.antt =====
-- In the states of a sequence or a string's end, a byte is consumed or the state loses weight.
use pairmux.Prelude.{
  ℕ, ◌≤◌, ◌<◌, ◌≡◌, refl, Bool, true, false, ◌||◌, leb, ◌==◌, within, if◌then◌else◌, if_intro,
  arith, ◌⊎◌, inl, inr, Option, some, none, length,
}
use pairmux.Vt.Parser.{
  PState, in_ground, in_esc, in_esc_inter, in_csi, in_string, in_string_esc, Term, abort_seq,
  esc_byte, esc_inter_byte, csi_byte, common_c0, string_esc_byte,
}

-- How often a byte can still be looked at again from a state.
unfoldable pub weight : PState → ℕ
weight in_ground = 0
weight in_string = 0
weight in_string_esc = 2
weight _ = 1

pub weight-le : (st : PState) → weight st ≤ 2
unfolding weight
weight-le in_ground = omega arith
weight-le in_esc = omega arith
weight-le in_esc_inter = omega arith
weight-le in_csi = omega arith
weight-le in_string = omega arith
weight-le in_string_esc = omega arith

-- The byte is consumed, or the new state weighs less than `n`.
abbrev pub Moves : ℕ → Term × Bool → Type 0
Moves n r = (r.1 ≡ true) ⊎ (weight (r.0).state < n)

if-Moves :
    (n : ℕ) (b : Bool) (p q : Term × Bool)
    → (b ≡ true → Moves n p)
    → (b ≡ false → Moves n q)
    → Moves n (if b then p else q)
if-Moves n = if_intro (Moves n)

or_common-Moves :
    (n : ℕ) (o : Option Term) (own : Term × Bool)
    → Moves n own
    → Moves n (elim o [ some t ↦ (t, true) | none ↦ own ])
or_common-Moves n none own h = h
or_common-Moves n (some t) own h = inl refl

abort_seq-light : (t : Term) → weight (abort_seq t).state < 1
unfolding abort_seq weight
abort_seq-light t = omega arith

pub esc_byte-Moves : (t : Term) (b : ℕ) → Moves 1 (esc_byte t b)
unfolding esc_byte
esc_byte-Moves t b = or_common-Moves 1 (common_c0 t b) _ (
    if-Moves 1 (b == 0x7F) _ _ (λ _. inl refl)
      λ _.
        if-Moves 1 (within 0x20 0x2F b) _ _ (λ _. inl refl)
          λ _.
            if-Moves 1 (b == b'[') _ _ (λ _. inl refl)
              λ _.
                if-Moves 1 (b == b']' || b == b'P' || b == b'X' || b == b'^' || b == b'_') _ _
                  (λ _. inl refl)
                  λ _.
                    if-Moves 1 (within 0x30 0x7E b) _ _ (λ _. inl refl)
                      (λ _. inr (abort_seq-light t)))

pub esc_inter_byte-Moves : (t : Term) (b : ℕ) → Moves 1 (esc_inter_byte t b)
unfolding esc_inter_byte
esc_inter_byte-Moves t b = or_common-Moves 1 (common_c0 t b) _ (
    if-Moves 1 (b == 0x7F) _ _ (λ _. inl refl)
      λ _.
        if-Moves 1 (within 0x20 0x2F b) _ _
          (λ _.
            if-Moves 1 (leb 16 (length t.seq)) _ _ (λ _. inr (abort_seq-light t)) (λ _. inl refl))
          λ _. if-Moves 1 (within 0x30 0x7E b) _ _ (λ _. inl refl) (λ _. inr (abort_seq-light t)))

pub csi_byte-Moves : (t : Term) (b : ℕ) → Moves 1 (csi_byte t b)
unfolding csi_byte
csi_byte-Moves t b = or_common-Moves 1 (common_c0 t b) _ (
    if-Moves 1 (within 0x20 0x3F b || b == 0x7F) _ _ (λ _. inl refl)
      λ _. if-Moves 1 (within 0x40 0x7E b) _ _ (λ _. inl refl) (λ _. inr (abort_seq-light t)))

pub string_esc_byte-Moves : (t : Term) (b : ℕ) → Moves 2 (string_esc_byte t b)
unfolding string_esc_byte weight
string_esc_byte-Moves t b = if-Moves 2 (b == b'\\') _ _ (λ _. inl refl) (λ _. inr (omega arith))
