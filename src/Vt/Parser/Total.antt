-- ===== src/Vt/Parser/Total.antt =====
-- The loops of `Feed` have enough fuel: every byte of the input is consumed.
use pairmux.Prelude.{
  ℕ, zero, suc, ◌+◌, ◌*◌, ◌≤◌, ◌<◌, ◌≡◌, refl, List, [], ◌∷◌, Bool, true, false, if◌then◌else◌,
  arith, ◌⊎◌, inl, inr, length,
}
use pairmux.Vt.Parser.{
  PState, in_ground, in_esc, in_esc_inter, in_csi, in_string, in_string_esc, Term,
}
use pairmux.Vt.Parser.Loop.{step, string_bytes, ground_bytes, feed_round, feed_loop}
use pairmux.Vt.Width.{Unicode}
use pairmux.Vt.Parser.Moves.{
  weight, weight-le, Moves, esc_byte-Moves, esc_inter_byte-Moves, csi_byte-Moves,
  string_esc_byte-Moves,
}
use pairmux.Vt.Parser.Leftover.{string_bytes_lt, ground_bytes_lt}

-- A round leaves nothing, or strictly less to do.
abbrev Advances : ℕ → Term × List ℕ → Type 0
Advances n r = (length r.1 ≡ 0) ⊎ (3 * length r.1 + weight (r.0).state < n)

consumed-Advances : (n k : ℕ) (t : Term) (p : List ℕ) → length p < n → Advances (3 * n + k) (t, p)
consumed-Advances n k t p lt = let h = weight-le t.state in inr (omega (arith, h, lt))

step-Advances :
    (n : ℕ) (r : Term × Bool) (b : ℕ) (rest : List ℕ)
    → Moves n r
    → Advances (3 * suc (length rest) + n) (r.0, if r.1 then rest else b ∷ rest)
step-Advances n (t, true) b rest m = let h = weight-le t.state in inr (omega (arith, h))
step-Advances n (t, false) b rest (inl e) = absurd (ground (arith, e))
step-Advances n (t, false) b rest (inr lt) = inr (omega (arith, lt))

length-zero {ℓ} : {A : Type ℓ} (xs : List A) → length xs ≡ 0 → xs ≡ []
length-zero [] z = refl
length-zero (x ∷ xs) z = absurd (omega (arith, z))

module _ (u : Unicode) where
  ground-Advances :
      (t : Term) (b : ℕ) (rest : List ℕ)
      → Advances (3 * suc (length rest) + 0) (ground_bytes u t (b ∷ rest))
  ground-Advances t b rest = elim (ground_bytes_lt u t b rest) [
    | inl z ↦ inl z
    | inr lt ↦
        let r = ground_bytes u t (b ∷ rest) in consumed-Advances (suc (length rest)) 0 r.0 r.1 lt
  ]

  -- The loop does nothing without bytes.
  ended : (fuel : ℕ) (t : Term) (p : List ℕ) → length p ≡ 0 → length (feed_loop u fuel t p).1 ≡ 0
  unfolding feed_loop
  ended zero t p z = z
  ended (suc fuel) t [] z = refl
  ended (suc fuel) t (b ∷ rest) z = absurd (omega (arith, z))

  nothing_left : (k : ℕ) (t : Term) → feed_loop u k t [] ≡ (t, [])
  unfolding feed_loop
  nothing_left zero t = refl
  nothing_left (suc k) t = refl

  step-Moves :
      (st : PState) (t : Term) (b : ℕ)
      → t.state ≡ st
      → (0 < weight st)
      → Moves (weight st) (step t b)
  unfolding step weight
  step-Moves in_ground t b e lt = absurd (omega (arith, lt))
  step-Moves in_esc t b e lt = rw (e, step) (esc_byte-Moves t b)
  step-Moves in_esc_inter t b e lt = rw (e, step) (esc_inter_byte-Moves t b)
  step-Moves in_csi t b e lt = rw (e, step) (csi_byte-Moves t b)
  step-Moves in_string t b e lt = absurd (omega (arith, lt))
  step-Moves in_string_esc t b e lt = rw (e, step) (string_esc_byte-Moves t b)

  round_from-Advances :
      (st : PState) (t : Term) (b : ℕ) (rest : List ℕ)
      → t.state ≡ st
      → Advances (3 * suc (length rest) + weight st) (elim st [
        | in_ground ↦ ground_bytes u t (b ∷ rest)
        | in_string ↦ string_bytes t (b ∷ rest)
        | _ ↦ let (t', consumed) = step t b in (t', if consumed then rest else b ∷ rest)
      ])
  unfolding weight
  round_from-Advances in_ground t b rest e = ground-Advances t b rest
  round_from-Advances in_esc t b rest e =
      step-Advances 1 (step t b) b rest (step-Moves in_esc t b e (omega arith))
  round_from-Advances in_esc_inter t b rest e =
      step-Advances 1 (step t b) b rest (step-Moves in_esc_inter t b e (omega arith))
  round_from-Advances in_csi t b rest e =
      step-Advances 1 (step t b) b rest (step-Moves in_csi t b e (omega arith))
  round_from-Advances in_string t b rest e =
      let r = string_bytes t (b ∷ rest) in
      consumed-Advances (suc (length rest)) 0 r.0 r.1 (string_bytes_lt t b rest)
  round_from-Advances in_string_esc t b rest e =
      step-Advances 2 (step t b) b rest (step-Moves in_string_esc t b e (omega arith))

  feed_loop_empty :
      (fuel : ℕ) (t : Term) (p : List ℕ)
      → 3 * length p + weight t.state ≤ fuel
      → length (feed_loop u fuel t p).1 ≡ 0
  unfolding feed_loop feed_round
  feed_loop_empty zero t p le = omega (arith, le)
  feed_loop_empty (suc fuel) t [] le = refl
  feed_loop_empty (suc fuel) t (b ∷ rest) le =
      let r = feed_round u t (b ∷ rest) in
      elim (round_from-Advances t.state t b rest refl) [
        | inl z ↦ ended fuel r.0 r.1 z
        | inr lt ↦ feed_loop_empty fuel r.0 r.1 (omega (arith, le, lt))
      ]

  -- From any state of the parser and on any bytes, the loop of `Feed` with the fuel `3 * length p
  -- + 3` consumes all of them.
  pub feed_loop-consumes : (t : Term) (p : List ℕ) → (feed_loop u (3 * length p + 3) t p).1 ≡ []
  feed_loop-consumes t p =
      length-zero _
        (feed_loop_empty (3 * length p + 3) t p (let h = weight-le t.state in omega (arith, h)))

  more_fuel :
      (fuel more : ℕ) (t : Term) (p : List ℕ)
      → fuel ≤ more
      → (feed_loop u fuel t p).1 ≡ []
      → feed_loop u more t p ≡ feed_loop u fuel t p
  unfolding feed_loop
  more_fuel zero more t p le e = rw e (nothing_left more t)
  more_fuel (suc fuel) zero t p le e = absurd (omega (arith, le))
  more_fuel (suc fuel) (suc more) t [] le e = refl
  more_fuel (suc fuel) (suc more) t (b ∷ rest) le e =
      let r = feed_round u t (b ∷ rest) in more_fuel fuel more r.0 r.1 (omega (arith, le)) e

  -- With any fuel of at least `3 * length p + 3` the loop of `Feed` gives the same result.
  pub feed_loop-fuel :
      (fuel : ℕ) (t : Term) (p : List ℕ)
      → 3 * length p + 3 ≤ fuel
      → feed_loop u fuel t p ≡ feed_loop u (3 * length p + 3) t p
  feed_loop-fuel fuel t p le = more_fuel (3 * length p + 3) fuel t p le (feed_loop-consumes t p)
