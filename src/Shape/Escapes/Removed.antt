-- ===== src/Shape/Escapes/Removed.antt =====
-- What StripANSI leaves, and that it comes to an end.
use pairmux.Prelude.{
  ℕ, zero, suc, ◌≤◌, ◌≡◌, refl, List, [], ◌∷◌, Option, none, some, true, ◌&&◌, ◌||◌, ltb, leb, ◌==◌,
  within, if◌then◌else◌, length, drop, arith, if_intro, length-drop,
}
use pairmux.Prelude.All.{All}
use pairmux.Bytes.{has_prefix}
use pairmux.Core.{sentinel_boundary}
use pairmux.Shape.Escapes.{
  skip_csi, skip_string, or_abandon, is_string_introducer, string_payload_cap, after_esc,
  strip_loop, strip_ansi,
}

-- A line feed, a tab, or no control byte.
abbrev pub IsText : ℕ → Type 0
IsText c = ((c == 0x0A) || ((c == 0x09) || leb 0x20 c)) ≡ true

strip_loop-IsText : (fuel : ℕ) (b : List ℕ) → All IsText (strip_loop fuel b)
unfolding strip_loop
strip_loop-IsText zero b = tt
strip_loop-IsText (suc fuel) [] = tt
strip_loop-IsText (suc fuel) (c ∷ cs) =
    if_intro (All IsText) (has_prefix (c ∷ cs) sentinel_boundary) _ _
      (λ _. strip_loop-IsText fuel (drop 9 (c ∷ cs)))
      (λ _.
        if_intro (All IsText) (c == 0x1B) _ _ (λ _. strip_loop-IsText fuel (after_esc cs))
          (λ _.
            if_intro (All IsText) (c == 0x0A || c == 0x09) _ _
              (λ e. (ground arith, strip_loop-IsText fuel cs))
              (λ e.
                if_intro (All IsText) (ltb c 0x20) _ _ (λ _. strip_loop-IsText fuel cs)
                  (λ f. (ground arith, strip_loop-IsText fuel cs)))))

-- Whatever the bytes, no control byte but line feeds and tabs is left.
pub strip_ansi-IsText : (b : List ℕ) → All IsText (strip_ansi b)
unfolding strip_ansi
strip_ansi-IsText b = strip_loop-IsText (length b) b

-- Not longer than a text.
abbrev Shorter : ℕ → Option (List ℕ) → Type 0
Shorter n none = Unit {0}
Shorter n (some rest) = length rest ≤ n

Shorter-suc : (n : ℕ) (o : Option (List ℕ)) → Shorter n o → Shorter (suc n) o
Shorter-suc n none h = tt
Shorter-suc n (some rest) h = omega arith

skip_csi-Shorter : (cs : List ℕ) → Shorter (length cs) (skip_csi cs)
unfolding skip_csi
skip_csi-Shorter [] = tt
skip_csi-Shorter (d ∷ ds) =
    if_intro (Shorter (suc (length ds))) (within 0x40 0x7E d) _ _ (λ _. omega arith)
      (λ _.
        if_intro (Shorter (suc (length ds))) (within 0x20 0x3F d) _ _
          (λ _. Shorter-suc (length ds) (skip_csi ds) (skip_csi-Shorter ds)) (λ _. tt))

skip_string-Shorter : (cap : ℕ) (cs : List ℕ) → Shorter (length cs) (skip_string cap cs)
unfolding skip_string
skip_string-Shorter cap [] = omega arith
skip_string-Shorter zero (b ∷ bs) = tt
skip_string-Shorter (suc cap) (b ∷ []) = omega arith
skip_string-Shorter (suc cap) (b ∷ c ∷ bs) =
    if_intro P (b == 0x07) _ _ (λ _. omega arith)
      (λ _.
        if_intro P ((b == 0x1B) && (c == 0x5C)) _ _ (λ _. omega arith)
          (λ _.
            Shorter-suc (suc (length bs)) (skip_string cap (c ∷ bs))
              (skip_string-Shorter cap (c ∷ bs))))
  where
    P : Option (List ℕ) → Type 0
    P = Shorter (suc (suc (length bs)))

or_abandon-le :
    (b : List ℕ) (o : Option (List ℕ)) → Shorter (length b) o → length (or_abandon b o) ≤ length b
unfolding or_abandon
or_abandon-le b none h = omega arith
or_abandon-le b (some rest) h = h

-- The scan never goes back behind the ESC.
after_esc-le : (b : List ℕ) → length (after_esc b) ≤ length b
unfolding after_esc
after_esc-le [] = omega arith
after_esc-le (c ∷ cs) =
    if_intro P (c == b'[') _ _
      (λ _.
        or_abandon-le (c ∷ cs) (skip_csi cs)
          (Shorter-suc (length cs) (skip_csi cs) (skip_csi-Shorter cs)))
      (λ _.
        if_intro P (is_string_introducer c) _ _
          (λ _. or_abandon-le (c ∷ cs) (skip_string string_payload_cap cs) (
            Shorter-suc (length cs) (skip_string string_payload_cap cs)
              (skip_string-Shorter string_payload_cap cs)))
          (λ _. omega arith))
  where
    P : List ℕ → Type 0
    P rest = length rest ≤ suc (length cs)

strip_loop-fuel :
    (f g : ℕ) (b : List ℕ) → length b ≤ f → length b ≤ g → strip_loop f b ≡ strip_loop g b
unfolding strip_loop
strip_loop-fuel zero zero b h k = refl
strip_loop-fuel zero (suc g) [] h k = refl
strip_loop-fuel zero (suc g) (c ∷ cs) h k = absurd (omega arith)
strip_loop-fuel (suc f) zero [] h k = refl
strip_loop-fuel (suc f) zero (c ∷ cs) h k = absurd (omega arith)
strip_loop-fuel (suc f) (suc g) [] h k = refl
strip_loop-fuel (suc f) (suc g) (c ∷ cs) h k =
    rw
      (
        strip_loop-fuel f g (drop 9 (c ∷ cs)) (omega (arith, length-drop 9 (c ∷ cs)))
            (omega (arith, length-drop 9 (c ∷ cs))),
        strip_loop-fuel f g (after_esc cs) (omega (arith, after_esc-le cs))
            (omega (arith, after_esc-le cs)),
        strip_loop-fuel f g cs (omega arith) (omega arith),
      )
      refl

-- The fuel of `StripANSI` is enough on any bytes: its result obeys the equation of the loop
-- without fuel, byte by byte.
pub strip_ansi-cons :
    (c : ℕ) (cs : List ℕ)
    → strip_ansi (c ∷ cs) ≡ (
        if has_prefix (c ∷ cs) sentinel_boundary
        then strip_ansi (drop (length sentinel_boundary) (c ∷ cs))
        else if c == 0x1B
        then strip_ansi (after_esc cs)
        else if c == 0x0A || c == 0x09
        then c ∷ strip_ansi cs
        else if ltb c 0x20
        then strip_ansi cs
        else c ∷ strip_ansi cs)
unfolding strip_ansi strip_loop
strip_ansi-cons c cs =
    rw
      (
        strip_loop-fuel (length cs) (length (drop 8 cs)) (drop 8 cs)
            (omega (arith, length-drop 8 cs)) (omega arith),
        strip_loop-fuel (length cs) (length (after_esc cs)) (after_esc cs)
            (omega (arith, after_esc-le cs)) (omega arith),
      )
      refl
