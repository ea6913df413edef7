-- ===== src/Bytes/Lines.antt =====
-- Splitting text at a separator and joining it again.
use pairmux.Prelude.{
  ℕ, ◌≡◌, ◌≢◌, refl, ap, List, [], ◌∷◌, ◌++◌, true, false, not, ◌==◌, arith, if_intro, ◌∙◌,
}
use pairmux.Prelude.All.{All}
use pairmux.Bytes.{all_bytes, split, onto_first, join}

join-onto_first : (sep c : ℕ) (ps : List (List ℕ)) → join sep (onto_first c ps) ≡ c ∷ join sep ps
unfolding join onto_first
join-onto_first sep c [] = refl
join-onto_first sep c (p ∷ []) = refl
join-onto_first sep c (p ∷ q ∷ ps) = refl

onto_first-nonempty : (c : ℕ) (ps : List (List ℕ)) → onto_first c ps ≢ []
unfolding onto_first
onto_first-nonempty c [] = cc
onto_first-nonempty c (p ∷ ps) = cc

split-nonempty : (sep : ℕ) (b : List ℕ) → split sep b ≢ []
unfolding split
split-nonempty sep [] = cc
split-nonempty sep (c ∷ cs) =
    if_intro (λ parts. parts ≢ []) (c == sep) _ _ (λ _. cc)
      (λ _. onto_first-nonempty c (split sep cs))

-- The parts that the separator divides a text into, joined by it, are the text.
pub join-split : (sep : ℕ) (b : List ℕ) → join sep (split sep b) ≡ b
unfolding join split onto_first
join-split sep [] = refl
join-split sep (c ∷ cs) =
    if_intro (λ parts. join sep parts ≡ c ∷ cs) (c == sep) _ _
      (λ h.
        let same : c ≡ sep = ground arith in
        join-fresh (split sep cs) (split-nonempty sep cs) ∙ rw (same, join-split sep cs) refl)
      (λ _. join-onto_first sep c (split sep cs) ∙ ap (◌∷◌ c) (join-split sep cs))
  where
    join-fresh : (ps : List (List ℕ)) → (ps ≢ []) → join sep ([] ∷ ps) ≡ sep ∷ join sep ps
    join-fresh [] h = absurd (h refl)
    join-fresh (p ∷ ps) h = refl

-- A text without the separator is one part.
pub split-all :
    (sep : ℕ) (b : List ℕ) → all_bytes (λ c. not (c == sep)) b ≡ true → split sep b ≡ b ∷ []
unfolding split all_bytes onto_first
split-all sep [] h = refl
split-all sep (c ∷ cs) h =
    if_intro (λ parts. parts ≡ (c ∷ cs) ∷ []) (c == sep) _ _ (λ e. absurd (ground arith))
      (λ e. rw (split-all sep cs (ground arith)) refl)

-- A part has no separator in it.
abbrev pub IsPart : ℕ → List ℕ → Type 0
IsPart sep b = all_bytes (λ c. not (c == sep)) b ≡ true

-- A part up to the separator is the first of the parts.
pub split-append :
    (sep : ℕ) (b rest : List ℕ) → IsPart sep b → split sep (b ++ (sep ∷ rest)) ≡ b ∷ split sep rest
unfolding split all_bytes onto_first
split-append sep [] rest h = ground arith
split-append sep (c ∷ cs) rest h =
    if_intro (λ parts. parts ≡ (c ∷ cs) ∷ split sep rest) (c == sep) _ _
      (λ e. absurd (ground arith)) (λ e. rw (split-append sep cs rest (ground arith)) refl)

-- The parts, joined by the separator, are divided into the same parts.
pub split-join :
    (sep : ℕ) (p : List ℕ) (ps : List (List ℕ))
    → All (IsPart sep) (p ∷ ps)
    → split sep (join sep (p ∷ ps)) ≡ p ∷ ps
unfolding join
split-join sep p [] h = split-all sep p h.0
split-join sep p (q ∷ qs) h =
    split-append sep p (join sep (q ∷ qs)) h.0 ∙ ap (◌∷◌ p) (split-join sep q qs h.1)

pub split-IsPart : (sep : ℕ) (b : List ℕ) → All (IsPart sep) (split sep b)
unfolding split all_bytes
split-IsPart sep [] = (refl, tt)
split-IsPart sep (c ∷ cs) =
    if_intro (All (IsPart sep)) (c == sep) _ _ (λ _. (refl, split-IsPart sep cs))
      (λ e. onto (split sep cs) e (split-IsPart sep cs))
  where
    onto :
        (ps : List (List ℕ))
        → (c == sep) ≡ false
        → All (IsPart sep) ps
        → All (IsPart sep) (onto_first c ps)
    onto [] e h = (ground arith, tt)
    onto (p ∷ ps) e h = (ground arith, h.1)
