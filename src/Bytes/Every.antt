-- ===== src/Bytes/Every.antt =====
-- A property of every byte of a text, and the operations that keep it.
use pairmux.Prelude.{ℕ, List, [], ◌∷◌, Bool, ◌&&◌, ◌==◌, if_intro}
use pairmux.Prelude.All.{All, All-append}
use pairmux.Bytes.{split, onto_first, join, trim_end, is_empty}

module _ (P : ℕ → Type 0) where
  All-onto_first :
      (c : ℕ) (ps : List (List ℕ)) → P c → All (All P) ps → All (All P) (onto_first c ps)
  unfolding onto_first
  All-onto_first c [] p h = ((p, tt), tt)
  All-onto_first c (x ∷ xs) p h = ((p, h.0), h.1)

  -- What holds of every byte of a text holds of every byte of its parts.
  pub All-split : (sep : ℕ) (b : List ℕ) → All P b → All (All P) (split sep b)
  unfolding split
  All-split sep [] h = (tt, tt)
  All-split sep (c ∷ cs) h =
      if_intro (All (All P)) (c == sep) _ _ (λ _. (tt, All-split sep cs h.1))
        (λ _. All-onto_first c (split sep cs) h.0 (All-split sep cs h.1))

  pub All-join : (sep : ℕ) (ps : List (List ℕ)) → P sep → All (All P) ps → All P (join sep ps)
  unfolding join
  All-join sep [] p h = tt
  All-join sep (x ∷ []) p h = h.0
  All-join sep (x ∷ y ∷ ys) p h = All-append P x _ h.0 (p, All-join sep (y ∷ ys) p h.1)

pub All-trim_end {ℓ κ} :
    {A : Type ℓ} (P : A → Type κ) (test : A → Bool) (xs : List A)
    → All P xs
    → All P (trim_end test xs)
unfolding trim_end
All-trim_end P test [] h = tt
All-trim_end P test (x ∷ xs) h =
    if_intro (All P) (is_empty (trim_end test xs) && test x) _ _ (λ _. tt)
      (λ _. (h.0, All-trim_end P test xs h.1))
