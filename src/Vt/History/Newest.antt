-- ===== src/Vt/History/Newest.antt =====
-- Taking the newest line back out of the history, as a taller screen does.
use mathlib.Core.List.{append-nil}
use pairmux.Prelude.{
  ℕ, zero, suc, ◌-◌, ◌<◌, ◌≡◌, ◌∙◌, refl, ap, sym, List, [], ◌∷◌, ◌++◌, ◌==◌, if◌then◌else◌, arith,
  inl, inr, length, get_or, take, drop, length-take, Bool-cases,
}
use pairmux.Vt.History.{History, len, pop_newest, pop_linear}
use pairmux.Vt.History.Contents.{contents, IsRing, length-contents}

split_last : (q : List (List ℕ)) (n : ℕ) → length q ≡ suc n → q ≡ take n q ++ (get_or q n [] ∷ [])
split_last [] n h = absurd (omega arith)
split_last (x ∷ []) zero h = refl
split_last (x ∷ y ∷ q) zero h = absurd (omega arith)
split_last (x ∷ q) (suc n) h = ap (◌∷◌ x) (split_last q n (omega arith))

-- The lines in order are the contents, whether or not the ring has turned.
linear-contents :
    (h : History)
    → (if h.head == 0 then h.lines else drop h.head h.lines ++ take h.head h.lines) ≡ contents h
unfolding contents
linear-contents h = elim (Bool-cases (h.head == 0)) [
  | inl e ↦
      let zero_head : h.head ≡ 0 = ground arith in rw (e, zero_head) (sym (append-nil h.lines))
  | inr e ↦ rw e
]

pop_newest-linear : (h : History) → pop_newest h ≡ pop_linear h (contents h)
unfolding pop_newest
pop_newest-linear h = ap (pop_linear h) (linear-contents h)

-- On a ring within its limit that is not empty, the queue of the lines is the queue that
-- `popNewest` leaves followed by the line that it returns.
pub contents-pop_newest :
    (h : History)
    → IsRing h
    → 0 < len h
    → contents h ≡ contents (pop_newest h).1 ++ ((pop_newest h).0 ∷ [])
contents-pop_newest h v pos =
    rw (pop_newest-linear h) (linear_split (contents h) (omega (arith, length-contents h v)))
  where
    linear_split :
        (q : List (List ℕ))
        → 0 < length q
        → q ≡ contents (pop_linear h q).1 ++ ((pop_linear h q).0 ∷ [])
    linear_split q p =
        unfold pop_linear contents in
        split_last q (length q - 1) (omega arith)
        ∙ ap (λ t. t ++ (get_or q (length q - 1) [] ∷ [])) (sym (append-nil _))

pop_newest-IsRing : (h : History) → IsRing h → IsRing (pop_newest h).1
pop_newest-IsRing h v = rw (pop_newest-linear h) (record {
  bounded =
      unfold pop_linear in
      omega
        (arith, length-take (length (contents h) - 1) (contents h), length-contents h v, v.bounded);
  head_in = unfold pop_linear in omega arith;
  head_lt = unfold pop_linear in λ ne. absurd (ne refl);
  turned = unfold pop_linear in λ ne. absurd (ne refl);
})
