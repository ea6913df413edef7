-- ===== src/Detect/Ready/Prompts.antt =====
-- Which marks end the prompt cycle of a new shell.
use pairmux.Prelude.{
  ◌+◌, ◌≡◌, refl, List, [], ◌∷◌, Bool, true, false, ◌&&◌, ◌||◌, ltb, leb, arith, ap, ◌∙◌,
  Bool-cases, inl, inr,
}
use pairmux.Detect.Ready.{Cycle, cycle_mark, cycle_next, cycle_marks}
use pairmux.Detect.Scanner.{
  Mark, MarkKind, mark_a, mark_b, mark_c, mark_d, mark_sentinel, mark_boundary,
}
use pairmux.Detect.Watch.{is_kind}

-- Whether an A stands behind another A or a D, `earlier` being what is known from before.
abbrev is_cycled : Bool → List Mark → Bool
is_cycled earlier [] = false
is_cycled earlier (m ∷ ms) =
    (is_kind m.kind mark_a && earlier)
    || is_cycled (earlier || (is_kind m.kind mark_a || is_kind m.kind mark_d)) ms

d-ne-a : (k : MarkKind) → is_kind k mark_d ≡ true → is_kind k mark_a ≡ false
unfolding is_kind
d-ne-a mark_a h = cc
d-ne-a mark_b h = refl
d-ne-a mark_c h = refl
d-ne-a mark_d h = refl
d-ne-a mark_sentinel h = refl
d-ne-a mark_boundary h = refl

cycle_next-or :
    (c : Cycle) (now earlier later : Bool) (rest : Cycle × Bool)
    → now ≡ earlier
    → rest.1 ≡ later
    → (cycle_next (c, now) rest).1 ≡ (earlier || later)
unfolding cycle_next
cycle_next-or c true earlier later rest h k = rw (← h) refl
cycle_next-or c false earlier later rest h k = rw (← h) k

-- The marks end the wait exactly if a prompt follows a D or another prompt, what was seen before
-- included.
cycle_marks-eq-is_cycled :
    (c : Cycle) (ms : List Mark) → (cycle_marks c ms).1 ≡ is_cycled (c.saw_d || ltb 0 c.prompts) ms
unfolding cycle_marks cycle_mark cycle_next
cycle_marks-eq-is_cycled c [] = refl
cycle_marks-eq-is_cycled c (m ∷ ms) =
    let after_d = cycle_marks-eq-is_cycled (record c { saw_d = true }) ms in
    let after_a = cycle_marks-eq-is_cycled (record c { prompts = c.prompts + 1 }) ms in
    let after_other = cycle_marks-eq-is_cycled c ms in
    elim (Bool-cases (is_kind m.kind mark_d)) [
      | inl d ↦ rw (d, d-ne-a m.kind d) (after_d ∙ ap (λ b. is_cycled b ms) (ground arith))
      | inr not_d ↦ elim (Bool-cases (is_kind m.kind mark_a)) [
        | inl a ↦
            rw (not_d, a)
              (cycle_next-or (record c { prompts = c.prompts + 1 })
                (c.saw_d || leb 2 (c.prompts + 1)) (c.saw_d || ltb 0 c.prompts) _ _ (ground arith)
                (after_a ∙ ap (λ b. is_cycled b ms) (ground arith)))
        | inr not_a ↦ rw (not_d, not_a) (after_other ∙ ap (λ b. is_cycled b ms) (ground arith))
      ]
    ]
