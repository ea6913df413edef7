-- ===== src/Journal/Events/Ids.antt =====
-- The number that the next command gets.
use pairmux.Prelude.{ℕ, suc, ◌+◌, ◌-◌, ◌^◌, ◌≤◌, ◌≡◌, ap, List, [], ◌∷◌, ◌==◌, arith, if_intro}
use pairmux.Prelude.All.{All}
use pairmux.Bytes.Numbers.{ℤ, pos, negsuc}
use pairmux.Core.{Event}
use pairmux.Journal.Events.{raise_max, max_cmd_id, succ_int, next_cmd_id}

-- At most a number.
abbrev pub AtMost : ℕ → ℤ → Type 0
AtMost n (pos m) = m ≤ n
AtMost n (negsuc m) = Unit {0}

raise_max-le : (max : ℕ) (id : ℤ) → max ≤ raise_max max id
unfolding raise_max
raise_max-le max (pos n) = ground arith
raise_max-le max (negsuc n) = omega arith

max_cmd_id-le : (max : ℕ) (evs : List Event) → max ≤ max_cmd_id max evs
unfolding max_cmd_id
max_cmd_id-le max [] = omega arith
max_cmd_id-le max (ev ∷ evs) =
    omega (arith, raise_max-le max ev.cmd_id, max_cmd_id-le (raise_max max ev.cmd_id) evs)

raised : (max top : ℕ) (id : ℤ) → raise_max max id ≤ top → AtMost top id
unfolding raise_max
raised max top (pos n) h = ground arith
raised max top (negsuc n) h = tt

max_cmd_id-AtMost :
    (max : ℕ) (evs : List Event) → All (λ (ev : Event). AtMost (max_cmd_id max evs) ev.cmd_id) evs
unfolding max_cmd_id
max_cmd_id-AtMost max [] = tt
max_cmd_id-AtMost max (ev ∷ evs) = (
  raised max (max_cmd_id (raise_max max ev.cmd_id) evs) ev.cmd_id
      (max_cmd_id-le (raise_max max ev.cmd_id) evs),
  max_cmd_id-AtMost (raise_max max ev.cmd_id) evs,
)

raise_max-below : (max top : ℕ) (id : ℤ) → max ≤ top → AtMost top id → raise_max max id ≤ top
unfolding raise_max
raise_max-below max top (pos n) h k = ground arith
raise_max-below max top (negsuc n) h k = h

max_cmd_id-below :
    (max top : ℕ) (evs : List Event)
    → max ≤ top
    → All (λ (ev : Event). AtMost top ev.cmd_id) evs
    → max_cmd_id max evs ≤ top
unfolding max_cmd_id
max_cmd_id-below max top [] h k = h
max_cmd_id-below max top (ev ∷ evs) h k =
    max_cmd_id-below (raise_max max ev.cmd_id) top evs (raise_max-below max top ev.cmd_id h k.0) k.1

-- A number from 1 on above all ids of the log, and no more than one above their bound.
abbrev IsFresh : List Event → ℤ → Type 0
IsFresh evs id =
    (n : ℕ) × ((id ≡ pos (suc n))
      × (All (λ (ev : Event). AtMost n ev.cmd_id) evs
          × ((top : ℕ) → All (λ (ev : Event). AtMost top ev.cmd_id) evs → n ≤ top)))

-- If no id of a log is above 2^63 - 2, the next id is positive, above every id of the log, and one
-- more than the least number that bounds them.
pub next_cmd_id-IsFresh :
    (evs : List Event)
    → All (λ (ev : Event). AtMost (2 ^ 63 - 2) ev.cmd_id) evs
    → IsFresh evs (next_cmd_id evs)
unfolding next_cmd_id succ_int
next_cmd_id-IsFresh evs h =
    let top : ℕ = max_cmd_id 0 evs in
    let small : top ≤ 2 ^ 63 - 2 = max_cmd_id-below 0 (2 ^ 63 - 2) evs (omega arith) h in
    (
      top,
      (
        if_intro (λ (id : ℤ). id ≡ pos (suc top)) (top + 1 == 2 ^ 63) _ _
            (λ e. absurd (ground arith)) (λ _. ap pos (omega arith)),
        (max_cmd_id-AtMost 0 evs, λ t k. max_cmd_id-below 0 t evs (omega arith) k),
      ),
    )
