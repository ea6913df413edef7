-- ===== src/Journal/Events/Pending.antt =====
-- The command whose completion is not recorded.
use pairmux.Prelude.{
  ℕ, suc, ◌-◌, ◌^◌, ◌≡◌, refl, sym, ap, ◌∙◌, List, [], ◌∷◌, ◌++◌, Option, none, some, true, false,
  not, ◌&&◌, ◌||◌, arith, if_intro,
}
use pairmux.Prelude.All.{All}
use pairmux.Bytes.Numbers.{ℤ, pos, negsuc}
use pairmux.Core.{Event, cmd_start, cmd_end}
use pairmux.Journal.Events.{next_cmd_id, int_eq, is_start, is_end, is_ended, or_first, pending_cmd}
use pairmux.Journal.Events.Ids.{AtMost, next_cmd_id-IsFresh}

-- Every command that is started is ended later on.
abbrev Settled : List Event → Type 0
Settled [] = Unit
Settled (ev ∷ evs) = (is_start ev.event_type ≡ true → is_ended ev.cmd_id evs ≡ true) × Settled evs

-- The last start that no later end answers, none when all are settled.
abbrev pub IsLatest : List Event → Option Event → Type 0
IsLatest evs none = Settled evs
IsLatest evs (some ev) =
    (before : List Event) × ((later : List Event) × ((evs ≡ before ++ (ev ∷ later))
        × ((is_start ev.event_type ≡ true) × ((is_ended ev.cmd_id later ≡ false) × Settled later))))

or_first-IsLatest :
    (o : Option Event) (ev : Event) (evs : List Event)
    → IsLatest evs o
    → IsLatest (ev ∷ evs) (or_first o ev evs)
unfolding or_first
or_first-IsLatest (some x) ev evs (before, (later, (e, rest))) =
    (ev ∷ before, (later, (ap (◌∷◌ ev) e, rest)))
or_first-IsLatest none ev evs h =
    if_intro (IsLatest (ev ∷ evs)) (is_start ev.event_type && not (is_ended ev.cmd_id evs)) _ _
      (λ e. ([], (evs, (refl, (ground arith, (ground arith, h))))))
      (λ e. (λ started. ground arith, h))

-- For any log, `PendingCmd` returns a start that no later end answers and behind which every start
-- is answered by a later end, and nothing only if every start of the log is answered.
pub pending_cmd-IsLatest : (evs : List Event) → IsLatest evs (pending_cmd evs)
unfolding pending_cmd
pending_cmd-IsLatest [] = tt
pending_cmd-IsLatest (ev ∷ evs) =
    or_first-IsLatest (pending_cmd evs) ev evs (pending_cmd-IsLatest evs)

pub is_ended-append :
    (id : ℤ) (evs later : List Event)
    → is_ended id (evs ++ later) ≡ (is_ended id evs || is_ended id later)
unfolding is_ended
is_ended-append id [] later = refl
is_ended-append id (ev ∷ evs) later = ground (arith, is_ended-append id evs later)

-- Behind events that leave a command pending, the earlier ones do not matter.
pub pending_cmd-later :
    (evs later : List Event) (ev : Event)
    → pending_cmd later ≡ some ev
    → pending_cmd (evs ++ later) ≡ some ev
unfolding pending_cmd or_first
pending_cmd-later [] later ev h = h
pending_cmd-later (x ∷ xs) later ev h = rw (pending_cmd-later xs later ev h) refl

pub above : (n : ℕ) (id : ℤ) → AtMost n id → int_eq (pos (suc n)) id ≡ false
unfolding int_eq
above n (pos m) h = ground arith
above n (negsuc m) h = refl

or_first-eq :
    (o : Option Event) (ev : Event) (xs ys : List Event)
    → is_ended ev.cmd_id xs ≡ is_ended ev.cmd_id ys
    → or_first o ev xs ≡ or_first o ev ys
unfolding or_first
or_first-eq (some x) ev xs ys e = refl
or_first-eq none ev xs ys e = rw e refl

-- Events that leave nothing pending, and end no command of the log, leave the log as it was.
pub pending_cmd-settled :
    (evs later : List Event)
    → pending_cmd later ≡ none
    → All (λ (ev : Event). is_ended ev.cmd_id later ≡ false) evs
    → pending_cmd (evs ++ later) ≡ pending_cmd evs
unfolding pending_cmd
pending_cmd-settled [] later h k = h
pending_cmd-settled (x ∷ xs) later h k = rw (pending_cmd-settled xs later h k.1) (
    or_first-eq (pending_cmd xs) x (xs ++ later) xs
      (is_ended-append x.cmd_id xs later ∙ ground (arith, k.0)))

-- The two events of a command that runs to its end.
abbrev pub IsRun : List Event → Event → Event → Type 0
IsRun evs start stop =
    ((start.event_type ≡ cmd_start) × (start.cmd_id ≡ next_cmd_id evs))
    × ((stop.event_type ≡ cmd_end) × (stop.cmd_id ≡ next_cmd_id evs))

pub int_eq_refl : (id : ℤ) → int_eq id id ≡ true
unfolding int_eq
int_eq_refl (pos n) = ground arith
int_eq_refl (negsuc n) = ground arith

run-none :
    (start stop : Event)
    → stop.event_type ≡ cmd_end
    → stop.cmd_id ≡ start.cmd_id
    → pending_cmd (start ∷ stop ∷ []) ≡ none
unfolding pending_cmd or_first is_ended is_start is_end
run-none start stop t e = rw (t, e, int_eq_refl start.cmd_id) (ground arith)

-- A command with an id above all those of the log ends none of them.
run-apart :
    (n : ℕ) (start stop : Event) (evs : List Event)
    → start.event_type ≡ cmd_start
    → stop.cmd_id ≡ pos (suc n)
    → All (λ (ev : Event). AtMost n ev.cmd_id) evs
    → All (λ (ev : Event). is_ended ev.cmd_id (start ∷ stop ∷ []) ≡ false) evs
unfolding is_ended is_end
run-apart n start stop [] s t h = tt
run-apart n start stop (x ∷ xs) s t h =
    (rw (s, t, above n x.cmd_id h.0) (ground arith), run-apart n start stop xs s t h.1)

-- If the ids of a log leave room for another, logging the start of a command with the next id
-- makes it the pending one, and logging its end as well leaves pending what was pending before.
pub pending_cmd-run :
    (evs : List Event) (start stop : Event)
    → All (λ (ev : Event). AtMost (2 ^ 63 - 2) ev.cmd_id) evs
    → IsRun evs start stop
    → (pending_cmd (evs ++ (start ∷ [])) ≡ some start)
      × (pending_cmd (evs ++ (start ∷ stop ∷ [])) ≡ pending_cmd evs)
unfolding pending_cmd or_first is_ended is_start
pending_cmd-run evs start stop h ((s1, s2), (t1, t2)) =
    let fresh = next_cmd_id-IsFresh evs h in
    (
      pending_cmd-later evs (start ∷ []) start (rw s1 refl),
      pending_cmd-settled evs (start ∷ stop ∷ []) (run-none start stop t1 (t2 ∙ sym s2))
          (run-apart fresh.0 start stop evs s1 (t2 ∙ fresh.1.0) fresh.1.1.0),
    )
