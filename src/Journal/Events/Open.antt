-- ===== src/Journal/Events/Open.antt =====
-- A log in which one command at most is not settled.
use pairmux.Prelude.{
  ℕ, suc, ◌-◌, ◌^◌, ◌≡◌, ◌⊎◌, refl, ap, subst, ◌∙◌, List, [], ◌∷◌, ◌++◌, none, some, true, false,
  arith,
}
use pairmux.Prelude.All.{All, All-append}
use mathlib.Core.List.{append_assoc}
use pairmux.Bytes.Numbers.{ℤ, pos}
use pairmux.Core.{Event, EventType, created, cmd_start, cmd_end, note, sent}
use pairmux.Journal.Events.{next_cmd_id, int_eq, is_start, is_end, is_ended, or_first, pending_cmd}
use pairmux.Journal.Events.Ids.{AtMost, next_cmd_id-IsFresh}
use pairmux.Journal.Events.Pending.{
  above, int_eq_refl, is_ended-append, pending_cmd-later, pending_cmd-settled,
}

-- An event that neither starts nor ends a command.
abbrev pub IsQuiet : Event → Type 0
IsQuiet ev = (is_start ev.event_type ≡ false) × (is_end ev.event_type ≡ false)

-- All commands are settled up to the start `ev`, whose number is new, and quiet events follow it.
abbrev pub IsOpen : List Event → Event → Type 0
IsOpen evs ev =
    (before : List Event) × ((mids : List Event) × ((n : ℕ) × ((evs ≡ before ++ (ev ∷ mids))
          × ((is_start ev.event_type ≡ true)
              × ((ev.cmd_id ≡ pos (suc n))
                  × ((pending_cmd before ≡ none)
                      × (All (λ (x : Event). AtMost n x.cmd_id) before × All IsQuiet mids)))))))

abbrev pub IsOrderly : List Event → Type 0
IsOrderly evs = (pending_cmd evs ≡ none) ⊎ ((ev : Event) × IsOpen evs ev)

quiet-none : (evs : List Event) → All IsQuiet evs → pending_cmd evs ≡ none
unfolding pending_cmd or_first
quiet-none [] h = refl
quiet-none (ev ∷ evs) h = rw (quiet-none evs h.1) (ground (arith, h.0.0))

quiet-not_ended : (id : ℤ) (evs : List Event) → All IsQuiet evs → is_ended id evs ≡ false
unfolding is_ended
quiet-not_ended id [] h = refl
quiet-not_ended id (ev ∷ evs) h = ground (arith, h.0.1, quiet-not_ended id evs h.1)

-- The open command is the pending one.
pub pending_cmd-IsOpen : (evs : List Event) (ev : Event) → IsOpen evs ev → pending_cmd evs ≡ some ev
unfolding pending_cmd or_first
pending_cmd-IsOpen evs ev (before, (mids, (n, (e, (s, (i, (p, (a, q)))))))) = rw e (
    pending_cmd-later before (ev ∷ mids) ev
      (rw (quiet-none mids q, quiet-not_ended ev.cmd_id mids q, s) refl))

-- A start with the next number opens a command.
pub start-IsOpen :
    (evs : List Event) (ev : Event)
    → pending_cmd evs ≡ none
    → All (λ (x : Event). AtMost (2 ^ 63 - 2) x.cmd_id) evs
    → is_start ev.event_type ≡ true
    → ev.cmd_id ≡ next_cmd_id evs
    → IsOpen (evs ++ (ev ∷ [])) ev
start-IsOpen evs ev p h s i =
    let fresh = next_cmd_id-IsFresh evs h in
    (evs, ([], (fresh.0, (refl, (s, (i ∙ fresh.1.0, (p, (fresh.1.1.0, tt))))))))

-- Quiet events leave it open.
pub later-IsOpen :
    (evs later : List Event) (ev : Event)
    → IsOpen evs ev
    → All IsQuiet later
    → IsOpen (evs ++ later) ev
later-IsOpen evs later ev (before, (mids, (n, (e, (s, (i, (p, (a, q)))))))) l = (
  before,
  (
    mids ++ later,
    (
      n,
      (
        ap (λ x. x ++ later) e ∙ append_assoc before (ev ∷ mids) later,
        (s, (i, (p, (a, All-append IsQuiet mids later q l)))),
      ),
    ),
  ),
)

-- Quiet events and an end leave nothing pending.
quiet-end :
    (mids : List Event) (stop : Event)
    → All IsQuiet mids
    → is_start stop.event_type ≡ false
    → pending_cmd (mids ++ (stop ∷ [])) ≡ none
unfolding pending_cmd or_first
quiet-end [] stop q s = ground (arith, s)
quiet-end (ev ∷ mids) stop q s = rw (quiet-end mids stop q.1 s) (ground (arith, q.0.0))

-- No event is both a start and an end.
end_no_start : (t : EventType) → is_end t ≡ true → is_start t ≡ false
unfolding is_end is_start
end_no_start created h = refl
end_no_start cmd_start h = cc
end_no_start cmd_end h = refl
end_no_start note h = refl
end_no_start sent h = refl

start_no_end : (t : EventType) → is_start t ≡ true → is_end t ≡ false
unfolding is_end is_start
start_no_end created h = refl
start_no_end cmd_start h = refl
start_no_end cmd_end h = cc
start_no_end note h = refl
start_no_end sent h = refl

module _ (ev stop : Event) (started : is_start ev.event_type ≡ true)
    (ends : is_end stop.event_type ≡ true) where
  -- The start and the end of one command.
  settled_none :
      (mids : List Event)
      → All IsQuiet mids
      → stop.cmd_id ≡ ev.cmd_id
      → pending_cmd (ev ∷ (mids ++ (stop ∷ []))) ≡ none
  unfolding pending_cmd or_first is_ended
  settled_none mids q c =
      let same : int_eq stop.cmd_id ev.cmd_id ≡ true = rw c (int_eq_refl ev.cmd_id) in
      let ended : is_ended ev.cmd_id (mids ++ (stop ∷ [])) ≡ true =
        rw (is_ended-append ev.cmd_id mids (stop ∷ []), ends, same) (ground arith) in
      rw (quiet-end mids stop q (end_no_start stop.event_type ends), ended) (ground arith)

  not_ended :
      (mids : List Event) (n : ℕ) (id : ℤ)
      → All IsQuiet mids
      → stop.cmd_id ≡ pos (suc n)
      → AtMost n id
      → is_ended id (ev ∷ (mids ++ (stop ∷ []))) ≡ false
  unfolding is_ended
  not_ended mids n id q c le =
      let apart : int_eq stop.cmd_id id ≡ false = rw c (above n id le) in
      rw
        (
          is_ended-append id mids (stop ∷ []),
          quiet-not_ended id mids q,
          start_no_end ev.event_type started,
          apart,
        )
        (ground arith)

  all_not_ended :
      (mids : List Event) (n : ℕ) (evs : List Event)
      → All IsQuiet mids
      → stop.cmd_id ≡ pos (suc n)
      → All (λ (x : Event). AtMost n x.cmd_id) evs
      → All (λ (x : Event). is_ended x.cmd_id (ev ∷ (mids ++ (stop ∷ []))) ≡ false) evs
  all_not_ended mids n [] q c a = tt
  all_not_ended mids n (x ∷ evs) q c a =
      (not_ended mids n x.cmd_id q c a.0, all_not_ended mids n evs q c a.1)

-- The end of the open command settles the log.
pub end-IsOpen :
    (evs : List Event) (ev stop : Event)
    → IsOpen evs ev
    → is_end stop.event_type ≡ true
    → stop.cmd_id ≡ ev.cmd_id
    → pending_cmd (evs ++ (stop ∷ [])) ≡ none
end-IsOpen evs ev stop (before, (mids, (n, (e, (s, (i, (p, (a, q)))))))) t c =
    let later : List Event = ev ∷ (mids ++ (stop ∷ [])) in
    let regrouped : evs ++ (stop ∷ []) ≡ before ++ later =
      ap (λ x. x ++ (stop ∷ [])) e ∙ append_assoc before (ev ∷ mids) (stop ∷ []) in
    rw regrouped (
      pending_cmd-settled before later (settled_none ev stop s t mids q c)
        (all_not_ended ev stop s t mids n before q (c ∙ i) a)
      ∙ p)

-- The number of the open command is one of the log.
pub AtMost-IsOpen :
    (top : ℕ) (evs : List Event) (ev : Event)
    → IsOpen evs ev
    → All (λ (x : Event). AtMost top x.cmd_id) evs
    → AtMost top ev.cmd_id
AtMost-IsOpen top evs ev (before, (mids, (n, (e, _)))) h =
    member before (subst (All (λ (x : Event). AtMost top x.cmd_id)) e h)
  where
    member :
        (b : List Event)
        → All (λ (x : Event). AtMost top x.cmd_id) (b ++ (ev ∷ mids))
        → AtMost top ev.cmd_id
    member [] k = k.0
    member (x ∷ b) k = member b k.1
