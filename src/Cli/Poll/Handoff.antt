-- ===== src/Cli/Poll/Handoff.antt =====
-- What a handoff to a human reveals.
use pairmux.Prelude.{
  ℕ, ◌-◌, ◌≡◌, refl, List, [], Option, none, some, Bool, true, false, not, ◌&&◌, ◌||◌, leb, ◌==◌,
  if◌then◌else◌, arith, if_intro,
}
use pairmux.Bytes.{is_empty}
use pairmux.Core.{Event, Status, idle, running, dead, unknown, awaiting_input}
use pairmux.Cli.Wait.{new_note, terminal_status_after_quiet}
use pairmux.Cli.Poll.{
  poll_pattern, note_status, poll_note, completion_envelope, poll_watcher, poll_completion,
  arm_at_prompt, scan_answer, derive_terminal_status, state_body, dead_body, answered_status,
  answered_envelope, settle_answer, prompting, current_tail, is_awaiting, is_dead, check_status,
  check_found, check_state, poll_target, journal_quiet,
}
use pairmux.Cli.Target.{
  Target, Spec, Found, unreachable, missing, alive, Tick, EnvelopeStatus, pattern_found, note_seen,
  human_done, command_done, in_state, Polled, failing, not_yet, ended, then_poll, ended_by,
  answered_settle,
}
use pairmux.Detect.Prompt.{Prompt, refine_quiet, classify_after}
use pairmux.Detect.Status.{recent_status, pending_status, derive_status}
use pairmux.Detect.Watch.{Watcher, Poll, read_error, still_running, completed, poll}
use pairmux.Journal.Events.{pending_cmd}

-- The text of a note of the log, the last lines of a terminal that is dead, and else no output;
-- never the question that the human is to answer.
abbrev pub IsShown : Tick → EnvelopeStatus → List ℕ → Type 0
IsShown tick pattern_found out = ⊥
IsShown tick note_seen out = ⊥
IsShown tick human_done out =
    (evs : List Event) × ((base : ℕ) × ((tick.events ≡ some evs) × (new_note evs base ≡ some out)))
IsShown tick (command_done code) out = is_empty out ≡ true
IsShown tick (in_state idle) out = is_empty out ≡ true
IsShown tick (in_state running) out = is_empty out ≡ true
IsShown tick (in_state dead) out = out ≡ current_tail tick.log
IsShown tick (in_state unknown) out = is_empty out ≡ true
IsShown tick (in_state awaiting_input) out = ⊥

abbrev pub IsDiscreet : Tick → Polled → Type 0
IsDiscreet tick failing = Unit {0}
IsDiscreet tick not_yet = Unit {0}
IsDiscreet tick (ended e) = IsShown tick e.status e.output

then_poll-IsDiscreet :
    (tick : Tick) (r : Target × Polled) (next : Target → Target × Polled)
    → IsDiscreet tick r.1
    → ((t : Target) → IsDiscreet tick (next t).1)
    → IsDiscreet tick (then_poll r next).1
unfolding then_poll
then_poll-IsDiscreet tick (t, failing) next h k = tt
then_poll-IsDiscreet tick (t, not_yet) next h k = k t
then_poll-IsDiscreet tick (t, ended e) next h k = h

note-IsDiscreet :
    (tick : Tick) (human : Bool) (evs : List Event) (base : ℕ) (o : Option (List ℕ))
    → human ≡ true
    → tick.events ≡ some evs
    → new_note evs base ≡ o
    → IsDiscreet tick (ended_by (note_status human) o)
unfolding ended_by note_status
note-IsDiscreet tick true evs base none h e n = tt
note-IsDiscreet tick true evs base (some text) h e n = (evs, (base, (e, n)))
note-IsDiscreet tick false evs base o h e n = cc

poll_note-IsDiscreet :
    (spec : Spec) (tick : Tick) (t : Target)
    → spec.human ≡ true
    → IsDiscreet tick (poll_note spec tick t).1
unfolding poll_note
poll_note-IsDiscreet spec tick t h = of_events tick.events refl
  where
    P : Target × Polled → Type 0
    P r = IsDiscreet tick r.1

    of_events :
        (o : Option (List Event))
        → tick.events ≡ o
        → P (elim o [
          | none ↦ (t, not_yet)
          | some evs ↦
              if spec.wait_note
              then (t, ended_by (note_status spec.human) (new_note evs t.base_events))
              else (t, not_yet)
        ])
    of_events none e = tt
    of_events (some evs) e =
        if_intro P spec.wait_note _ _
          (λ _.
            note-IsDiscreet tick spec.human evs t.base_events (new_note evs t.base_events) h e refl)
          (λ _. tt)

poll_watcher-IsDiscreet :
    (spec : Spec) (tick : Tick) (t : Target) (r : Watcher × Poll)
    → spec.human ≡ true
    → IsDiscreet tick (poll_watcher spec tick t r).1
unfolding poll_watcher completion_envelope is_empty
poll_watcher-IsDiscreet spec tick t (w, read_error) h = tt
poll_watcher-IsDiscreet spec tick t (w, still_running) h = tt
poll_watcher-IsDiscreet spec tick t (w, completed res) h =
    if_intro (λ (out : List ℕ). is_empty out ≡ true) (not spec.human) _ _
      (λ shown. absurd (ground (arith, h, shown))) (λ _. refl)

poll_completion-IsDiscreet :
    (spec : Spec) (tick : Tick) (t : Target)
    → spec.human ≡ true
    → IsDiscreet tick (poll_completion spec tick t).1
unfolding poll_completion
poll_completion-IsDiscreet spec tick t h = of_watcher t.completion
  where
    P : Target × Polled → Type 0
    P r = IsDiscreet tick r.1

    of_watcher :
        (o : Option Watcher)
        → P (elim o [
          | none ↦ (t, not_yet)
          | some w ↦ poll_watcher spec tick t (poll w tick.log tick.now tick.now)
        ])
    of_watcher none = tt
    of_watcher (some w) = poll_watcher-IsDiscreet spec tick t _ h

-- No status that is derived from the journal asks for input.
pending_status-settled :
    (tick : Tick) (t : Target) (o : Option Event)
    → is_awaiting (pending_status tick.log t.mode tick.age o) ≡ false
unfolding pending_status recent_status is_awaiting
pending_status-settled tick t none = of_age tick.age
  where
    of_age : (o : Option ℕ) → is_awaiting (recent_status t.mode o) ≡ false
    of_age none = refl
    of_age (some age) = if_intro (λ s. is_awaiting s ≡ false) _ unknown idle (λ _. refl) (λ _. refl)
pending_status-settled tick t (some ev) =
    if_intro (λ s. is_awaiting s ≡ false) _ idle running (λ _. refl) (λ _. refl)

derive_status-settled :
    (up : Bool) (tick : Tick) (t : Target) (evs : Option (List Event))
    → is_awaiting (derive_status up tick.log evs t.mode tick.age) ≡ false
unfolding derive_status is_awaiting
derive_status-settled false tick t evs = refl
derive_status-settled true tick t none = refl
derive_status-settled true tick t (some evs) = pending_status-settled tick t (pending_cmd evs)

derive_terminal_status-settled :
    (up program : Bool) (tick : Tick) (t : Target)
    → is_awaiting (derive_terminal_status up program tick t) ≡ false
unfolding derive_terminal_status
derive_terminal_status-settled up program tick t =
    if_intro (λ s. is_awaiting s ≡ false) (up && program) _ _ (λ _. unfold is_awaiting in refl)
      (λ _. derive_status-settled up tick t tick.events)

dead_body-IsShown :
    (tick : Tick) (s : Status)
    → is_awaiting s ≡ false
    → IsShown tick (in_state s) (dead_body tick s)
unfolding is_awaiting dead_body is_empty
dead_body-IsShown tick idle h = refl
dead_body-IsShown tick running h = refl
dead_body-IsShown tick dead h = refl
dead_body-IsShown tick unknown h = refl
dead_body-IsShown tick awaiting_input h = cc

answered_envelope-IsDiscreet :
    (f : Found) (tick : Tick) (t : Target) → IsDiscreet tick (answered_envelope f tick t)
unfolding answered_envelope answered_status
answered_envelope-IsDiscreet unreachable tick t = tt
answered_envelope-IsDiscreet missing tick t =
    dead_body-IsShown tick (derive_terminal_status false t.program tick t)
      (derive_terminal_status-settled false t.program tick t)
answered_envelope-IsDiscreet (alive up program) tick t =
    dead_body-IsShown tick (derive_terminal_status up t.program tick t)
      (derive_terminal_status-settled up t.program tick t)

settle_answer-IsDiscreet : (tick : Tick) (t : Target) → IsDiscreet tick (settle_answer tick t).1
unfolding settle_answer
settle_answer-IsDiscreet tick t =
    if_intro P (t.watch_answered && t.answer_submitted) _ _
      (λ _.
        if_intro P (prompting tick) _ _ (λ _. tt)
          (λ _.
            if_intro (IsDiscreet tick)
              (leb answered_settle
                (tick.now - (if t.answered_at == 0 then tick.now else t.answered_at)))
              _ _ (λ _. answered_envelope-IsDiscreet tick.found tick t) (λ _. tt)))
      (λ _. tt)
  where
    P : Target × Polled → Type 0
    P r = IsDiscreet tick r.1

check_status-IsDiscreet :
    (spec : Spec) (tick : Tick) (t : Target) (status : Status) (prompt : Prompt)
    → spec.human ≡ true
    → IsDiscreet tick (check_status spec tick t (status, prompt)).1
unfolding check_status terminal_status_after_quiet is_awaiting is_dead state_body is_empty
check_status-IsDiscreet spec tick t idle prompt h =
    if_intro (IsDiscreet tick) ((spec.wait_idle || false) && not (spec.human && false))
      (ended (record { status = in_state idle; output = [] })) not_yet (λ _. refl) (λ _. tt)
check_status-IsDiscreet spec tick t running prompt h = tt
check_status-IsDiscreet spec tick t dead prompt h =
    if_intro (IsDiscreet tick) ((spec.wait_idle || true) && not (spec.human && false))
      (ended (record { status = in_state dead; output = state_body tick prompt dead })) not_yet
      (λ _. refl) (λ _. tt)
check_status-IsDiscreet spec tick t unknown prompt h = tt
check_status-IsDiscreet spec tick t awaiting_input prompt h =
    if_intro (IsDiscreet tick) ((spec.wait_idle || false) && not (spec.human && true)) _ _
      (λ shown. absurd (ground (arith, h, shown))) (λ _. tt)

check_found-IsDiscreet :
    (spec : Spec) (tick : Tick) (t : Target) (f : Found)
    → spec.human ≡ true
    → IsDiscreet tick (check_found spec tick t f).1
unfolding check_found
check_found-IsDiscreet spec tick t unreachable h = tt
check_found-IsDiscreet spec tick t missing h = refl
check_found-IsDiscreet spec tick t (alive up program) h =
    let found : Status × Prompt =
      classify_after tick.words tick.log tick.disc tick.fg tick.age refine_quiet
        (derive_terminal_status up program tick t) in
    check_status-IsDiscreet spec tick t found.0 found.1 h

check_state-IsDiscreet :
    (spec : Spec) (tick : Tick) (t : Target)
    → spec.human ≡ true
    → IsDiscreet tick (check_state spec tick t).1
unfolding check_state
check_state-IsDiscreet spec tick t h =
    if_intro (λ (r : Target × Polled). IsDiscreet tick r.1)
      ((spec.wait_idle || leb 1000 (tick.now - t.last_state_check))
        && journal_quiet tick.age spec.idle_for)
      _ _
      (λ _.
        check_found-IsDiscreet spec tick (record t { last_state_check = tick.now }) tick.found h)
      (λ _. tt)

-- A poll of a wait for a human that has no pattern, if it ends the wait, reports neither a pattern
-- nor a prompt that waits, and its output is that of a note of the log if a note ended it, the
-- shaped tail of the log if the terminal is dead, and else empty.
pub poll_target-IsDiscreet :
    (spec : Spec) (tick : Tick) (t : Target)
    → spec.human ≡ true
    → spec.pattern ≡ none
    → IsDiscreet tick (poll_target spec tick t).1
unfolding poll_target poll_pattern
poll_target-IsDiscreet spec tick t h p = then_poll-IsDiscreet tick _ _ (rw p tt) (λ t1.
    then_poll-IsDiscreet tick _ _ (poll_note-IsDiscreet spec tick t1 h) (λ t2.
      then_poll-IsDiscreet tick _ _ (poll_completion-IsDiscreet spec tick t2 h) (λ t3.
        then_poll-IsDiscreet tick _ _
          (settle_answer-IsDiscreet tick (scan_answer tick (arm_at_prompt spec tick t3)))
          (λ t4. check_state-IsDiscreet spec tick t4 h))))
