-- ===== src/Cli/Run/Orderly.antt =====
-- What a run leaves in the log: at most one command is open, and the reply says which.
use pairmux.Prelude.{
  ℕ, ◌-◌, ◌^◌, ◌≡◌, ◌⊎◌, inl, inr, refl, List, [], ◌∷◌, ◌++◌, Option, none, some, Bool, true, false,
  if_intro,
}
use pairmux.Prelude.All.{All, All-append}
use pairmux.Core.{Event}
use pairmux.Cli.Notes.{notes_baseline}
use pairmux.Cli.Run.{
  zero_result, end_event, Reply, endless, busy, internal, not_sent, still_running, awaiting, done,
  World, Request, proceed, settle_result, settle_wait, settle, reply_result, reply_wait,
  start_event, not_delivered, run_sent, run_settled, cmd_run,
}
use pairmux.Cli.Send.{
  Stage, stage_record, stage_literal, stage_enter, append_event, aborted, abort, Delivery,
  delivered, record_and_send,
}
use pairmux.Detect.Outcome.{
  RunResult, WaitOutcome, outcome_done, outcome_timeout, outcome_awaiting_input,
}
use pairmux.Detect.Wait.{Wait, read_error, finished}
use pairmux.Journal.Events.{next_cmd_id, is_start, is_end, pending_cmd}
use pairmux.Journal.Events.Ids.{AtMost}
use pairmux.Journal.Events.Open.{
  IsQuiet, IsOpen, IsOrderly, pending_cmd-IsOpen, start-IsOpen, later-IsOpen, end-IsOpen,
  AtMost-IsOpen,
}

-- The command of the request is the open one.
abbrev pub Runs : Request → List Event → Type 0
Runs q evs = (ev : Event) × (IsOpen evs ev × (ev.body ≡ q.cmd))

append_event_taken :
    (taken : Bool) (evs : List Event) (ev : Event)
    → taken ≡ true
    → append_event taken evs ev ≡ evs ++ (ev ∷ [])
unfolding append_event
append_event_taken true evs ev h = refl
append_event_taken false evs ev h = cc

-- What a run on the log `evs` leaves, by its reply.
abbrev pub Leaves : World → Request → List Event → List Event × Reply → Type 0
Leaves w q evs (after, endless) = IsOrderly after
Leaves w q evs (after, busy) = after ≡ evs
Leaves w q evs (after, internal) = IsOrderly after
Leaves w q evs (after, not_sent stage) = pending_cmd after ≡ none
Leaves w q evs (after, still_running out) = Runs q after
Leaves w q evs (after, awaiting prompt out) = Runs q after
Leaves w q evs (after, done code out) =
    (pending_cmd after ≡ none) ⊎ ((w.ended ≡ false) × Runs q after)

module _ (w : World) (q : Request) (start : List Event) where
  reply_result-Leaves :
      (notes : List (List ℕ)) (evs : List Event) (ev : Event) (res : RunResult) (o : WaitOutcome)
      → IsOpen evs ev
      → ev.body ≡ q.cmd
      → Leaves w q start (reply_result w q ev.cmd_id notes evs res o)
  unfolding reply_result append_event end_event is_end
  reply_result-Leaves notes evs ev res outcome_done h b = by_ending w.ended refl
    where
      stop : Event
      stop = end_event ev.cmd_id res w.end_ts

      by_ending :
          (taken : Bool)
          → w.ended ≡ taken
          → (pending_cmd (append_event w.ended evs stop) ≡ none)
            ⊎ ((w.ended ≡ false) × Runs q (append_event w.ended evs stop))
      by_ending true e = rw e (inl (end-IsOpen evs ev stop h refl refl))
      by_ending false e = rw e (inr (refl, (ev, (h, b))))
  reply_result-Leaves notes evs ev res outcome_timeout h b = (ev, (h, b))
  reply_result-Leaves notes evs ev res outcome_awaiting_input h b = (ev, (h, b))

  reply_wait-Leaves :
      (notes : List (List ℕ)) (evs : List Event) (ev : Event) (o : Option Wait)
      → IsOpen evs ev
      → ev.body ≡ q.cmd
      → Leaves w q start (reply_wait w q ev.cmd_id notes evs o)
  unfolding reply_wait
  reply_wait-Leaves notes evs ev none h b = inr (ev, h)
  reply_wait-Leaves notes evs ev (some read_error) h b = inr (ev, h)
  reply_wait-Leaves notes evs ev (some (finished res)) h b =
      reply_result-Leaves notes evs ev res res.outcome h b

  -- A command that was not entered.
  not_delivered-Leaves :
      (evs : List Event) (ev stop : Event) (stage : Stage) (closed : Bool)
      → IsOpen evs ev
      → is_end stop.event_type ≡ true
      → stop.cmd_id ≡ ev.cmd_id
      → Leaves w q start (append_event closed evs stop, not_delivered stage closed)
  unfolding append_event not_delivered
  not_delivered-Leaves evs ev stop stage_record true h e c = inl (end-IsOpen evs ev stop h e c)
  not_delivered-Leaves evs ev stop stage_record false h e c = inr (ev, h)
  not_delivered-Leaves evs ev stop stage_literal true h e c = end-IsOpen evs ev stop h e c
  not_delivered-Leaves evs ev stop stage_literal false h e c = inr (ev, h)
  not_delivered-Leaves evs ev stop stage_enter true h e c = end-IsOpen evs ev stop h e c
  not_delivered-Leaves evs ev stop stage_enter false h e c = inr (ev, h)

  module _ (quiet : All IsQuiet w.arrived) (baseline : ℕ × List (List ℕ)) where
    abort-Leaves :
        (evs : List Event) (ev : Event) (stage : Stage) (now size : ℕ)
        → IsOpen evs ev
        → Leaves w q start (run_sent w q baseline ev.cmd_id (abort evs ev stage w.sends now size))
    unfolding run_sent abort aborted is_end
    abort-Leaves evs ev stage now size h =
        not_delivered-Leaves evs ev (aborted ev stage now size) stage w.sends.closed h refl refl

    delivered-Leaves :
        (evs : List Event) (ev : Event)
        → IsOpen evs ev
        → ev.body ≡ q.cmd
        → Leaves w q start (run_sent w q baseline ev.cmd_id (evs, delivered))
    unfolding run_sent
    delivered-Leaves evs ev h b =
        reply_wait-Leaves _ (evs ++ w.arrived) ev _ (later-IsOpen evs w.arrived ev h quiet) b

    run_sent-Leaves :
        (evs : List Event) (ev : Event)
        → pending_cmd evs ≡ none
        → IsOpen (evs ++ (ev ∷ [])) ev
        → ev.body ≡ q.cmd
        → Leaves w q start (
            run_sent w q baseline ev.cmd_id
              (record_and_send evs ev w.sends w.start_ts w.abort_size))
    unfolding record_and_send append_event
    run_sent-Leaves evs ev settled h b =
        if_intro P w.sends.recorded _ _
          (λ _.
            if_intro P w.sends.literal _ _
              (λ _.
                if_intro P w.sends.enter _ _ (λ _. delivered-Leaves (evs ++ (ev ∷ [])) ev h b)
                  (λ _. abort-Leaves _ ev stage_enter w.start_ts w.abort_size h))
              (λ _. abort-Leaves _ ev stage_literal w.start_ts w.abort_size h))
          (λ _. unfold run_sent not_delivered in inl settled)
      where
        P : List Event × Delivery → Type 0
        P d = Leaves w q start (run_sent w q baseline ev.cmd_id d)

    -- A log in which all commands are settled.
    proceed-Leaves :
        (evs : List Event)
        → pending_cmd evs ≡ none
        → All (λ (x : Event). AtMost (2 ^ 63 - 2) x.cmd_id) evs
        → Leaves w q start (run_settled w q baseline start (proceed evs))
    unfolding run_settled start_event is_start
    proceed-Leaves evs settled h =
        let ev : Event = start_event w q (next_cmd_id evs) in
        run_sent-Leaves evs ev settled (start-IsOpen evs ev settled h refl refl) refl

    module _ (ev : Event) (opened : IsOpen start ev)
        (h : All (λ (x : Event). AtMost (2 ^ 63 - 2) x.cmd_id) start)
        (taken : w.settled ≡ true) where
      settle_result-Leaves :
          (res : RunResult) (o : WaitOutcome)
          → Leaves w q start (run_settled w q baseline start (settle_result w start ev res o))
      unfolding settle_result end_event is_end
      settle_result-Leaves res outcome_done =
          let stop : Event = end_event ev.cmd_id res w.settle_ts in
          rw (append_event_taken w.settled start stop taken) (
            proceed-Leaves (start ++ (stop ∷ [])) (end-IsOpen start ev stop opened refl refl) (
              All-append (λ (x : Event). AtMost (2 ^ 63 - 2) x.cmd_id) start (stop ∷ []) h
                (AtMost-IsOpen (2 ^ 63 - 2) start ev opened h, tt)))
      settle_result-Leaves res outcome_timeout = unfold run_settled in refl
      settle_result-Leaves res outcome_awaiting_input = unfold run_settled in refl

      settle_wait-Leaves :
          (o : Option Wait)
          → Leaves w q start (run_settled w q baseline start (settle_wait w start ev o))
      unfolding settle_wait
      settle_wait-Leaves none = unfold run_settled in inr (ev, opened)
      settle_wait-Leaves (some read_error) = settle_result-Leaves zero_result outcome_done
      settle_wait-Leaves (some (finished res)) = settle_result-Leaves res res.outcome

-- Let at most one command of the log be open, the last that was started, let no id be above 2^63 -
-- 2, let what others log in the meantime neither start nor end a command, and let the log take the
-- end that the settlement records. Then the log is in order again behind the run, and the reply
-- tells how: a busy run has changed nothing, a command that was not sent is closed, as is every
-- other, one that is done is closed too or, when its end could not be recorded, the open one, and
-- one that is reported as running or as awaiting input is the open one, with the text of the
-- request.
pub cmd_run-Leaves :
    (w : World) (q : Request) (evs : List Event)
    → IsOrderly evs
    → All (λ (x : Event). AtMost (2 ^ 63 - 2) x.cmd_id) evs
    → All IsQuiet w.arrived
    → w.settled ≡ true
    → Leaves w q evs (cmd_run w q evs)
unfolding cmd_run settle
cmd_run-Leaves w q evs (inl idle) h quiet taken =
    rw idle (proceed-Leaves w q evs quiet (notes_baseline (some evs)) evs idle h)
cmd_run-Leaves w q evs (inr (ev, opened)) h quiet taken =
    rw (pending_cmd-IsOpen evs ev opened)
      (settle_wait-Leaves w q evs quiet (notes_baseline (some evs)) ev opened h taken _)
