-- ===== src/Cli/Run.antt =====
-- The run command behind the write lock, cmdRun of internal/cli/commands.go: the settlement of an
-- earlier command, the sending, the wait and the record of the end. What the log, the clock and the
-- other processes do in the meantime is an argument.
pub mod Orderly
pub mod Surfaced
pub mod Unreadable
use pairmux.Prelude.{
  ℕ, ◌+◌, List, [], ◌∷◌, ◌++◌, Option, none, some, Bool, true, false, ltb, if◌then◌else◌, length,
}
use pairmux.Bytes.Numbers.{ℤ, pos, negsuc}
use pairmux.Core.{Event, Mode, hooks, sentinel, cmd_start, cmd_end}
use pairmux.Cli.Notes.{notes_baseline, notes_arrived_since}
use pairmux.Cli.Output.{raw_range, clean_no_trunc, last_lines}
use pairmux.Cli.Send.{
  Sends, Delivery, delivered, failed, Stage, stage_record, append_event, record_and_send,
}
use pairmux.Detect.Outcome.{
  RunResult, WaitOutcome, outcome_done, outcome_timeout, outcome_awaiting_input,
}
use pairmux.Detect.Prompt.{Prompt, no_prompt}
use pairmux.Detect.Wait.{Round, Wait, read_error, finished, wait_completion, wait_correlated}
use pairmux.Journal.Events.{next_cmd_id, pending_cmd}
use pairmux.Journal.Raw.{RawLog}
use pairmux.Shape.Render.{render}

-- `waitDone`, which ends early at a prompt.
unfoldable pub wait_done : (ℕ → Round) → ℕ → Mode → Bool → ℕ → ℕ → Option Wait
unfolding wait_correlated wait_completion
wait_done rounds from hooks bounded start timeout =
    wait_correlated rounds from true start timeout true
wait_done rounds from sentinel bounded start timeout =
    wait_completion rounds from sentinel bounded start timeout true

-- `RunResult{}`, which a wait gives along with an error.
abbrev pub zero_result : RunResult
zero_result = record {
  outcome = outcome_done;
  exit_code = pos 0;
  mark_start = pos 0;
  end_offset = 0;
  prompt = no_prompt;
}

-- The offset of a mark; no result that is done has a negative one.
unfoldable offset_of : ℤ → ℕ
offset_of (pos n) = n
offset_of (negsuc n) = 0

unfoldable pub end_event : ℤ → RunResult → ℕ → Event
unfolding offset_of
end_event id res now = record {
  ts = now;
  event_type = cmd_end;
  cmd_id = id;
  offset = offset_of res.mark_start;
  exit_code = some res.exit_code;
  body = [];
}

-- The output of a command with the lines left out, and the notes.
pub record Output : Type 0 where
  pub text : List ℕ
  pub omitted : ℕ
  pub notes : List (List ℕ)

pub data Reply : Type 0 where
  endless : Reply
  busy : Reply
  internal : Reply
  not_sent : Stage → Reply
  still_running : Output → Reply
  awaiting : Prompt → Output → Reply
  done : ℤ → Output → Reply

-- What a run meets: the rounds of its two waits and when they begin, whether the log takes the
-- events and at what time, the size of the raw log when the command is sent, what others log while it runs,
-- the raw log behind that.
pub record World : Type 0 where
  pub mode : Mode
  pub bounded : Bool
  pub settle_rounds : ℕ → Round
  pub settle_start : ℕ
  pub settle_ts : ℕ
  pub settled : Bool
  pub log_size : ℕ
  pub start_ts : ℕ
  pub sends : Sends
  pub abort_size : ℕ
  pub run_rounds : ℕ → Round
  pub run_start : ℕ
  pub arrived : List Event
  pub end_ts : ℕ
  pub ended : Bool
  pub log : RawLog

-- What the command line asks for; `sent` is the command with what surrounds it in sentinel mode.
pub record Request : Type 0 where
  pub cmd : List ℕ
  pub sent : List ℕ
  pub timeout : ℕ
  pub head : ℤ
  pub tail : ℤ

-- The log without an open command, or the reply that refuses the run.
pub data Settlement : Type 0 where
  proceed : List Event → Settlement
  refuse : Reply → Settlement

-- The result of the wait for an earlier command, whose error is not looked at.
unfoldable pub settle_result : World → List Event → Event → RunResult → WaitOutcome → Settlement
unfolding append_event end_event
settle_result w evs pending res outcome_done =
    proceed (append_event w.settled evs (end_event pending.cmd_id res w.settle_ts))
settle_result w evs pending res outcome_timeout = refuse busy
settle_result w evs pending res outcome_awaiting_input = refuse busy

unfoldable pub settle_wait : World → List Event → Event → Option Wait → Settlement
unfolding settle_result
settle_wait w evs pending none = refuse endless
settle_wait w evs pending (some read_error) = settle_result w evs pending zero_result outcome_done
settle_wait w evs pending (some (finished res)) = settle_result w evs pending res res.outcome

unfoldable pub settle : World → List Event → Option Event → Settlement
unfolding settle_wait wait_done
settle w evs none = proceed evs
settle w evs (some pending) =
    settle_wait w evs pending
      (wait_done w.settle_rounds pending.offset w.mode w.bounded w.settle_start 0)

-- The envelope of a command that is not done.
unfoldable unfinished : World → Request → List (List ℕ) → RunResult → Output
unfolding raw_range clean_no_trunc last_lines
unfinished w q notes res =
    let (body, omitted) =
      last_lines (clean_no_trunc (raw_range w.log w.log_size (pos res.end_offset)) q.sent) 20 in
    record { text = body; omitted = omitted; notes = notes }

unfoldable pub complete : World → Request → List (List ℕ) → RunResult → Output
unfolding raw_range render
complete w q notes res =
    let (body, omitted) = render (raw_range w.log w.log_size res.mark_start) q.sent q.head q.tail in
    record { text = body; omitted = omitted; notes = notes }

-- The result of the wait for the command itself, on the log as it is then.
unfoldable pub reply_result :
    World → Request → ℤ → List (List ℕ) → List Event → RunResult → WaitOutcome → List Event × Reply
unfolding unfinished complete append_event end_event
reply_result w q id notes evs res outcome_done = (
  append_event w.ended evs (end_event id res w.end_ts),
  done res.exit_code (complete w q notes res),
)
reply_result w q id notes evs res outcome_timeout = (evs, still_running (unfinished w q notes res))
reply_result w q id notes evs res outcome_awaiting_input =
    (evs, awaiting res.prompt (unfinished w q notes res))

unfoldable pub reply_wait :
    World → Request → ℤ → List (List ℕ) → List Event → Option Wait → List Event × Reply
unfolding reply_result
reply_wait w q id notes evs none = (evs, endless)
reply_wait w q id notes evs (some read_error) = (evs, internal)
reply_wait w q id notes evs (some (finished res)) = reply_result w q id notes evs res res.outcome

unfoldable pub start_event : World → Request → ℤ → Event
start_event w q id = record {
  ts = w.start_ts;
  event_type = cmd_start;
  cmd_id = id;
  offset = w.log_size;
  exit_code = none;
  body = q.cmd;
}

-- The reply to a command that was not entered.
unfoldable pub not_delivered : Stage → Bool → Reply
not_delivered stage_record closed = internal
not_delivered stage closed = if closed then not_sent stage else internal

-- The wait behind the sending; `baseline` are the events and the notes before the settlement.
unfoldable pub run_sent :
    World → Request → ℕ × List (List ℕ) → ℤ → List Event × Delivery → List Event × Reply
unfolding not_delivered reply_wait wait_done notes_arrived_since
run_sent w q baseline id (evs, failed stage closed) = (evs, not_delivered stage closed)
run_sent w q (count, notes) id (evs, delivered) =
    let after = evs ++ w.arrived in
    reply_wait w q id (notes ++ notes_arrived_since (some after) count) after
      (wait_done w.run_rounds w.log_size w.mode w.bounded w.run_start q.timeout)

unfoldable pub run_settled :
    World → Request → ℕ × List (List ℕ) → List Event → Settlement → List Event × Reply
unfolding run_sent record_and_send start_event next_cmd_id
run_settled w q baseline evs (refuse reply) = (evs, reply)
run_settled w q baseline evs (proceed evs1) =
    let id = next_cmd_id evs1 in
    run_sent w q baseline id
      (record_and_send evs1 (start_event w q id) w.sends w.start_ts w.abort_size)

unfoldable pub cmd_run : World → Request → List Event → List Event × Reply
unfolding run_settled settle notes_baseline pending_cmd
cmd_run w q evs = run_settled w q (notes_baseline (some evs)) evs (settle w evs (pending_cmd evs))
