-- ===== src/Cli/Poll.antt =====
-- One poll of a terminal on which the wait command waits: armAnswered, pollWaitTarget,
-- answeredEnvelope, completionEnvelope and noteEnvelope of internal/cli/wait.go. The log, the
-- clock, the terminal as it is found and its line discipline are arguments.
pub mod Handoff
use pairmux.Prelude.{
  ℕ, ◌+◌, ◌-◌, List, [], ◌∷◌, Option, none, some, Bool, true, false, not, ◌&&◌, ◌||◌, ltb, leb,
  ◌==◌, if◌then◌else◌, length,
}
use pairmux.Bytes.{is_empty, all_bytes}
use pairmux.Bytes.Numbers.{ℤ, pos, negsuc}
use pairmux.Core.{Event, Mode, Status, idle, running, dead, unknown, awaiting_input}
use pairmux.Cli.Output.{raw_range, clean_no_trunc, last_lines}
use pairmux.Cli.Wait.{new_note, match_shaped_pattern, terminal_status_after_quiet}
use pairmux.Cli.Target.{
  answered_settle, Target, Spec, Found, unreachable, missing, alive, Tick, EnvelopeStatus,
  pattern_found, note_seen, human_done, command_done, in_state, Envelope, Polled, failing, not_yet,
  ended, then_poll, ended_by,
}
use pairmux.Detect.Outcome.{RunResult}
use pairmux.Detect.Prompt.{
  Prompt, TtyState, FgWait, Wording, refine_quiet, prompt_pending, classify_after,
}
use pairmux.Detect.Status.{derive_status}
use pairmux.Detect.Watch.{Watcher, Poll, read_error, still_running, completed, poll}
use pairmux.Journal.Raw.{RawLog, size, read_range, tail_bytes}

unfoldable pub poll_pattern : Spec → Tick → Target → Target × Polled
unfolding raw_range is_empty match_shaped_pattern ended_by
poll_pattern spec tick t =
    let gained = raw_range tick.log t.base_size (negsuc 0) in
    elim spec.pattern [
      | none ↦ (t, not_yet)
      | some re ↦
          if is_empty gained
          then (t, not_yet)
          else (t, ended_by pattern_found (match_shaped_pattern re gained))
    ]

-- `noteEnvelope`
unfoldable pub note_status : Bool → EnvelopeStatus
note_status human = if human then human_done else note_seen

unfoldable pub poll_note : Spec → Tick → Target → Target × Polled
unfolding new_note ended_by note_status
poll_note spec tick t = elim tick.events [
  | none ↦ (t, not_yet)
  | some evs ↦
      if spec.wait_note
      then (t, ended_by (note_status spec.human) (new_note evs t.base_events))
      else (t, not_yet)
]

-- `completionEnvelope`; a handoff does not reveal the output.
unfoldable pub completion_envelope : Bool → Tick → Target → RunResult → Envelope
unfolding raw_range last_lines clean_no_trunc
completion_envelope reveal tick t res =
    let (body, omitted) =
      last_lines
        (clean_no_trunc (raw_range tick.log t.completion_from res.mark_start) t.completion_echo)
        20 in
    record { status = command_done res.exit_code; output = if reveal then body else [] }

unfoldable pub poll_watcher : Spec → Tick → Target → Watcher × Poll → Target × Polled
unfolding completion_envelope
poll_watcher spec tick t (w, read_error) = (record t { completion = some w }, failing)
poll_watcher spec tick t (w, still_running) = (record t { completion = some w }, not_yet)
poll_watcher spec tick t (w, completed res) =
    (record t { completion = some w }, ended (completion_envelope (not spec.human) tick t res))

unfoldable pub poll_completion : Spec → Tick → Target → Target × Polled
unfolding poll_watcher poll
poll_completion spec tick t = elim t.completion [
  | none ↦ (t, not_yet)
  | some w ↦ poll_watcher spec tick t (poll w tick.log tick.now tick.now)
]

unfoldable arm_answered : RawLog → Target → Target
unfolding size
arm_answered log t = record t {
  watch_answered = true;
  answer_scan = size log;
  answer_submitted = false;
}

unfoldable pub prompting : Tick → Bool
unfolding prompt_pending
prompting tick = (prompt_pending tick.words tick.log).1

-- A handoff that watches no prompt yet looks for one.
unfoldable pub arm_at_prompt : Spec → Tick → Target → Target
unfolding arm_answered prompting
arm_at_prompt spec tick t =
    if spec.human && (not t.watch_answered && prompting tick) then arm_answered tick.log t else t

-- Whether the line of the prompt has been ended.
unfoldable pub scan_answer : Tick → Target → Target
unfolding raw_range size is_empty all_bytes
scan_answer tick t =
    let gained = raw_range tick.log t.answer_scan (pos (size tick.log)) in
    if t.watch_answered
      && (not t.answer_submitted && (ltb t.answer_scan (size tick.log) && not (is_empty gained)))
    then record t {
      answer_scan = t.answer_scan + length gained;
      answer_submitted = not (all_bytes (λ c. not (c == 0x0A)) gained);
    }
    else t

-- `deriveTerminalStatus`
unfoldable pub derive_terminal_status : Bool → Bool → Tick → Target → Status
unfolding derive_status
derive_terminal_status up program tick t =
    if up && program then running else derive_status up tick.log tick.events t.mode tick.age

-- `waitCurrentTail`
unfoldable pub current_tail : RawLog → List ℕ
unfolding tail_bytes clean_no_trunc last_lines
current_tail log = elim (tail_bytes log (pos 65536)) [
  | none ↦ []
  | some (raw, off) ↦ (last_lines (clean_no_trunc raw []) 20).0
]

unfoldable pub state_body : Tick → Prompt → Status → List ℕ
unfolding current_tail
state_body tick prompt idle = []
state_body tick prompt running = []
state_body tick prompt dead = current_tail tick.log
state_body tick prompt unknown = []
state_body tick prompt awaiting_input = prompt.line

unfoldable pub dead_body : Tick → Status → List ℕ
unfolding current_tail
dead_body tick status = elim status [ dead ↦ current_tail tick.log | _ ↦ [] ]

-- `answeredEnvelope`, for a terminal that is up or not.
unfoldable pub answered_status : Tick → Target → Bool → Polled
unfolding derive_terminal_status dead_body
answered_status tick t up =
    let status = derive_terminal_status up t.program tick t in
    ended (record { status = in_state status; output = dead_body tick status })

unfoldable pub answered_envelope : Found → Tick → Target → Polled
unfolding answered_status
answered_envelope unreachable tick t = failing
answered_envelope missing tick t = answered_status tick t false
answered_envelope (alive up program) tick t = answered_status tick t up

-- The verdict on an answer that was submitted is held for a while.
unfoldable pub settle_answer : Tick → Target → Target × Polled
unfolding prompting answered_envelope
settle_answer tick t =
    let at = if t.answered_at == 0 then tick.now else t.answered_at in
    if t.watch_answered && t.answer_submitted
    then (if prompting tick then (record t { answered_at = 0 }, not_yet) else (
      record t { answered_at = at },
      if leb answered_settle (tick.now - at) then answered_envelope tick.found tick t else not_yet,
    ))
    else (t, not_yet)

-- `journalQuiet`
unfoldable pub journal_quiet : Option ℕ → ℕ → Bool
journal_quiet none idle_for = true
journal_quiet (some age) idle_for = leb idle_for age

unfoldable pub is_awaiting : Status → Bool
is_awaiting idle = false
is_awaiting running = false
is_awaiting dead = false
is_awaiting unknown = false
is_awaiting awaiting_input = true

unfoldable pub is_dead : Status → Bool
is_dead status = elim status [ dead ↦ true | _ ↦ false ]

-- The end of the state check, for the status and the prompt that it finds.
unfoldable pub check_status : Spec → Tick → Target → Status × Prompt → Target × Polled
unfolding terminal_status_after_quiet arm_answered is_awaiting is_dead state_body
check_status spec tick t (status0, prompt) =
    let (status, terminal) = terminal_status_after_quiet true status0 in
    let armed =
      if spec.human && (not t.watch_answered && is_awaiting status)
      then arm_answered tick.log t
      else t in
    (
      armed,
      if terminal && ((spec.wait_idle || is_dead status) && not (spec.human && is_awaiting status))
          then ended (record { status = in_state status; output = state_body tick prompt status })
          else not_yet,
    )

unfoldable pub check_found : Spec → Tick → Target → Found → Target × Polled
unfolding current_tail derive_terminal_status classify_after check_status
check_found spec tick t unreachable = (t, failing)
check_found spec tick t missing =
    (t, ended (record { status = in_state dead; output = current_tail tick.log }))
check_found spec tick t (alive up program) = check_status spec tick t (
    classify_after tick.words tick.log tick.disc tick.fg tick.age refine_quiet
      (derive_terminal_status up program tick t))

unfoldable pub check_state : Spec → Tick → Target → Target × Polled
unfolding journal_quiet check_found
check_state spec tick t =
    if (spec.wait_idle || leb 1000 (tick.now - t.last_state_check))
      && journal_quiet tick.age spec.idle_for
    then check_found spec tick (record t { last_state_check = tick.now }) tick.found
    else (t, not_yet)

-- `pollWaitTarget`
unfoldable pub poll_target : Spec → Tick → Target → Target × Polled
unfolding then_poll poll_pattern poll_note poll_completion arm_at_prompt scan_answer settle_answer
    check_state
poll_target spec tick t = then_poll (poll_pattern spec tick t) (λ t1.
    then_poll (poll_note spec tick t1) (λ t2. then_poll (poll_completion spec tick t2) (λ t3.
      then_poll (settle_answer tick (scan_answer tick (arm_at_prompt spec tick t3)))
        (λ t4. check_state spec tick t4))))
