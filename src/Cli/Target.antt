-- ===== src/Cli/Target.antt =====
-- What a wait keeps of a terminal, what a poll of it meets, and how it ends: waitTarget,
-- waitPollSpec and the results of pollWaitTarget in internal/cli/wait.go. An envelope is its status
-- and its output; the hints for the next step are left out.
use pairmux.Prelude.{ℕ, List, Option, none, some, Bool}
use pairmux.Bytes.Numbers.{ℤ}
use pairmux.Core.{Event, Mode, Status}
use pairmux.Detect.Prompt.{TtyState, FgWait, Wording}
use pairmux.Detect.Watch.{Watcher}
use pairmux.Journal.Raw.{RawLog}

-- Milliseconds
abbrev pub answered_settle : ℕ
answered_settle = 500

-- `waitTarget`; the time 0 is the zero time.
pub record Target : Type 0 where
  pub mode : Mode
  pub program : Bool
  pub base_size : ℕ
  pub base_events : ℕ
  pub completion : Option Watcher
  pub completion_from : ℕ
  pub completion_echo : List ℕ
  pub watch_answered : Bool
  pub answer_scan : ℕ
  pub answer_submitted : Bool
  pub answered_at : ℕ
  pub last_state_check : ℕ

-- `waitPollSpec`
pub record Spec : Type 0 where
  pub pattern : Option (List ℕ → Bool)
  pub wait_note : Bool
  pub human : Bool
  pub wait_idle : Bool
  pub idle_for : ℕ

-- The terminal, as `ResolveAt` finds it: whether its pane is alive, and whether it runs a program
-- without a shell.
pub data Found : Type 0 where
  unreachable : Found
  missing : Found
  alive : Bool → Bool → Found

-- What a poll meets; `age` is how long ago the log was written, none when there is no log.
pub record Tick : Type 0 where
  pub words : Wording
  pub log : RawLog
  pub events : Option (List Event)
  pub now : ℕ
  pub age : Option ℕ
  pub found : Found
  pub disc : TtyState
  pub fg : FgWait

pub data EnvelopeStatus : Type 0 where
  pattern_found : EnvelopeStatus
  note_seen : EnvelopeStatus
  human_done : EnvelopeStatus
  command_done : ℤ → EnvelopeStatus
  in_state : Status → EnvelopeStatus

pub record Envelope : Type 0 where
  pub status : EnvelopeStatus
  pub output : List ℕ

pub data Polled : Type 0 where
  failing : Polled
  not_yet : Polled
  ended : Envelope → Polled

-- A step, and the ones behind it unless it ends the poll.
unfoldable pub then_poll : Target × Polled → (Target → Target × Polled) → Target × Polled
then_poll (t, not_yet) next = next t
then_poll (t, failing) next = (t, failing)
then_poll (t, ended e) next = (t, ended e)

unfoldable pub ended_by : EnvelopeStatus → Option (List ℕ) → Polled
ended_by status none = not_yet
ended_by status (some text) = ended (record { status = status; output = text })
