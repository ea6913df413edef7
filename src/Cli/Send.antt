-- ===== src/Cli/Send.antt =====
-- Entering a command: recordAndSendCommand and sentParts of internal/cli/commands.go. Whether the
-- log takes an event and the multiplexer the keys is an argument.
use pairmux.Prelude.{ℕ, List, [], ◌∷◌, ◌++◌, some, Bool, true, false, if◌then◌else◌}
use pairmux.Bytes.{codes, is_empty, join}
use pairmux.Bytes.Numbers.{negsuc}
use pairmux.Core.{Event, cmd_end}

pub data Stage : Type 0 where
  stage_record : Stage
  stage_literal : Stage
  stage_enter : Stage

unfoldable stage_name : Stage → List ℕ
stage_name stage_record = codes "record"
stage_name stage_literal = codes "literal"
stage_name stage_enter = codes "enter"

-- What succeeds: recording the start, typing the text, pressing Enter, and recording the abort.
pub record Sends : Type 0 where
  pub recorded : Bool
  pub literal : Bool
  pub enter : Bool
  pub closed : Bool

-- An error says whether the abort could be recorded, where there was one.
pub data Delivery : Type 0 where
  delivered : Delivery
  failed : Stage → Bool → Delivery

-- `AppendEvent`
unfoldable pub append_event : Bool → List Event → Event → List Event
append_event true evs ev = evs ++ (ev ∷ [])
append_event false evs ev = evs

-- The `cmd_end` of a command that was not entered; `now` and `size` are the time and the size of the log.
unfoldable pub aborted : Event → Stage → ℕ → ℕ → Event
unfolding stage_name
aborted start stage now size = record {
  ts = now;
  event_type = cmd_end;
  cmd_id = start.cmd_id;
  offset = size;
  exit_code = some (negsuc 0);
  body = codes "command dispatch aborted during " ++ stage_name stage;
}

unfoldable pub abort : List Event → Event → Stage → Sends → ℕ → ℕ → List Event × Delivery
unfolding append_event aborted
abort evs start stage sends now size =
    (append_event sends.closed evs (aborted start stage now size), failed stage sends.closed)

unfoldable pub record_and_send : List Event → Event → Sends → ℕ → ℕ → List Event × Delivery
unfolding abort append_event
record_and_send evs start sends now size =
    let recorded = append_event true evs start in
    if sends.recorded
    then (if sends.literal
        then (if sends.enter
            then (recorded, delivered)
            else abort recorded start stage_enter sends now size)
        else abort recorded start stage_literal sends now size)
    else (evs, failed stage_record true)

unfoldable sent_parts : Bool → List (List ℕ) → Bool → List ℕ
unfolding join is_empty
sent_parts text keys enter = join b'+' (
    (if text then codes "text" ∷ [] else [])
    ++ ((if is_empty keys then [] else codes "keys" ∷ [])
        ++ (if enter then codes "enter" ∷ [] else [])))
