-- ===== src/Journal/Events.antt =====
-- The event log: NextCmdID and PendingCmd, on the events that Events returns.
pub mod Ids
pub mod Open
pub mod Pending
use pairmux.Prelude.{
  ℕ, zero, suc, ◌+◌, ◌-◌, ◌^◌, List, [], ◌∷◌, Option, none, some, Bool, true, false, not, ◌&&◌,
  ◌||◌, ltb, ◌==◌, if◌then◌else◌,
}
use pairmux.Bytes.Numbers.{ℤ, pos, negsuc}
use pairmux.Core.{Event, EventType, created, cmd_start, cmd_end, note, sent}

-- `if ev.CmdID > max { max = ev.CmdID }`; `max` starts at 0 and only grows.
unfoldable pub raise_max : ℕ → ℤ → ℕ
raise_max max (pos n) = if ltb max n then n else max
raise_max max (negsuc n) = max

unfoldable pub max_cmd_id : ℕ → List Event → ℕ
unfolding raise_max
max_cmd_id max [] = max
max_cmd_id max (ev ∷ evs) = max_cmd_id (raise_max max ev.cmd_id) evs

-- An int of 64 bits, one more than a number that is not negative.
unfoldable pub succ_int : ℕ → ℤ
succ_int n = if n + 1 == 2 ^ 63 then negsuc (2 ^ 63 - 1) else pos (n + 1)

unfoldable pub next_cmd_id : List Event → ℤ
unfolding succ_int max_cmd_id
next_cmd_id evs = succ_int (max_cmd_id 0 evs)

unfoldable pub int_eq : ℤ → ℤ → Bool
int_eq (pos m) (pos n) = m == n
int_eq (negsuc m) (negsuc n) = m == n
int_eq _ _ = false

unfoldable pub is_start : EventType → Bool
is_start cmd_start = true
is_start _ = false

unfoldable pub is_end : EventType → Bool
is_end cmd_end = true
is_end _ = false

-- The inner loop of `PendingCmd`: whether the command is ended by a later event.
unfoldable pub is_ended : ℤ → List Event → Bool
unfolding is_end int_eq
is_ended id [] = false
is_ended id (ev ∷ evs) = (is_end ev.event_type && int_eq ev.cmd_id id) || is_ended id evs

-- The result for the events behind the first, or else the first if it is pending.
unfoldable pub or_first : Option Event → Event → List Event → Option Event
unfolding is_start is_ended
or_first (some later) ev evs = some later
or_first none ev evs =
    if is_start ev.event_type && not (is_ended ev.cmd_id evs) then some ev else none

-- `PendingCmd`: the loop looks at the last event first.
unfoldable pub pending_cmd : List Event → Option Event
unfolding or_first
pending_cmd [] = none
pending_cmd (ev ∷ evs) = or_first (pending_cmd evs) ev evs
