-- ===== src/Detect/Status.antt =====
-- The status of a terminal: DeriveStatus and scanForMark of internal/detect/wait.go.
pub mod Run
use pairmux.Prelude.{
  ℕ, List, [], ◌∷◌, Option, none, some, Bool, true, false, not, ◌&&◌, ◌||◌, ltb, if◌then◌else◌,
}
use pairmux.Bytes.Numbers.{pos, negsuc}
use pairmux.Core.{Event, Mode, hooks, sentinel, Status, idle, running, dead, unknown}
use pairmux.Detect.Outcome.{completion_kind}
use pairmux.Detect.Scanner.{Mark, MarkKind, new_scanner, feed}
use pairmux.Detect.Watch.{is_kind, is_hooks}
use pairmux.Journal.Events.{pending_cmd}
use pairmux.Journal.Raw.{RawLog, read_range}

-- Whether a mark of a kind stands at or behind an offset.
unfoldable pub any_mark : ℕ → MarkKind → List Mark → Bool
unfolding is_kind
any_mark from want [] = false
any_mark from want (m ∷ ms) =
    (is_kind m.kind want && not (ltb m.start from)) || any_mark from want ms

unfoldable pub scan_bytes : ℕ → MarkKind → Option (List ℕ) → Bool
unfolding any_mark feed new_scanner
scan_bytes from want none = false
scan_bytes from want (some data') = any_mark from want (feed (new_scanner from) data').1

unfoldable pub scan_for_mark : RawLog → ℕ → MarkKind → Bool
unfolding scan_bytes read_range
scan_for_mark log from want = scan_bytes from want (read_range log (pos from) (negsuc 0))

-- The status without a pending command: `age` is how many milliseconds ago the log was written,
-- none when there is no log.
unfoldable pub recent_status : Mode → Option ℕ → Status
unfolding is_hooks
recent_status mode none = idle
recent_status mode (some age) = if not (is_hooks mode) && ltb age 1000 then unknown else idle

unfoldable pub pending_status : RawLog → Mode → Option ℕ → Option Event → Status
unfolding scan_for_mark completion_kind recent_status
pending_status log mode age none = recent_status mode age
pending_status log mode age (some ev) =
    if scan_for_mark log ev.offset (completion_kind mode) then idle else running

-- `DeriveStatus`; no events is an error of reading them.
unfoldable pub derive_status : Bool → RawLog → Option (List Event) → Mode → Option ℕ → Status
unfolding pending_cmd pending_status
derive_status false log evs mode age = dead
derive_status true log none mode age = unknown
derive_status true log (some evs) mode age = pending_status log mode age (pending_cmd evs)
