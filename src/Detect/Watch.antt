-- ===== src/Detect/Watch.antt =====
-- The watcher of a command's completion: boundedSentinel and CompletionWatcher, from
-- internal/detect/wait.go. A poll reads the clock at two moments, when it consumes marks and at
-- its end.
pub mod Correlated
pub mod Bounded
pub mod Graces
use pairmux.Prelude.{
  ℕ, zero, suc, ◌+◌, List, [], ◌∷◌, Option, none, some, Bool, true, false, not, ◌&&◌, ltb, leb,
  if◌then◌else◌, length,
}
use pairmux.Bytes.{is_empty}
use pairmux.Bytes.Numbers.{pos}
use pairmux.Core.{Mode, hooks, sentinel}
use pairmux.Detect.Outcome.{RunResult, completion_kind, done_at, done_result}
use pairmux.Detect.Scanner.{
  Scanner, Mark, MarkKind, mark_a, mark_b, mark_c, mark_d, mark_sentinel, mark_boundary,
  new_scanner, feed,
}
use pairmux.Journal.Raw.{RawLog, size, read_range}

-- Durations are milliseconds.
abbrev pub grace_boundary : ℕ
grace_boundary = 500

abbrev pub grace_no_c : ℕ
grace_no_c = 250

pub record BoundedSentinel : Type 0 where
  pub held : Option Mark
  pub grace_until : ℕ

unfoldable pub is_kind : MarkKind → MarkKind → Bool
is_kind mark_a mark_a = true
is_kind mark_b mark_b = true
is_kind mark_c mark_c = true
is_kind mark_d mark_d = true
is_kind mark_sentinel mark_sentinel = true
is_kind mark_boundary mark_boundary = true
is_kind _ _ = false

-- `observe` once the held sentinel is looked at.
unfoldable pub observe_held :
    BoundedSentinel → Option Mark → Mark → ℕ → BoundedSentinel × Option RunResult
unfolding is_kind done_at
observe_held b none m now =
    if is_kind m.kind mark_sentinel
    then (record { held = some m; grace_until = now + grace_boundary }, none)
    else (b, none)
observe_held b (some s) m now =
    if is_kind m.kind mark_boundary && leb s.end' m.start
    then (b, some (done_at m s.exit_code))
    else (b, none)

unfoldable pub observe : BoundedSentinel → Mark → ℕ → BoundedSentinel × Option RunResult
unfolding observe_held
observe b m now = observe_held b b.held m now

unfoldable expired_held : Option Mark → Bool → Option RunResult
unfolding done_result
expired_held none over = none
expired_held (some m) over = if over then some (done_result m) else none

unfoldable pub expired : BoundedSentinel → ℕ → Bool → Option RunResult
unfolding expired_held
expired b now force = expired_held b.held (if force then true else leb b.grace_until now)

pub record Watcher : Type 0 where
  pub from : ℕ
  pub off : ℕ
  pub sc : Scanner
  pub want : MarkKind
  pub require_c : Bool
  pub seen_c : Bool
  pub held_d : Option Mark
  pub grace_end : ℕ
  pub bounded : Option BoundedSentinel

unfoldable pub is_hooks : Mode → Bool
is_hooks hooks = true
is_hooks sentinel = false

unfoldable pub new_watcher : ℕ → Mode → Bool → Watcher
unfolding new_scanner completion_kind is_hooks
new_watcher from mode bounded = record {
  from = from;
  off = from;
  sc = new_scanner from;
  want = completion_kind mode;
  require_c = is_hooks mode;
  seen_c = false;
  held_d = none;
  grace_end = 0;
  bounded =
      if bounded && not (is_hooks mode)
      then some (record { held = none; grace_until = 0 })
      else none;
}

-- The case MarkD: the first D that is not preceded by a C is held.
unfoldable pub hold : Watcher → Option Mark → Mark → ℕ → Watcher
hold w none m now = record w { held_d = some m; grace_end = now + grace_no_c }
hold w (some d) m now = w

-- The switch on the kind of a mark in hooks mode.
unfoldable pub correlate : MarkKind → Watcher → Mark → ℕ → Watcher × Option RunResult
unfolding hold done_result
correlate mark_c w m now = (if w.seen_c then w else record w { seen_c = true; held_d = none }, none)
correlate mark_d w m now =
    if w.seen_c then (w, some (done_result m)) else (hold w w.held_d m now, none)
correlate _ w m now = (w, none)

unfoldable pub take_bounded :
    Watcher → BoundedSentinel × Option RunResult → Watcher × Option RunResult
take_bounded w (b, res) = (record w { bounded = some b }, res)

-- The body of the loop over the marks, for a mark at or behind the baseline.
unfoldable pub watch_behind :
    Watcher → Option BoundedSentinel → Mark → ℕ → Watcher × Option RunResult
unfolding observe take_bounded is_kind done_result correlate
watch_behind w (some b) m now = take_bounded w (observe b m now)
watch_behind w none m now =
    let done : Option RunResult = if is_kind m.kind w.want then some (done_result m) else none in
    if not w.require_c then (w, done) else correlate m.kind w m now

unfoldable pub watch_mark : Watcher → Mark → ℕ → Watcher × Option RunResult
unfolding watch_behind
watch_mark w m now = if ltb m.start w.from then (w, none) else watch_behind w w.bounded m now

-- The loop over the marks, which returns at the first completion.
unfoldable pub watch_next :
    Option RunResult → Watcher → Watcher × Option RunResult → Watcher × Option RunResult
watch_next none w rest = rest
watch_next (some r) w rest = (w, some r)

unfoldable pub watch_marks : Watcher → List Mark → ℕ → Watcher × Option RunResult
unfolding watch_mark watch_next
watch_marks w [] now = (w, none)
watch_marks w (m ∷ ms) now =
    let (w1, res) = watch_mark w m now in watch_next res w1 (watch_marks w1 ms now)

-- A poll fails to read the log, or goes on, or reports the completion.
pub data Poll : Type 0 where
  read_error : Poll
  still_running : Poll
  completed : RunResult → Poll

-- The end of `Poll`: the graces.
unfoldable after_bounded : Option RunResult → Poll
after_bounded none = still_running
after_bounded (some r) = completed r

unfoldable pub after_grace : Watcher → Option Mark → Option BoundedSentinel → ℕ → Poll
unfolding expired after_bounded done_result
after_grace w held none now = elim held [
  | none ↦ still_running
  | some d ↦ if leb w.grace_end now then completed (done_result d) else still_running
]
after_grace w held (some b) now =
    let rest = after_bounded (expired b now false) in
    elim held [
      | none ↦ rest
      | some d ↦ if leb w.grace_end now then completed (done_result d) else rest
    ]

unfoldable pub finish_poll : Watcher × Option RunResult → ℕ → Watcher × Poll
unfolding after_grace
finish_poll (w, some r) now = (w, completed r)
finish_poll (w, none) now = (w, after_grace w w.held_d w.bounded now)

-- The chunk that a poll reads, none when reading fails.
unfoldable pub consume : Watcher → Option (List ℕ) → ℕ → ℕ → Watcher × Poll
unfolding watch_marks feed finish_poll is_empty
consume w none seen now = (w, read_error)
consume w (some data') seen now =
    let (sc, marks) = feed w.sc data' in
    let w1 = record w { off = w.off + length data'; sc = sc } in
    finish_poll (watch_marks w1 marks seen) now

unfoldable pub poll : Watcher → RawLog → ℕ → ℕ → Watcher × Poll
unfolding size read_range consume finish_poll
poll w log seen now =
    let chunk = read_range log (pos w.off) (pos (size log)) in
    if ltb w.off (size log) then consume w chunk seen now else finish_poll (w, none) now
