-- ===== src/Detect/Wait.antt =====
-- Blocking on a command: waitCompletion of internal/detect/wait.go and waitCompletionCorrelated of
-- internal/detect/await.go. Their marks are those of the watcher: both loops switch on a mark as
-- CompletionWatcher does, with and without the C required. What a round finds outside is an
-- argument: the log, the time, and the prompt that Classify reports.
pub mod Deadline
use pairmux.Prelude.{
  ℕ, zero, suc, ◌+◌, List, [], ◌∷◌, Option, none, some, Bool, true, false, not, ◌&&◌, ◌||◌, ltb,
  leb, if◌then◌else◌, length,
}
use pairmux.Bytes.Numbers.{pos}
use pairmux.Core.{Mode, hooks, sentinel}
use pairmux.Detect.Outcome.{RunResult, done_result, timed_out, asks}
use pairmux.Detect.Prompt.{Prompt}
use pairmux.Detect.Scanner.{Mark, feed}
use pairmux.Detect.Watch.{Watcher, BoundedSentinel, new_watcher, watch_marks, expired, is_hooks}
use pairmux.Journal.Raw.{RawLog, size, read_range}

-- One round: the log it reads, the time at which it consumes marks and the time behind that, and
-- the prompt at which the terminal is found to wait.
pub record Round : Type 0 where
  pub log : RawLog
  pub seen : ℕ
  pub now : ℕ
  pub asked : Option Prompt

pub data Wait : Type 0 where
  read_error : Wait
  finished : RunResult → Wait

-- The marks of the bytes that the log has gained, none when reading fails.
unfoldable pub scan_chunk : Watcher → Option (List ℕ) → ℕ → Watcher × Option Wait
unfolding feed watch_marks
scan_chunk w none seen = (w, some read_error)
scan_chunk w (some data') seen =
    let (sc, marks) = feed w.sc data' in
    let (w1, res) = watch_marks (record w { off = w.off + length data'; sc = sc }) marks seen in
    (w1, elim res [ none ↦ none | some r ↦ some (finished r) ])

unfoldable pub scan_log : Watcher → Round → Watcher × Option Wait
unfolding size read_range scan_chunk
scan_log w r =
    let chunk = read_range r.log (pos w.off) (pos (size r.log)) in
    let scanned = scan_chunk w chunk r.seen in if ltb w.off (size r.log) then scanned else (w, none)

-- `bs.expired(now, pastDeadline)`, when there is a bounded sentinel.
unfoldable bounded_expired : Option BoundedSentinel → ℕ → Bool → Option RunResult
unfolding expired
bounded_expired none now force = none
bounded_expired (some b) now force = expired b now force

unfoldable is_holding : Option BoundedSentinel → Bool
is_holding none = false
is_holding (some b) = elim b.held [ none ↦ false | some m ↦ true ]

-- The prompt, when it ends the wait; else the deadline.
unfoldable pub prompt_or_deadline : ℕ → Option Prompt → Bool → RunResult → Option Wait
unfolding asks
prompt_or_deadline off (some p) past late = some (finished (asks off p))
prompt_or_deadline off none past late = if past then some (finished late) else none

unfoldable pub or_wait : Option RunResult → Option Wait → Option Wait
or_wait none rest = rest
or_wait (some r) rest = some (finished r)

-- A round of `waitCompletion` behind its marks.
unfoldable pub after_scan : Watcher → Round → ℕ → Bool → Option Wait
unfolding bounded_expired is_holding prompt_or_deadline timed_out or_wait
after_scan w r deadline stop_on_prompt =
    let past = leb deadline r.now in
    let prompt = if stop_on_prompt && not (is_holding w.bounded) then r.asked else none in
    or_wait (bounded_expired w.bounded r.now past)
      (prompt_or_deadline w.off prompt past (timed_out w.off))

-- The held D, once `over`.
unfoldable held_done : Option Mark → Bool → Option RunResult
unfolding done_result
held_done none over = none
held_done (some d) over = if over then some (done_result d) else none

-- What the deadline gives: the held D, or a timeout.
unfoldable at_deadline : Option Mark → ℕ → RunResult
unfolding done_result timed_out
at_deadline none off = timed_out off
at_deadline (some d) off = done_result d

-- A round of `waitCompletionCorrelated` behind its marks.
unfoldable pub after_scan_correlated : Watcher → Round → ℕ → Bool → Option Wait
unfolding held_done prompt_or_deadline at_deadline or_wait
after_scan_correlated w r deadline stop_on_prompt =
    let prompt = if stop_on_prompt then r.asked else none in
    or_wait (held_done w.held_d (leb w.grace_end r.now))
      (prompt_or_deadline w.off prompt (leb deadline r.now) (at_deadline w.held_d w.off))

-- The marks end the wait, or else what follows them does.
unfoldable pub or_after : Watcher → Option Wait → Option Wait → Watcher × Option Wait
or_after w none after = (w, after)
or_after w (some r) after = (w, some r)

unfoldable pub wait_round : Watcher → Round → ℕ → Bool → Watcher × Option Wait
unfolding scan_log after_scan after_scan_correlated or_after
wait_round w r deadline stop_on_prompt =
    let (w1, scanned) = scan_log w r in
    let after =
      if w.require_c
      then after_scan_correlated w1 r deadline stop_on_prompt
      else after_scan w1 r deadline stop_on_prompt in
    or_after w1 scanned after

-- The loop, on fuel: round `n` finds `rounds n`. None when the fuel runs out.
unfoldable pub wait_loop : (ℕ → Round) → ℕ → Bool → ℕ → Watcher → ℕ → Option Wait
unfolding wait_round
wait_loop rounds deadline stop zero w n = none
wait_loop rounds deadline stop (suc fuel) w n =
    let (w1, res) = wait_round w (rounds n) deadline stop in
    let rest = wait_loop rounds deadline stop fuel w1 (suc n) in
    elim res [ none ↦ rest | some r ↦ some r ]

-- `waitCompletion`, begun at `start`; a round sleeps for a millisecond at least.
unfoldable pub wait_completion : (ℕ → Round) → ℕ → Mode → Bool → ℕ → ℕ → Bool → Option Wait
unfolding new_watcher wait_loop
wait_completion rounds from mode bounded start timeout stop =
    wait_loop rounds (start + timeout) stop (suc timeout)
      (record (new_watcher from mode bounded) { require_c = false }) 0

-- `waitCompletionCorrelated`
unfoldable pub wait_correlated : (ℕ → Round) → ℕ → Bool → ℕ → ℕ → Bool → Option Wait
unfolding new_watcher wait_loop wait_completion
wait_correlated rounds from require_c start timeout stop =
    let plain = wait_completion rounds from hooks false start timeout stop in
    let correlated =
      wait_loop rounds (start + timeout) stop (suc timeout) (new_watcher from hooks false) 0 in
    if require_c then correlated else plain
