-- ===== src/Cli/Run/Unreadable.antt =====
-- What a run makes of an earlier command when the raw log cannot be read.
use pairmux.Prelude.{ℕ, suc, ◌+◌, ◌<◌, ◌≡◌, refl, List, some, Bool, true, false, ltb, arith}
use pairmux.Core.{Event, Mode, hooks, sentinel}
use pairmux.Cli.Run.{
  wait_done, zero_result, end_event, World, proceed, settle_result, settle_wait, settle,
}
use pairmux.Cli.Send.{append_event}
use pairmux.Detect.Wait.{
  Round, read_error, scan_chunk, scan_log, or_after, wait_round, wait_loop, wait_completion,
  wait_correlated,
}
use pairmux.Detect.Watch.{Watcher, new_watcher}
use pairmux.Journal.Events.{pending_cmd}
use pairmux.Journal.Raw.{unreadable, size, read_range}

scan_log_unreadable :
    (wt : Watcher) (r : Round) (n : ℕ)
    → r.log ≡ unreadable n
    → wt.off < n
    → scan_log wt r ≡ (wt, some read_error)
unfolding scan_log size read_range scan_chunk
scan_log_unreadable wt r n e h = let grown : ltb wt.off n ≡ true = ground arith in simp (e, grown)

wait_loop_unreadable :
    (rounds : ℕ → Round) (deadline : ℕ) (stop : Bool) (fuel : ℕ) (wt : Watcher) (n : ℕ)
    → (rounds 0).log ≡ unreadable n
    → wt.off < n
    → wait_loop rounds deadline stop (suc fuel) wt 0 ≡ some read_error
unfolding wait_loop wait_round or_after
wait_loop_unreadable rounds deadline stop fuel wt n e h =
    rw (scan_log_unreadable wt (rounds 0) n e h, wait_loop) refl

wait_done_unreadable :
    (rounds : ℕ → Round) (from : ℕ) (mode : Mode) (bounded : Bool) (start timeout n : ℕ)
    → (rounds 0).log ≡ unreadable n
    → from < n
    → wait_done rounds from mode bounded start timeout ≡ some read_error
unfolding wait_done wait_correlated wait_completion new_watcher
wait_done_unreadable rounds from hooks bounded start timeout n e h =
    wait_loop_unreadable rounds (start + timeout) true timeout (new_watcher from hooks false) n e h
wait_done_unreadable rounds from sentinel bounded start timeout n e h =
    wait_loop_unreadable rounds (start + timeout) true timeout
      (record (new_watcher from sentinel bounded) { require_c = false }) n e h

-- If a command is pending, and the raw log has grown behind its start and cannot be read, the
-- settlement records the command as ended with the exit code 0 and lets the next command proceed.
pub settle_unreadable :
    (w : World) (evs : List Event) (pending : Event) (n : ℕ)
    → pending_cmd evs ≡ some pending
    → (w.settle_rounds 0).log ≡ unreadable n
    → pending.offset < n
    → settle w evs (pending_cmd evs)
      ≡ proceed (append_event w.settled evs (end_event pending.cmd_id zero_result w.settle_ts))
unfolding settle settle_wait settle_result
settle_unreadable w evs pending n p e h = rw p (
    rw (wait_done_unreadable w.settle_rounds pending.offset w.mode w.bounded w.settle_start 0 n e h)
      refl)
