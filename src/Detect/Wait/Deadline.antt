-- ===== src/Detect/Wait/Deadline.antt =====
-- The waits for a command come to an end.
use pairmux.Prelude.{
  ℕ, zero, suc, ◌+◌, ◌≤◌, ◌<◌, ◌≡◌, refl, Option, none, some, Bool, true, false, leb, arith,
  if_intro,
}
use pairmux.Core.{Mode, hooks}
use pairmux.Detect.Outcome.{RunResult}
use pairmux.Detect.Prompt.{Prompt}
use pairmux.Detect.Watch.{Watcher, new_watcher}
use pairmux.Detect.Wait.{
  Round, Wait, scan_log, prompt_or_deadline, or_wait, after_scan, after_scan_correlated, or_after,
  wait_round, wait_loop, wait_completion, wait_correlated,
}

-- A result.
abbrev pub Returns {ℓ} : {A : Type ℓ} → Option A → Type ℓ
Returns {A = A} o = (a : A) × (o ≡ some a)

or_wait-Returns :
    (o : Option RunResult) (rest : Option Wait) → Returns rest → Returns (or_wait o rest)
unfolding or_wait
or_wait-Returns none rest h = h
or_wait-Returns (some r) rest h = (_, refl)

prompt_or_deadline-Returns :
    (off : ℕ) (p : Option Prompt) (late : RunResult) → Returns (prompt_or_deadline off p true late)
unfolding prompt_or_deadline
prompt_or_deadline-Returns off none late = (_, refl)
prompt_or_deadline-Returns off (some p) late = (_, refl)

after_scan-Returns :
    (w : Watcher) (r : Round) (deadline : ℕ) (stop : Bool)
    → deadline ≤ r.now
    → Returns (after_scan w r deadline stop)
unfolding after_scan
after_scan-Returns w r deadline stop h =
    let past : leb deadline r.now ≡ true = ground arith in
    rw past (or_wait-Returns _ _ (prompt_or_deadline-Returns _ _ _))

after_scan_correlated-Returns :
    (w : Watcher) (r : Round) (deadline : ℕ) (stop : Bool)
    → deadline ≤ r.now
    → Returns (after_scan_correlated w r deadline stop)
unfolding after_scan_correlated
after_scan_correlated-Returns w r deadline stop h =
    let past : leb deadline r.now ≡ true = ground arith in
    rw past (or_wait-Returns _ _ (prompt_or_deadline-Returns _ _ _))

or_after-Returns :
    (w : Watcher) (o after : Option Wait) → Returns after → Returns (or_after w o after).1
unfolding or_after
or_after-Returns w none after h = h
or_after-Returns w (some r) after h = (r, refl)

-- A round at the deadline or behind it is the last.
wait_round-Returns :
    (w : Watcher) (r : Round) (deadline : ℕ) (stop : Bool)
    → deadline ≤ r.now
    → Returns (wait_round w r deadline stop).1
unfolding wait_round
wait_round-Returns w r deadline stop h = or_after-Returns (scan_log w r).0 (scan_log w r).1 _ (
    if_intro Returns w.require_c _ _
      (λ _. after_scan_correlated-Returns (scan_log w r).0 r deadline stop h)
      (λ _. after_scan-Returns (scan_log w r).0 r deadline stop h))

module _ (rounds : ℕ → Round) where
  -- A round sleeps for a millisecond at least before the next.
  abbrev pub Sleeps : Type 0
  Sleeps = (n : ℕ) → (rounds n).now < (rounds (suc n)).now

  wait_loop-Returns :
      (deadline : ℕ) (stop : Bool) (fuel : ℕ) (w : Watcher) (n : ℕ)
      → Sleeps
      → deadline ≤ (rounds n).now + fuel
      → Returns (wait_loop rounds deadline stop (suc fuel) w n)
  unfolding wait_loop
  wait_loop-Returns deadline stop zero w n h k =
      let last = wait_round-Returns w (rounds n) deadline stop (omega arith) in
      rw (last.1, wait_loop) (last.0, refl)
  wait_loop-Returns deadline stop (suc fuel) w n h k =
      or_rest (wait_round w (rounds n) deadline stop).1 (
        wait_loop-Returns deadline stop fuel (wait_round w (rounds n) deadline stop).0 (suc n) h
          (omega (arith, h n)))
    where
      or_rest :
          (o : Option Wait)
          → {rest : Option Wait} → Returns rest
          → Returns {A = Wait} (elim o [ none ↦ rest | some r ↦ some r ])
      or_rest none h = h
      or_rest (some r) h = (r, refl)

  -- The wait without the C ends too.
  wait_completion-Returns :
      (from : ℕ) (mode : Mode) (bounded : Bool) (start timeout : ℕ) (stop : Bool)
      → Sleeps
      → start ≤ (rounds 0).now
      → Returns (wait_completion rounds from mode bounded start timeout stop)
  unfolding wait_completion
  wait_completion-Returns from mode bounded start timeout stop h k =
      wait_loop-Returns (start + timeout) stop timeout
        (record (new_watcher from mode bounded) { require_c = false }) 0 h (omega arith)

  -- If each round of a wait is later than the one before by a millisecond at least, and the first
  -- not before the start, then the correlated wait, with or without the C required, and the plain
  -- wait, in either mode, bounded or not, both end with a result or an error, whatever the
  -- timeout.
  pub wait_correlated-Returns :
      (from : ℕ) (mode : Mode) (bounded require_c : Bool) (start timeout : ℕ) (stop : Bool)
      → Sleeps
      → start ≤ (rounds 0).now
      → Returns (wait_correlated rounds from require_c start timeout stop)
        × Returns (wait_completion rounds from mode bounded start timeout stop)
  unfolding wait_correlated
  wait_correlated-Returns from mode bounded require_c start timeout stop h k = (
    if_intro Returns require_c _ _
        (λ _.
          wait_loop-Returns (start + timeout) stop timeout (new_watcher from hooks false) 0 h
            (omega arith))
        (λ _. wait_completion-Returns from hooks false start timeout stop h k),
    wait_completion-Returns from mode bounded start timeout stop h k,
  )
