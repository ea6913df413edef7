-- ===== src/Journal/Locks/Waiting.antt =====
-- Waiting for the send lock comes to an end.
use pairmux.Prelude.{
  ℕ, zero, suc, ◌+◌, ◌*◌, ◌≤◌, ◌<◌, ◌≡◌, refl, subst, List, Option, some, true, ltb, arith,
  if_intro, lt→ltb,
}
use pairmux.Journal.Locks.{
  Attempt, taken, would_block, failed, Lock, acquired, send_lock_wait, send_lock_poll,
  send_lock_loop, acquire_send_lock,
}

module _ (attempt : ℕ → Attempt) (now : ℕ → ℕ) (content : List ℕ) where
  -- A round sleeps before the next, for the poll interval at least.
  abbrev pub Sleeps : Type 0
  Sleeps = (n : ℕ) → now n + send_lock_poll ≤ now (suc n)

  -- A result.
  abbrev pub Returns : Option Lock → Type 0
  Returns r = (l : Lock) × (r ≡ some l)

  elapsed : Sleeps → (n : ℕ) → now 0 + n * send_lock_poll ≤ now n
  elapsed h zero = omega arith
  elapsed h (suc n) = omega (arith, h n, elapsed h n)

  -- A round returns if the rounds behind it do.
  round-Returns :
      (deadline fuel n : ℕ)
      → (ltb (now n) deadline ≡ true
          → Returns (send_lock_loop attempt now deadline content fuel (suc n)))
      → (a : Attempt) → attempt n ≡ a
      → Returns (send_lock_loop attempt now deadline content (suc fuel) n)
  unfolding send_lock_loop
  round-Returns deadline fuel n later taken e = rw (e, send_lock_loop) (acquired, refl)
  round-Returns deadline fuel n later failed e = rw (e, send_lock_loop) (_, refl)
  round-Returns deadline fuel n later would_block e =
      rw (e, send_lock_loop) (if_intro Returns (ltb (now n) deadline) _ _ later (λ _. (_, refl)))

  send_lock_loop-Returns :
      (deadline fuel n : ℕ)
      → Sleeps
      → deadline ≤ now n + fuel * send_lock_poll
      → Returns (send_lock_loop attempt now deadline content (suc fuel) n)
  send_lock_loop-Returns deadline zero n h e =
      round-Returns deadline zero n (λ t. absurd (ground arith)) (attempt n) refl
  send_lock_loop-Returns deadline (suc fuel) n h e =
      round-Returns deadline (suc fuel) n
        (λ t. send_lock_loop-Returns deadline fuel (suc n) h (omega (arith, h n))) (attempt n) refl

  -- If the rounds are 10 milliseconds apart at least, waiting for the send lock ends with the
  -- lock, the holder or an error, whoever holds it.
  pub acquire_send_lock-Returns :
      (start : ℕ) → Sleeps → start ≤ now 0 → Returns (acquire_send_lock attempt now start content)
  unfolding acquire_send_lock
  acquire_send_lock-Returns start h k =
      send_lock_loop-Returns (start + send_lock_wait) 200 0 h (omega arith)

  -- The attempts before `k` fail in time, and attempt `k` succeeds.
  abbrev pub FreedAt : ℕ → ℕ → Type 0
  FreedAt deadline k =
      ((i : ℕ) → i < k → (attempt i ≡ would_block) × (now i < deadline)) × (attempt k ≡ taken)

  send_lock_loop-acquired :
      (deadline fuel n j : ℕ)
      → FreedAt deadline (n + j)
      → j < fuel
      → send_lock_loop attempt now deadline content fuel n ≡ some acquired
  unfolding send_lock_loop
  send_lock_loop-acquired deadline zero n j h k = absurd (omega arith)
  send_lock_loop-acquired deadline (suc fuel) n zero h k =
      let free : attempt n ≡ taken = subst (λ i. attempt i ≡ taken) (omega arith) h.1 in
      rw (free, send_lock_loop) refl
  send_lock_loop-acquired deadline (suc fuel) n (suc j) h k =
      let busy = h.0 n (omega arith) in
      rw (busy.0, lt→ltb (now n) deadline busy.1, send_lock_loop)
        (send_lock_loop-acquired deadline fuel (suc n) j
          (subst (λ i. FreedAt deadline i) (omega arith) h) (omega arith))

  -- If the rounds are 10 milliseconds apart at least, and the holder of the send lock lets go of
  -- it so that an attempt succeeds after others that failed before the deadline, the lock is
  -- acquired.
  pub acquire_send_lock-acquired :
      (start k : ℕ)
      → Sleeps
      → start ≤ now 0
      → FreedAt (start + send_lock_wait) k
      → acquire_send_lock attempt now start content ≡ some acquired
  unfolding acquire_send_lock
  acquire_send_lock-acquired start zero h b f =
      send_lock_loop-acquired (start + send_lock_wait) 201 0 0 f (omega arith)
  acquire_send_lock-acquired start (suc k) h b f =
      send_lock_loop-acquired (start + send_lock_wait) 201 0 (suc k)
        (subst (λ i. FreedAt (start + send_lock_wait) i) (omega arith) f)
        (omega (arith, elapsed h k, (f.0 k (omega arith)).1))
