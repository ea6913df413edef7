-- ===== src/Detect/Ready/Ends.antt =====
-- The waits for a new shell come to an end.
use pairmux.Prelude.{
  ℕ, zero, suc, ◌+◌, ◌≤◌, ◌≡◌, refl, Option, none, some, Bool, true, false, leb, ◌==◌,
  if◌then◌else◌, arith,
}
use pairmux.Core.{Mode, hooks, sentinel}
use pairmux.Detect.Ready.{
  Ready, verdict, Reader, new_reader, Cycle, new_cycle, read_marks, prompt_seen, cycle_seen,
  round_ends, ready_loop, cycle_loop, wait_prompt_cycle, quiesce_loop, quiesce, wait_ready,
}
use pairmux.Detect.Wait.{Round}
use pairmux.Detect.Wait.Deadline.{Returns, Sleeps}
use pairmux.Journal.Raw.{size}

-- At the deadline a round ends the wait.
round_ends-Returns : (o : Option Bool) → Returns (round_ends o true)
unfolding round_ends
round_ends-Returns none = (_, refl)
round_ends-Returns (some true) = (_, refl)
round_ends-Returns (some false) = (_, refl)

-- The end of a round, or else that of the rounds behind it.
or_rest :
    (o rest : Option Ready)
    → Returns rest
    → Returns {A = Ready} (elim o [ none ↦ rest | some e ↦ some e ])
or_rest none rest h = h
or_rest (some e) rest h = (e, refl)

last_round :
    (o rest : Option Ready)
    → Returns o
    → Returns {A = Ready} (elim o [ none ↦ rest | some e ↦ some e ])
last_round none rest (e, h) = cc
last_round (some x) rest h = (x, refl)

-- Silence, the deadline, or the rounds behind.
or_past :
    (quiet past : Bool) (rest : Option Bool)
    → (past ≡ false → Returns rest)
    → Returns (if quiet then some true else if past then some false else rest)
or_past true past rest h = (_, refl)
or_past false true rest h = (_, refl)
or_past false false rest h = h refl

module _ (rounds : ℕ → Round) (deadline : ℕ) (sleeps : Sleeps rounds) where
  ready_loop-Returns :
      (fuel : ℕ) (r : Reader) (n : ℕ)
      → deadline ≤ (rounds n).now + fuel
      → Returns (ready_loop rounds deadline (suc fuel) r n)
  unfolding ready_loop
  ready_loop-Returns zero r n h =
      let past : leb deadline (rounds n).now ≡ true = ground arith in
      last_round
        (round_ends (prompt_seen (read_marks r (rounds n).log).1) (leb deadline (rounds n).now))
        none (rw past (round_ends-Returns _))
  ready_loop-Returns (suc fuel) r n h =
      or_rest _ _
        (ready_loop-Returns fuel (read_marks r (rounds n).log).0 (suc n) (omega (arith, sleeps n)))

  cycle_loop-Returns :
      (fuel : ℕ) (r : Reader) (c : Cycle) (n : ℕ)
      → deadline ≤ (rounds n).now + fuel
      → Returns (cycle_loop rounds deadline (suc fuel) r c n)
  unfolding cycle_loop
  cycle_loop-Returns zero r c n h =
      let past : leb deadline (rounds n).now ≡ true = ground arith in
      last_round
        (round_ends (cycle_seen c (read_marks r (rounds n).log).1).1 (leb deadline (rounds n).now))
        none (rw past (round_ends-Returns _))
  cycle_loop-Returns (suc fuel) r c n h = or_rest _ _ (
      cycle_loop-Returns fuel (read_marks r (rounds n).log).0
        (cycle_seen c (read_marks r (rounds n).log).1).0 (suc n) (omega (arith, sleeps n)))

  quiesce_loop-Returns :
      (idle fuel last_size last_change n : ℕ)
      → deadline ≤ (rounds n).now + fuel
      → Returns (quiesce_loop rounds idle deadline (suc fuel) last_size last_change n)
  unfolding quiesce_loop
  quiesce_loop-Returns idle zero last_size last_change n h =
      or_past _ (leb deadline (rounds n).now) _ (λ e. absurd (ground (arith, e)))
  quiesce_loop-Returns idle (suc fuel) last_size last_change n h =
      or_past _ (leb deadline (rounds n).now) _ (λ e.
        quiesce_loop-Returns idle fuel (size (rounds n).log)
          (if size (rounds n).log == last_size then last_change else (rounds n).now) (suc n)
          (omega (arith, sleeps n)))

-- What silence leaves of a wait in sentinel mode.
abbrev without_hooks : Option Bool → Option Ready
without_hooks o = elim o [ none ↦ none | some quiet ↦ some (verdict false) ]

without_hooks-Returns : (o : Option Bool) → Returns o → Returns (without_hooks o)
without_hooks-Returns none (b, h) = cc
without_hooks-Returns (some b) h = (_, refl)

-- If each round of the wait is later than the one before by a millisecond at least, and the first
-- not before the start, `WaitReady` in either mode and `WaitPromptCycle` end with a verdict or an
-- error.
pub wait_ready-Returns :
    (rounds : ℕ → Round) (mode : Mode) (start timeout size0 : ℕ)
    → Sleeps rounds
    → start ≤ (rounds 0).now
    → Returns (wait_ready rounds mode start timeout size0)
      × Returns (wait_prompt_cycle rounds start timeout)
unfolding wait_ready wait_prompt_cycle quiesce
wait_ready-Returns rounds hooks start timeout size0 h k = (
  ready_loop-Returns rounds (start + timeout) h timeout new_reader 0 (omega arith),
  cycle_loop-Returns rounds (start + timeout) h timeout new_reader new_cycle 0 (omega arith),
)
wait_ready-Returns rounds sentinel start timeout size0 h k = (
  without_hooks-Returns _
      (quiesce_loop-Returns rounds (start + timeout) h 800 timeout size0 start 0 (omega arith)),
  cycle_loop-Returns rounds (start + timeout) h timeout new_reader new_cycle 0 (omega arith),
)
