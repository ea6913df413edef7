-- ===== src/Tests/Journal.antt =====
-- Runs of the journal: the properties at concrete inputs.
use pairmux.Prelude.{
  ℕ, zero, suc, ◌+◌, ◌*◌, ◌≤◌, ◌<◌, ◌≡◌, refl, List, [], ◌∷◌, none, some, none, arith,
}
use pairmux.Bytes.{codes}
use pairmux.Bytes.Numbers.{pos, decimal}
use pairmux.Core.{Event, cmd_start, cmd_end, note}
use pairmux.Journal.Events.{pending_cmd}
use pairmux.Journal.Events.Pending.{IsLatest, pending_cmd-IsLatest}
use pairmux.Journal.Locks.{
  Attempt, taken, would_block, acquired, locked, lock_holder, acquire_write_lock, acquire_send_lock,
}
use pairmux.Journal.Locks.Holder.{acquire_write_lock-holder}
use pairmux.Journal.Locks.Waiting.{
  Returns, FreedAt, acquire_send_lock-Returns, acquire_send_lock-acquired,
}
use pairmux.Journal.Raw.{present, tail_bytes}
use pairmux.Journal.Raw.Ranges.{IsLast, tail_bytes-IsLast}

abbrev hello : List ℕ
hello = codes "hello, world"

tail_bytes-IsLast_example : IsLast hello 5 (tail_bytes (present hello) (pos 5))
tail_bytes-IsLast_example = tail_bytes-IsLast hello 5 (omega arith)

abbrev event : Event
event = record {
  ts = 0;
  event_type = note;
  cmd_id = pos 0;
  offset = 0;
  exit_code = none;
  body = codes "hi";
}

-- A command that is done, and one that still runs.
abbrev two_commands : List Event
two_commands =
    record event { event_type = cmd_start; cmd_id = pos 1 }
    ∷ record event { event_type = cmd_end; cmd_id = pos 1 }
    ∷ record event { event_type = cmd_start; cmd_id = pos 2 }
    ∷ event
    ∷ []

pending_cmd-IsLatest_example : IsLatest two_commands (pending_cmd two_commands)
pending_cmd-IsLatest_example = pending_cmd-IsLatest two_commands

acquire_write_lock-holder_example :
    (acquire_write_lock would_block none 8 (acquire_write_lock taken (some 4) 4321 (codes "17")).0
      ≡ (decimal 4321, locked (some (pos 4321))))
    × ((acquire_write_lock would_block none 8
            (acquire_write_lock taken (some 0) 4321 (codes "17")).0
          ≡ ([], locked none))
        × (acquire_write_lock would_block none 8 (acquire_write_lock taken none 4321 (codes "17")).0
            ≡ (codes "17", locked (lock_holder (some (codes "17"))))))
unfolding decimal
acquire_write_lock-holder_example =
    acquire_write_lock-holder 4321 8 4 none (codes "17") (omega arith) (omega arith)

-- Another process sends during the first two attempts.
abbrev attempts : ℕ → Attempt
attempts zero = would_block
attempts (suc zero) = would_block
attempts (suc (suc n)) = taken

abbrev clock : ℕ → ℕ
clock n = 1000 + n * 10

ticks : (n : ℕ) → clock n + 10 ≤ clock (suc n)
ticks n = omega arith

acquire_send_lock-Returns_example :
    Returns attempts clock [] (acquire_send_lock attempts clock 1000 [])
acquire_send_lock-Returns_example =
    acquire_send_lock-Returns attempts clock [] 1000 ticks (omega arith)

freed : FreedAt attempts clock [] 3000 2
freed = (busy, refl)
  where
    busy : (i : ℕ) → i < 2 → (attempts i ≡ would_block) × (clock i < 3000)
    busy zero h = (refl, omega arith)
    busy (suc zero) h = (refl, omega arith)
    busy (suc (suc i)) h = absurd (omega arith)

acquire_send_lock-acquired_example : acquire_send_lock attempts clock 1000 [] ≡ some acquired
acquire_send_lock-acquired_example =
    acquire_send_lock-acquired attempts clock [] 1000 2 ticks (omega arith) freed
