-- ===== src/Journal/Locks.antt =====
-- The locks of a terminal: AcquireWriteLock, AcquireSendLock and the pid of a holder.
pub mod Waiting
pub mod Holder
use pairmux.Prelude.{
  ℕ, zero, suc, ◌+◌, List, [], Option, none, some, Bool, true, false, ltb, if◌then◌else◌, take,
}
use pairmux.Bytes.{is_empty}
use pairmux.Bytes.Numbers.{ℤ, pos, negsuc, atoi, decimal}
use pairmux.Bytes.Space.{trim_space}

-- What `flock.TryLock` does.
pub data Attempt : Type 0 where
  taken : Attempt
  would_block : Attempt
  failed : Attempt

-- The release function holds the lock, another process holds it, or the lock failed.
pub data Lock : Type 0 where
  acquired : Lock
  locked : Option ℤ → Lock
  lock_error : Lock

-- `LockHolder` on the file's bytes, none when there is no file.
unfoldable pub lock_holder : Option (List ℕ) → Option ℤ
unfolding is_empty trim_space atoi
lock_holder none = none
lock_holder (some b) =
    let pid = atoi (trim_space b) in if is_empty (trim_space b) then none else pid

-- The pid of the error message, which must be positive.
unfoldable pub positive : Option ℤ → Option ℤ
positive none = none
positive (some (negsuc n)) = none
positive (some (pos n)) = if ltb 0 n then some (pos n) else none

unfoldable send_lock_holder : Option (List ℕ) → Option ℤ
unfolding positive atoi trim_space
send_lock_holder none = none
send_lock_holder (some b) = positive (atoi (trim_space b))

-- What becomes of the file when the pid is recorded, as far as that goes: none when it cannot be
-- emptied, else how many bytes are written.
unfoldable pub record_pid : Option ℕ → ℕ → List ℕ → List ℕ
unfolding decimal
record_pid none pid content = content
record_pid (some n) pid content = take n (decimal pid)

-- `AcquireWriteLock` by process `pid`: the bytes of write.lock afterwards, and the result.
unfoldable pub acquire_write_lock : Attempt → Option ℕ → ℕ → List ℕ → List ℕ × Lock
unfolding record_pid lock_holder
acquire_write_lock taken written pid content = (record_pid written pid content, acquired)
acquire_write_lock would_block written pid content = (content, locked (lock_holder (some content)))
acquire_write_lock failed written pid content = (content, lock_error)

-- In milliseconds.
abbrev pub send_lock_wait : ℕ
send_lock_wait = 2000

abbrev pub send_lock_poll : ℕ
send_lock_poll = 10

-- Round `n` of the loop of `AcquireSendLock`, on fuel: `attempt n` is what TryLock does in it,
-- `now n` the time after it. None when the fuel runs out.
unfoldable pub send_lock_loop : (ℕ → Attempt) → (ℕ → ℕ) → ℕ → List ℕ → ℕ → ℕ → Option Lock
unfolding send_lock_holder
send_lock_loop attempt now deadline content zero n = none
send_lock_loop attempt now deadline content (suc fuel) n =
    let again = send_lock_loop attempt now deadline content fuel (suc n) in
    elim (attempt n) [
      | taken ↦ some acquired
      | failed ↦ some lock_error
      | would_block ↦
          if ltb (now n) deadline then again else some (locked (send_lock_holder (some content)))
    ]

unfoldable pub acquire_send_lock : (ℕ → Attempt) → (ℕ → ℕ) → ℕ → List ℕ → Option Lock
unfolding send_lock_loop
acquire_send_lock attempt now start content =
    send_lock_loop attempt now (start + send_lock_wait) content 201 0
