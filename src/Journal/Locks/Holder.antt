-- ===== src/Journal/Locks/Holder.antt =====
-- The pid that a lock file names.
use pairmux.Prelude.{ℕ, ◌<◌, ◌≤◌, ◌^◌, ◌≡◌, refl, List, [], Option, some, none, length}
use pairmux.Bytes.{is_empty}
use pairmux.Bytes.Space.{trim_space, trim_left, trim_right}
use pairmux.Bytes.Digits.{atoi-decimal, all_digits-decimal, trim_space-digits, is_empty-decimal}
use pairmux.Bytes.Numbers.{pos, decimal}
use pairmux.Journal.Locks.{taken, would_block, locked, lock_holder, record_pid, acquire_write_lock}
use pairmux.Journal.Raw.Ranges.{take-all}

-- The pid that a process records is the one that is read.
lock_holder-decimal : (pid : ℕ) → pid < 2 ^ 63 → lock_holder (some (decimal pid)) ≡ some (pos pid)
unfolding lock_holder
lock_holder-decimal pid h =
    rw
      (
        trim_space-digits (decimal pid) (all_digits-decimal pid),
        is_empty-decimal pid,
        atoi-decimal pid h,
      )
      refl

-- If all of the pid of the process that has the write lock is recorded, and it is below 2^63,
-- another that finds the lock held fails with that pid and leaves the file as it was; if the file
-- was only emptied it fails without a holder, and if it was not even emptied, with what the file
-- named before.
pub acquire_write_lock-holder :
    (pid other n : ℕ) (written : Option ℕ) (content : List ℕ)
    → pid < 2 ^ 63
    → length (decimal pid) ≤ n
    → (acquire_write_lock would_block written other
          (acquire_write_lock taken (some n) pid content).0
        ≡ (decimal pid, locked (some (pos pid))))
      × ((acquire_write_lock would_block written other
              (acquire_write_lock taken (some 0) pid content).0
            ≡ ([], locked none))
          × (acquire_write_lock would_block written other
                (acquire_write_lock taken none pid content).0
              ≡ (content, locked (lock_holder (some content)))))
unfolding acquire_write_lock record_pid
acquire_write_lock-holder pid other n written content h k = (
  rw (take-all n (decimal pid) k, lock_holder-decimal pid h) refl,
  (unfold lock_holder is_empty trim_space trim_left trim_right in refl, refl),
)
