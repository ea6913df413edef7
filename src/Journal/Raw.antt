-- ===== src/Journal/Raw.antt =====
-- Reading the raw log: Size, ReadRange and TailBytes. A read yields all the bytes of its range.
pub mod Ranges
use pairmux.Prelude.{
  ℕ, ◌+◌, ◌-◌, List, [], ◌∷◌, Option, none, some, Bool, true, false, ◌&&◌, ltb, leb, if◌then◌else◌,
  length, take, drop, min,
}
use pairmux.Bytes.Numbers.{ℤ, pos, negsuc}

-- raw.log: missing, of some size but not to be opened, or with its bytes.
pub data RawLog : Type 0 where
  absent : RawLog
  unreadable : ℕ → RawLog
  present : List ℕ → RawLog

unfoldable pub size : RawLog → ℕ
size absent = 0
size (unreadable n) = n
size (present b) = length b

-- The clamping of `from`, and that of `to`, in which a negative `to` is the end of the file.
unfoldable pub clamp_from : ℤ → ℕ → ℕ
clamp_from (negsuc n) size = 0
clamp_from (pos n) size = if ltb size n then size else n

unfoldable pub clamp_to : ℤ → ℕ → ℕ
clamp_to (negsuc n) size = size
clamp_to (pos n) size = if ltb size n then size else n

-- `ReadRange`, none for an error.
unfoldable pub read_range : RawLog → ℤ → ℤ → Option (List ℕ)
unfolding clamp_from clamp_to
read_range absent from to = some []
read_range (unreadable n) from to = none
read_range (present b) from to =
    let first = clamp_from from (length b) in
    let last = clamp_to to (length b) in
    if leb last first then some [] else some (take (last - first) (drop first b))

-- Where `TailBytes` begins to read.
unfoldable pub tail_from : ℤ → ℕ → ℕ
tail_from (negsuc n) size = 0
tail_from (pos n) size = if ltb 0 n && ltb n size then size - n else 0

unfoldable pub with_offset : ℕ → Option (List ℕ) → Option (List ℕ × ℕ)
with_offset from none = none
with_offset from (some b) = some (b, from)

unfoldable pub tail_bytes : RawLog → ℤ → Option (List ℕ × ℕ)
unfolding size tail_from with_offset read_range
tail_bytes log count =
    let n = size log in
    let from = tail_from count n in with_offset from (read_range log (pos from) (pos n))
