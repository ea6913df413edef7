-- ===== src/Detect/Ready.antt =====
-- Waiting for a new shell: WaitReady, WaitPromptCycle and Quiesce of internal/detect/wait.go.
pub mod Ends
pub mod Prompts
use pairmux.Prelude.{
  ℕ, zero, suc, ◌+◌, ◌-◌, ◌/◌, List, [], ◌∷◌, Option, none, some, Bool, true, false, not, ◌&&◌,
  ◌||◌, ltb, leb, ◌==◌, if◌then◌else◌, length, min, max,
}
use pairmux.Bytes.Numbers.{pos}
use pairmux.Core.{Mode, hooks, sentinel}
use pairmux.Detect.Scanner.{Mark, MarkKind, mark_a, mark_d, Scanner, new_scanner, feed}
use pairmux.Detect.Wait.{Round}
use pairmux.Detect.Watch.{is_kind}
use pairmux.Journal.Raw.{RawLog, size, read_range}

-- The outcome of such a wait: an error of reading, or its verdict.
pub data Ready : Type 0 where
  unread : Ready
  verdict : Bool → Ready

-- What has been read.
pub record Reader : Type 0 where
  pub off : ℕ
  pub sc : Scanner

-- The marks that the log has gained, none when reading fails.
unfoldable read_chunk : Reader → Option (List ℕ) → Reader × Option (List Mark)
unfolding feed
read_chunk r none = (r, none)
read_chunk r (some data') =
    let (sc, marks) = feed r.sc data' in
    (record { off = r.off + length data'; sc = sc }, some marks)

unfoldable pub read_marks : Reader → RawLog → Reader × Option (List Mark)
unfolding read_chunk read_range size
read_marks r log =
    let chunk = read_chunk r (read_range log (pos r.off) (pos (size log))) in
    if ltb r.off (size log) then chunk else (r, some [])

abbrev pub new_reader : Reader
new_reader = record { off = 0; sc = new_scanner 0 }

unfoldable any_prompt : List Mark → Bool
unfolding is_kind
any_prompt [] = false
any_prompt (m ∷ ms) = is_kind m.kind mark_a || any_prompt ms

-- The prompts and the D seen so far.
pub record Cycle : Type 0 where
  pub prompts : ℕ
  pub saw_d : Bool

-- One mark, and whether it ends the cycle.
unfoldable pub cycle_mark : Cycle → Mark → Cycle × Bool
unfolding is_kind
cycle_mark c m =
    if is_kind m.kind mark_d
    then (record c { saw_d = true }, false)
    else if is_kind m.kind mark_a
    then (record c { prompts = c.prompts + 1 }, c.saw_d || leb 2 (c.prompts + 1))
    else (c, false)

unfoldable pub cycle_next : Cycle × Bool → Cycle × Bool → Cycle × Bool
cycle_next (c, true) rest = (c, true)
cycle_next (c, false) rest = rest

unfoldable pub cycle_marks : Cycle → List Mark → Cycle × Bool
unfolding cycle_mark cycle_next
cycle_marks c [] = (c, false)
cycle_marks c (m ∷ ms) = cycle_next (cycle_mark c m) (cycle_marks (cycle_mark c m).0 ms)

abbrev pub new_cycle : Cycle
new_cycle = record { prompts = 0; saw_d = false }

-- The marks of a round, none when reading failed.
unfoldable pub prompt_seen : Option (List Mark) → Option Bool
unfolding any_prompt
prompt_seen none = none
prompt_seen (some ms) = some (any_prompt ms)

unfoldable pub cycle_seen : Cycle → Option (List Mark) → Cycle × Option Bool
unfolding cycle_marks
cycle_seen c none = (c, none)
cycle_seen c (some ms) = let (c1, ended) = cycle_marks c ms in (c1, some ended)

-- What a round ends with: an error, a prompt, the deadline, or nothing yet.
unfoldable pub round_ends : Option Bool → Bool → Option Ready
round_ends none past = some unread
round_ends (some true) past = some (verdict true)
round_ends (some false) past = if past then some (verdict false) else none

-- The loop of `WaitReady` in hooks mode, on fuel: round `n` finds `rounds n`.
unfoldable pub ready_loop : (ℕ → Round) → ℕ → ℕ → Reader → ℕ → Option Ready
unfolding read_marks prompt_seen round_ends
ready_loop rounds deadline zero r n = none
ready_loop rounds deadline (suc fuel) r n =
    let (r1, marks) = read_marks r (rounds n).log in
    let seen = prompt_seen marks in
    let rest = ready_loop rounds deadline fuel r1 (suc n) in
    elim (round_ends seen (leb deadline (rounds n).now)) [ none ↦ rest | some e ↦ some e ]

-- The loop of `WaitPromptCycle`.
unfoldable pub cycle_loop : (ℕ → Round) → ℕ → ℕ → Reader → Cycle → ℕ → Option Ready
unfolding read_marks cycle_seen round_ends
cycle_loop rounds deadline zero r c n = none
cycle_loop rounds deadline (suc fuel) r c n =
    let (r1, marks) = read_marks r (rounds n).log in
    let (c1, seen) = cycle_seen c marks in
    let rest = cycle_loop rounds deadline fuel r1 c1 (suc n) in
    elim (round_ends seen (leb deadline (rounds n).now)) [ none ↦ rest | some e ↦ some e ]

-- `WaitPromptCycle`, begun at `start`; a round sleeps for a millisecond at least.
unfoldable pub wait_prompt_cycle : (ℕ → Round) → ℕ → ℕ → Option Ready
unfolding cycle_loop
wait_prompt_cycle rounds start timeout =
    cycle_loop rounds (start + timeout) (suc timeout) new_reader new_cycle 0

-- How long a round of `Quiesce` sleeps, in milliseconds.
unfoldable quiesce_poll : ℕ → ℕ
quiesce_poll idle = max (min (idle / 4) 50) 1

-- The loop of `Quiesce`: the last size of the log and when it changed.
unfoldable pub quiesce_loop : (ℕ → Round) → ℕ → ℕ → ℕ → ℕ → ℕ → ℕ → Option Bool
unfolding size
quiesce_loop rounds idle deadline zero last_size last_change n = none
quiesce_loop rounds idle deadline (suc fuel) last_size last_change n =
    let now = (rounds n).now in
    let changed = if size (rounds n).log == last_size then last_change else now in
    let rest = quiesce_loop rounds idle deadline fuel (size (rounds n).log) changed (suc n) in
    if leb idle (now - changed) then some true else if leb deadline now then some false else rest

-- `Quiesce`, begun at `start` on a log of `size0` bytes.
unfoldable pub quiesce : (ℕ → Round) → ℕ → ℕ → ℕ → ℕ → Option Bool
unfolding quiesce_loop
quiesce rounds idle start timeout size0 =
    quiesce_loop rounds idle (start + timeout) (suc timeout) size0 start 0

-- `WaitReady`; in sentinel mode it waits for silence and reports no hooks.
unfoldable pub wait_ready : (ℕ → Round) → Mode → ℕ → ℕ → ℕ → Option Ready
unfolding ready_loop quiesce
wait_ready rounds hooks start timeout size0 =
    ready_loop rounds (start + timeout) (suc timeout) new_reader 0
wait_ready rounds sentinel start timeout size0 = elim (quiesce rounds 800 start timeout size0) [
  | none ↦ none
  | some quiet ↦ some (verdict false)
]
