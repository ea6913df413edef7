-- ===== src/Cli/Log.antt =====
-- Ranges of the log command: parseRange, shapedJournal, logRange and logCmd of
-- internal/cli/commands.go.
pub mod Range
use pairmux.Prelude.{
  ℕ, ◌+◌, ◌-◌, List, [], ◌∷◌, Option, none, some, Bool, true, false, ◌&&◌, ◌||◌, ltb, leb, ◌==◌,
  if◌then◌else◌, length, take, drop,
}
use pairmux.Bytes.{codes, bytes_eq, split, join, cut_at}
use pairmux.Bytes.Numbers.{ℤ, pos, negsuc, atoi}
use pairmux.Bytes.Space.{trim_space}
use pairmux.Core.{Event}
use pairmux.Cli.Output.{clean_no_trunc}
use pairmux.Journal.Events.{is_start, is_end, int_eq}
use pairmux.Journal.Raw.{RawLog, read_range}

-- The last line, -1 for the end.
unfoldable pub range_end : List ℕ → Option ℤ
unfolding bytes_eq atoi
range_end s = let n = atoi s in if bytes_eq s (codes "end") then some (negsuc 0) else n

unfoldable pub is_before : ℤ → ℕ → Bool
is_before (pos b) a = ltb b a
is_before (negsuc b) a = false

-- The checks on the two numbers.
unfoldable pub checked_range : Option ℤ → Option ℤ → Option (ℕ × ℤ)
unfolding is_before
checked_range none b = none
checked_range (some a) none = none
checked_range (some (negsuc a)) (some b) = none
checked_range (some (pos a)) (some b) = if ltb a 1 || is_before b a then none else some (a, b)

unfoldable pub range_parts : List ℕ × Option (List ℕ) → Option (ℕ × ℤ)
range_parts (first, none) = none
range_parts (first, some last) =
    checked_range (atoi (trim_space first)) (range_end (trim_space last))

-- `parseRange`, none for an error.
unfoldable pub parse_range : List ℕ → Option (ℕ × ℤ)
unfolding range_parts cut_at
parse_range s = range_parts (cut_at b':' s)

-- `shapedJournal`, of what the log holds.
unfoldable shaped_journal : RawLog → Option (List ℕ)
unfolding read_range clean_no_trunc
shaped_journal log = elim (read_range log (pos 0) (negsuc 0)) [
  | none ↦ none
  | some raw ↦ some (clean_no_trunc raw [])
]

unfoldable pub last_line : ℤ → ℕ → ℕ
last_line (negsuc b) count = count
last_line (pos b) count = if ltb count b then count else b

-- The lines of `logRange`, from `a` to `b`, the first being 1.
unfoldable pub range_lines : List (List ℕ) → ℕ → ℕ → List (List ℕ)
range_lines lines a b = take (b + 1 - a) (drop (a - 1) lines)

unfoldable pub log_range : List ℕ → ℕ × ℤ → List ℕ
unfolding split join last_line range_lines
log_range text (a, b) =
    let lines = split 0x0A text in
    let last = last_line b (length lines) in
    if leb a last then join 0x0A (range_lines lines a last) else []

-- The start and the end of a command in the log, the last of each.
unfoldable find_start : ℤ → List Event → Option Event → Option Event
unfolding is_start int_eq
find_start id [] found = found
find_start id (ev ∷ evs) found =
    find_start id evs (if is_start ev.event_type && int_eq ev.cmd_id id then some ev else found)

unfoldable find_end : ℤ → List Event → Option ℕ → Option ℕ
unfolding is_end int_eq
find_end id [] found = found
find_end id (ev ∷ evs) found =
    find_end id evs (if is_end ev.event_type && int_eq ev.cmd_id id then some ev.offset else found)
