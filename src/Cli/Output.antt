-- ===== src/Cli/Output.antt =====
-- The shaping helpers of internal/cli/cli.go: cleanNoTrunc, trimTrailingBlank and lastLines; and the
-- read of a range of the raw log whose error the commands drop.
use pairmux.Prelude.{ℕ, ◌-◌, List, [], none, some, ◌||◌, leb, ◌==◌, if◌then◌else◌, length, drop}
use pairmux.Bytes.{split, join, trim_end, is_empty}
use pairmux.Bytes.Space.{is_blank}
use pairmux.Bytes.Numbers.{ℤ, pos}
use pairmux.Journal.Raw.{RawLog, read_range}
use pairmux.Shape.Echo.{drop_echoed_command}
use pairmux.Shape.Escapes.{strip_ansi}
use pairmux.Shape.Overwrites.{collapse_cr}

unfoldable trim_trailing_blank : List ℕ → List ℕ
unfolding split trim_end is_blank join
trim_trailing_blank s = join 0x0A (trim_end is_blank (split 0x0A s))

unfoldable pub clean_no_trunc : List ℕ → List ℕ → List ℕ
unfolding trim_trailing_blank strip_ansi collapse_cr drop_echoed_command
clean_no_trunc raw cmd =
    drop_echoed_command (trim_trailing_blank (strip_ansi (collapse_cr raw))) cmd

-- The last `n` lines, and how many stand before them; all of them for no lines.
unfoldable pub last_lines : List ℕ → ℕ → List ℕ × ℕ
unfolding split join is_empty
last_lines s n =
    let lines = split 0x0A s in
    let omitted = length lines - n in
    if (n == 0) || is_empty s
    then (s, 0)
    else if leb (length lines) n
    then (s, 0)
    else (join 0x0A (drop omitted lines), omitted)

-- A range of the log, nothing when it cannot be read.
unfoldable pub raw_range : RawLog → ℕ → ℤ → List ℕ
unfolding read_range
raw_range log from to = elim (read_range log (pos from) to) [ none ↦ [] | some b ↦ b ]
