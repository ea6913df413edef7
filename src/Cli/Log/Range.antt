-- ===== src/Cli/Log/Range.antt =====
-- A range of lines that is asked for is the one that is shown.
use pairmux.Prelude.{
  ℕ, ◌+◌, ◌-◌, ◌^◌, ◌≤◌, ◌<◌, ◌≡◌, refl, List, [], ◌∷◌, ◌++◌, Option, none, some, true, false, not,
  ltb, leb, ◌==◌, length, take, drop, arith, length-take, length-drop,
}
use pairmux.Prelude.All.{All, All-take, All-drop}
use pairmux.Bytes.{codes, bytes_eq, all_bytes, split, join}
use pairmux.Bytes.Digits.{is_digit, atoi-decimal, all_digits-decimal, trim_space-digits}
use pairmux.Bytes.Lines.{IsPart, split-join, split-IsPart}
use pairmux.Bytes.Numbers.{ℤ, pos, decimal}
use pairmux.Cli.Flags.Printed.{cut_at-append}
use pairmux.Cli.Log.{
  range_end, is_before, checked_range, range_parts, parse_range, last_line, range_lines, log_range,
}

no_colon : (b : List ℕ) → all_bytes is_digit b ≡ true → all_bytes (λ c. not (c == b':')) b ≡ true
unfolding all_bytes
no_colon [] h = refl
no_colon (c ∷ cs) h = ground (arith, no_colon cs)

digits-ne-end : (b : List ℕ) → all_bytes is_digit b ≡ true → bytes_eq b (codes "end") ≡ false
unfolding all_bytes bytes_eq
digits-ne-end [] h = refl
digits-ne-end (c ∷ cs) h = ground arith

range_end-decimal : (n : ℕ) → n < 2 ^ 63 → range_end (decimal n) ≡ some (pos n)
unfolding range_end
range_end-decimal n h = rw (digits-ne-end (decimal n) (all_digits-decimal n)) (atoi-decimal n h)

parse_range-decimal :
    (a b : ℕ)
    → 1 ≤ a
    → a ≤ b
    → b < 2 ^ 63
    → parse_range (decimal a ++ (b':' ∷ decimal b)) ≡ some (a, pos b)
unfolding parse_range range_parts checked_range is_before
parse_range-decimal a b low h high =
    rw (cut_at-append b':' (decimal a) (decimal b) (no_colon (decimal a) (all_digits-decimal a))) (
      rw
        (
          trim_space-digits (decimal a) (all_digits-decimal a),
          trim_space-digits (decimal b) (all_digits-decimal b),
        )
        (rw (atoi-decimal a (omega arith), range_end-decimal b high) (ground arith)))

-- The lines of a text behind an option.
abbrev pub lines_of : Option (ℕ × ℤ) → List ℕ → List (List ℕ)
lines_of none text = []
lines_of (some r) text = split 0x0A (log_range text r)

split-join_lines :
    (lines : List (List ℕ))
    → 0 < length lines
    → All (IsPart 0x0A) lines
    → split 0x0A (join 0x0A lines) ≡ lines
split-join_lines [] h k = absurd (omega arith)
split-join_lines (p ∷ ps) h k = split-join 0x0A p ps k

-- For two line numbers with `1 <= a <= b`, `b` at most the number of lines and below 2^63, the
-- range that is written as the one, a colon and the other shows exactly the lines from `a` to `b`.
pub log_range-parse_range :
    (text : List ℕ) (a b : ℕ)
    → 1 ≤ a
    → a ≤ b
    → b ≤ length (split 0x0A text)
    → b < 2 ^ 63
    → lines_of (parse_range (decimal a ++ (b':' ∷ decimal b))) text
      ≡ take (b + 1 - a) (drop (a - 1) (split 0x0A text))
unfolding log_range last_line range_lines
log_range-parse_range text a b low h top high =
    let lines : List (List ℕ) = split 0x0A text in
    let shown : List (List ℕ) = take (b + 1 - a) (drop (a - 1) lines) in
    let inside : ltb (length lines) b ≡ false = ground arith in
    let forward : leb a b ≡ true = ground arith in
    let parts =
      All-take (IsPart 0x0A) (b + 1 - a) (drop (a - 1) lines)
        (All-drop (IsPart 0x0A) (a - 1) lines (split-IsPart 0x0A text)) in
    let some_lines : 0 < length shown =
      omega (arith, length-take (b + 1 - a) (drop (a - 1) lines), length-drop (a - 1) lines) in
    rw (parse_range-decimal a b low h high)
      (rw (inside, forward) (split-join_lines shown some_lines parts))
