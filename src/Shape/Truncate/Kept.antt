-- ===== src/Shape/Truncate/Kept.antt =====
-- The lines that Truncate keeps.
use pairmux.Prelude.{
  ℕ, ◌+◌, ◌-◌, ◌≤◌, ◌<◌, ◌≡◌, refl, ap, ◌∙◌, List, [], ◌∷◌, ◌++◌, leb, length, take, drop, arith,
  if_intro, length-append, length-take, length-drop,
}
use pairmux.Prelude.All.{All, All-append, All-take, All-drop}
use pairmux.Bytes.{split, join, all_bytes}
use pairmux.Bytes.Lines.{IsPart, split-join, split-IsPart}
use pairmux.Bytes.Numbers.{ℤ}
use pairmux.Shape.Truncate.{truncate, clamped, trunc_marker}

-- The first `h` lines, the marker and the last `t`.
abbrev kept_lines : ℕ → ℕ → List (List ℕ) → List (List ℕ)
kept_lines h t lines = take h lines ++ (trunc_marker ∷ drop (length lines - t) lines)

length-kept_lines :
    (h t : ℕ) (lines : List (List ℕ))
    → h + t < length lines
    → length (kept_lines h t lines) ≡ h + 1 + t
length-kept_lines h t lines k = omega (
  arith,
  length-append (take h lines) (trunc_marker ∷ drop (length lines - t) lines),
  length-take h lines,
  length-drop (length lines - t) lines,
)

split-kept :
    (ls : List (List ℕ)) → All (IsPart 0x0A) ls → 0 < length ls → split 0x0A (join 0x0A ls) ≡ ls
split-kept [] h k = absurd (omega arith)
split-kept (l ∷ ls) h k = split-join 0x0A l ls h

kept_lines-IsPart : (h t : ℕ) (text : List ℕ) → All (IsPart 0x0A) (kept_lines h t (split 0x0A text))
unfolding all_bytes
kept_lines-IsPart h t text =
    let lines = split 0x0A text in
    let parts = split-IsPart 0x0A text in
    All-append (IsPart 0x0A) (take h lines) _ (All-take (IsPart 0x0A) h lines parts)
      (refl, All-drop (IsPart 0x0A) (length lines - t) lines parts)

-- What a text of more lines than fit becomes.
abbrev pub IsTruncated : List ℕ → ℕ → ℕ → List ℕ × ℕ → Type 0
IsTruncated text h t r =
    (split 0x0A r.0 ≡ kept_lines h t (split 0x0A text))
    × ((length (split 0x0A r.0) ≡ h + 1 + t) × (r.1 + (h + t) ≡ length (split 0x0A text)))

-- A text of more lines than `head` and `tail` together becomes exactly its first lines, the marker
-- and its last lines, and the count is that of the lines left out; a negative count is 0.
pub truncate-IsTruncated :
    (text : List ℕ) (head tail : ℤ)
    → clamped head + clamped tail < length (split 0x0A text)
    → IsTruncated text (clamped head) (clamped tail) (truncate text head tail)
unfolding truncate
truncate-IsTruncated text head tail k =
    let h = clamped head in
    let t = clamped tail in
    let lines = split 0x0A text in
    let count = length-kept_lines h t lines k in
    let same =
      split-kept (kept_lines h t lines) (kept_lines-IsPart h t text) (omega (arith, count)) in
    if_intro (IsTruncated text h t) (leb (length lines) (h + t)) _ _ (λ e. absurd (ground arith))
      (λ e. (same, (ap length same ∙ count, omega arith)))

-- A text that fits is left as it is.
truncate-fits :
    (text : List ℕ) (head tail : ℤ)
    → length (split 0x0A text) ≤ clamped head + clamped tail
    → truncate text head tail ≡ (text, 0)
unfolding truncate
truncate-fits text head tail k = ground arith
