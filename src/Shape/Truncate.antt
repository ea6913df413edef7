-- ===== src/Shape/Truncate.antt =====
-- Keeping the first and the last lines: Truncate.
pub mod Kept
use pairmux.Prelude.{ℕ, ◌+◌, ◌-◌, List, [], ◌∷◌, ◌++◌, leb, if◌then◌else◌, length, take, drop}
use pairmux.Bytes.{split, join}
use pairmux.Bytes.Numbers.{ℤ, pos, negsuc}

abbrev pub trunc_marker : List ℕ
trunc_marker = 0xE2 ∷ 0x80 ∷ 0xA6 ∷ []

-- A negative count is 0.
unfoldable pub clamped : ℤ → ℕ
clamped (pos n) = n
clamped (negsuc n) = 0

unfoldable pub truncate : List ℕ → ℤ → ℤ → List ℕ × ℕ
unfolding clamped split join
truncate text head tail =
    let h = clamped head in
    let t = clamped tail in
    let lines = split 0x0A text in
    let n = length lines in
    if leb n (h + t)
    then (text, 0)
    else (join 0x0A (take h lines ++ (trunc_marker ∷ drop (n - t) lines)), n - h - t)
