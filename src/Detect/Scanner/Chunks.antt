-- ===== src/Detect/Scanner/Chunks.antt =====
-- A stream may be split into chunks anywhere.
use mathlib.Core.List.{append_assoc}
use pairmux.Prelude.{ℕ, ◌≡◌, refl, List, [], ◌∷◌, ◌++◌}
use pairmux.Detect.Scanner.{Scanner, step, feed}

-- Feeding two chunks one after the other leaves the scanner, and reports the marks, that feeding
-- them at once does.
pub feed-append :
    (s : Scanner) (xs ys : List ℕ)
    → feed s (xs ++ ys) ≡ ((feed (feed s xs).0 ys).0, (feed s xs).1 ++ (feed (feed s xs).0 ys).1)
unfolding feed
feed-append s [] ys = refl
feed-append s (x ∷ xs) ys = rw (feed-append (step s x).0 xs ys, append_assoc (step s x).1) refl
