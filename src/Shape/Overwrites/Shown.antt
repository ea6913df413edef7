-- ===== src/Shape/Overwrites/Shown.antt =====
-- What CollapseCR leaves of lines that are overwritten.
use pairmux.Prelude.{ℕ, ◌<◌, ◌≤◌, ◌≡◌, List, ◌∷◌, ◌++◌, false, ◌==◌, length}
use pairmux.Prelude.All.{All}

-- A printable byte but `%`, with which the marker of zsh begins.
abbrev pub IsShown : ℕ → Type 0
IsShown c = (0x20 ≤ c) × ((c ≤ 0x7E) × ((c == b'%') ≡ false))

-- A line of which the part in front of the return is overwritten.
pub record Rewritten : Type 0 where
  pub over : List ℕ
  pub shown : List ℕ

abbrev pub written : Rewritten → List ℕ
written l = l.over ++ (0x0D ∷ l.shown)

abbrev pub IsRewritten : Rewritten → Type 0
IsRewritten l = All IsShown l.over × (All IsShown l.shown × (0 < length l.shown))

-- Bytes with which neither an escape sequence nor the marker begins.
abbrev IsInert : ℕ → Type 0
IsInert c = ((c == 0x1B) ≡ false) × ((c == b'%') ≡ false)
