-- ===== src/Vt/Utf8/Sizes.antt =====
-- How many bytes a rune takes.
use pairmux.Prelude.{ℕ, ◌≤◌, ◌≡◌, List, [], ◌∷◌, false, arith, length}
use pairmux.Vt.Utf8.{full_rune, decode_rune}

pub decode_rune_size :
    (b : ℕ) (rest : List ℕ)
    → (1 ≤ (decode_rune (b ∷ rest)).1) × ((decode_rune (b ∷ rest)).1 ≤ length (b ∷ rest))
unfolding decode_rune
decode_rune_size b rest = ground arith

-- An incomplete rune has fewer than four bytes, so `ubuf` holds it.
pub full_rune-false : (p : List ℕ) → full_rune p ≡ false → length p ≤ 3
unfolding full_rune
full_rune-false [] h = omega arith
full_rune-false (b ∷ rest) h = ground arith
