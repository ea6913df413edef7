-- ===== src/Detect/Scanner/Boundary.antt =====
-- The boundary text that the Windows shells print, found after a partial match of itself.
use pairmux.Prelude.{ℕ, zero, suc, ◌+◌, ◌≤◌, ◌<◌, ◌≡◌, refl, sym, subst, List, [], ◌∷◌, arith}
use pairmux.Core.{sentinel_boundary}
use pairmux.Detect.Scanner.{
  Scanner, Mark, in_ground, mark_boundary, fallback, next_bnd, match_boundary, ground_byte, step,
  feed,
}

-- One boundary mark that ends after `start` and by `stop`.
abbrev OneBoundary : ℕ → ℕ → List Mark → Type 0
OneBoundary start stop ms =
    (m : Mark) × ((ms ≡ m ∷ []) × ((m.kind ≡ mark_boundary) × ((start < m.end') × (m.end' ≤ stop))))

-- A scanner in the ground state.
abbrev ground_at : ℕ → List ℕ → ℕ → ℕ → Scanner
ground_at at q m k = record { state = in_ground; offset = at; mark_start = m; payload = q; bnd = k }

found :
    (at : ℕ) (q : List ℕ) (m k : ℕ)
    → k < 9
    → OneBoundary at (at + 9) (feed (ground_at at q m k) sentinel_boundary).1
unfolding feed step ground_byte match_boundary next_bnd fallback
found at q m zero h = (_, (refl, (refl, (omega arith, omega arith))))
found at q m (suc zero) h = (_, (refl, (refl, (omega arith, omega arith))))
found at q m (suc (suc zero)) h = (_, (refl, (refl, (omega arith, omega arith))))
found at q m (suc (suc (suc zero))) h = (_, (refl, (refl, (omega arith, omega arith))))
found at q m (suc (suc (suc (suc zero)))) h = (_, (refl, (refl, (omega arith, omega arith))))
found at q m (suc (suc (suc (suc (suc zero))))) h = (_, (refl, (refl, (omega arith, omega arith))))
found at q m (suc (suc (suc (suc (suc (suc zero)))))) h =
    (_, (refl, (refl, (omega arith, omega arith))))
found at q m (suc (suc (suc (suc (suc (suc (suc zero))))))) h =
    (_, (refl, (refl, (omega arith, omega arith))))
found at q m (suc (suc (suc (suc (suc (suc (suc (suc zero)))))))) h =
    (_, (refl, (refl, (omega arith, omega arith))))
found at q m (suc (suc (suc (suc (suc (suc (suc (suc (suc k))))))))) h = absurd (omega arith)

-- From the ground state with any part of the boundary matched, the text of the boundary gives
-- exactly one mark, a boundary that ends within it.
feed-boundary :
    (s : Scanner)
    → s.state ≡ in_ground
    → s.bnd < 9
    → OneBoundary s.offset (s.offset + 9) (feed s sentinel_boundary).1
feed-boundary s g h =
    subst
      (λ st.
        OneBoundary s.offset (s.offset + 9) (feed (record s { state = st }) sentinel_boundary).1)
      (sym g) (found s.offset s.payload s.mark_start s.bnd h)
