-- ===== src/Vt/Cursor/Tabs.antt =====
-- The tab loops of internal/vt/screen.go: the next stop, and the bounds of the column.
use pairmux.Prelude.{
  ℕ, zero, suc, ◌+◌, ◌-◌, ◌≤◌, ◌<◌, ◌≡◌, ◌⊎◌, inl, inr, List, Bool, true, false, not, ◌&&◌, ltb,
  arith, get_or, Bool-cases,
}
use pairmux.Vt.Cursor.{next_tab, prev_tab, tabs_forward, tabs_backward}

-- The scan ends on a stop or in the last column, and passes over no stop on its way.
pub record IsNextStop (cols : ℕ) (tabs : List Bool) (from to : ℕ) : Type 0 where
  pub forward : from ≤ to
  pub inside : to < cols
  pub found : (suc to ≡ cols) ⊎ (get_or tabs to false ≡ true)
  pub none_between : (i : ℕ) → from ≤ i → i < to → get_or tabs i false ≡ false

-- From a column of the row, with as much fuel as columns follow, the scan for a tab stop ends
-- inside the row, on a tab stop or in the last column, and passes over no stop.
pub next_tab-IsNextStop :
    (fuel cols : ℕ) (tabs : List Bool) (x : ℕ)
    → x < cols
    → cols ≤ x + fuel
    → IsNextStop cols tabs x (next_tab fuel cols tabs x)
unfolding next_tab
next_tab-IsNextStop zero cols tabs x h k = absurd (omega arith)
next_tab-IsNextStop (suc fuel) cols tabs x h k =
    elim (Bool-cases (ltb (x + 1) cols && not (get_or tabs x false))) [
      | inl e ↦
          let ih = next_tab-IsNextStop fuel cols tabs (x + 1) (ground arith) (omega arith) in
          rw e (record {
            forward = omega (arith, ih.forward);
            inside = ih.inside;
            found = ih.found;
            none_between = λ i a b. ground (arith, ih.none_between i);
          })
      | inr e ↦ rw e (record {
        forward = omega arith;
        inside = h;
        found = ground arith;
        none_between = λ i a b. absurd (omega arith);
      })
    ]

-- From a column of the row, moving on by any number of tab stops never goes back and never leaves
-- the row.
pub tabs_forward_bounds :
    (n cols : ℕ) (tabs : List Bool) (x : ℕ)
    → x < cols
    → (x ≤ tabs_forward n cols tabs x) × (tabs_forward n cols tabs x < cols)
unfolding tabs_forward
tabs_forward_bounds zero cols tabs x h = omega arith
tabs_forward_bounds (suc n) cols tabs x h = elim (Bool-cases (ltb (x + 1) cols)) [
  | inl e ↦
      let stop = next_tab-IsNextStop cols cols tabs (x + 1) (ground arith) (omega arith) in
      let ih = tabs_forward_bounds n cols tabs (next_tab cols cols tabs (x + 1)) stop.inside in
      rw e (omega (arith, stop.forward))
  | inr e ↦ rw e (omega arith)
]

prev_tab-le : (tabs : List Bool) (x : ℕ) → prev_tab tabs x ≤ x
unfolding prev_tab
prev_tab-le tabs zero = omega arith
prev_tab-le tabs (suc x) = ground (arith, prev_tab-le tabs x)

pub tabs_backward-le : (n : ℕ) (tabs : List Bool) (x : ℕ) → tabs_backward n tabs x ≤ x
unfolding tabs_backward
tabs_backward-le zero tabs x = omega arith
tabs_backward-le (suc n) tabs x =
    ground (arith, tabs_backward-le n tabs (prev_tab tabs (x - 1)), prev_tab-le tabs (x - 1))
