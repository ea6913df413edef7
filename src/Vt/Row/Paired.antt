-- ===== src/Vt/Row/Paired.antt =====
-- The pairing of the two halves of wide glyphs.
use pairmux.Prelude.{
  ℕ, suc, ◌+◌, ◌-◌, ◌<◌, ◌≡◌, List, true, false, ◌||◌, ◌==◌, if◌then◌else◌, arith, inl, inr, length,
  set, length-set, get_or-set, get_or-above, Bool-cases,
}
use pairmux.Vt.Cell.{Cell, zero_cell, cell_at}
use pairmux.Vt.Row.{split_wide, split_pad, split_any, split_lead}

-- Every lead is followed by its right half and every right half follows its lead: no half stands
-- alone, and none at either end of the row.
pub record IsPaired (cells : List Cell) : Type 0 where
  pub first : (cell_at cells 0).pad ≡ false
  pub joined : (i : ℕ) → (cell_at cells i).wide ≡ (cell_at cells (suc i)).pad
  pub single : (i : ℕ) → (cell_at cells i).wide ≡ true → (cell_at cells i).pad ≡ false

cell_at-set :
    (cells : List Cell) (x : ℕ) (c : Cell) (i : ℕ)
    → x < length cells
    → cell_at (set cells x c) i ≡ (if x == i then c else cell_at cells i)
cell_at-set cells x c i h = ground (arith, get_or-set cells x c i zero_cell)

-- Under the pairing, `splitWide` clears the glyph at `x` whole.
cell_at-split_wide :
    (cells : List Cell) (x i : ℕ)
    → IsPaired cells
    → cell_at (split_wide cells x) i ≡ (
        if (cell_at cells x).pad
        then (if (i == x) then zero_cell else if suc i == x then zero_cell else cell_at cells i)
        else if (cell_at cells x).wide
        then (if (i == x) then zero_cell else if i == suc x then zero_cell else cell_at cells i)
        else cell_at cells i)
unfolding split_wide
cell_at-split_wide cells x i p = ground (
  arith,
  p.first,
  p.joined (x - 1),
  p.joined x,
  get_or-above cells x zero_cell,
  get_or-above cells (suc x) zero_cell,
  length-set cells (x - 1) zero_cell,
  length-set cells (x + 1) zero_cell,
  get_or-set cells x zero_cell i zero_cell,
  get_or-set cells (x - 1) zero_cell i zero_cell,
  get_or-set cells (x + 1) zero_cell i zero_cell,
  get_or-set (set cells (x - 1) zero_cell) x zero_cell i zero_cell,
  get_or-set (set cells (x + 1) zero_cell) x zero_cell i zero_cell,
)

split_wide-IsPaired : (cells : List Cell) (x : ℕ) → IsPaired cells → IsPaired (split_wide cells x)
split_wide-IsPaired cells x p = record {
  first = ground (arith, cell_at-split_wide cells x 0 p, p.first, p.joined x);
  joined = λ i. ground (
    arith,
    cell_at-split_wide cells x i p,
    cell_at-split_wide cells x (suc i) p,
    p.joined i,
    p.joined x,
    p.joined (suc i),
    p.single i,
    p.single (suc i),
    p.single x,
    p.single (suc x),
  );
  single = λ i e. ground (arith, cell_at-split_wide cells x i p, p.single i);
}

module _ (cells : List Cell) (x : ℕ) (p : IsPaired cells) where
  pub split_pad-IsPaired : IsPaired (split_pad cells x)
  unfolding split_pad
  split_pad-IsPaired = elim (Bool-cases (cell_at cells x).pad) [
    | inl e ↦ rw e (split_wide-IsPaired cells x p)
    | inr e ↦ rw e p
  ]

  pub split_any-IsPaired : IsPaired (split_any cells x)
  unfolding split_any
  split_any-IsPaired = elim (Bool-cases ((cell_at cells x).wide || (cell_at cells x).pad)) [
    | inl e ↦ rw e (split_wide-IsPaired cells x p)
    | inr e ↦ rw e p
  ]

  pub split_lead-IsPaired : IsPaired (split_lead cells x)
  unfolding split_lead
  split_lead-IsPaired = elim (Bool-cases (cell_at cells x).wide) [
    | inl e ↦ rw e (split_wide-IsPaired cells x p)
    | inr e ↦ rw e p
  ]

  -- A row that was split at a right half has none there, and is otherwise as before.
  pub cell_at-split_pad :
      (i : ℕ)
      → cell_at (split_pad cells x) i ≡ (
          if (cell_at cells x).pad
          then (if i == x then zero_cell else if suc i == x then zero_cell else cell_at cells i)
          else cell_at cells i)
  unfolding split_pad
  cell_at-split_pad i = ground (arith, cell_at-split_wide cells x i p)

  pub cell_at-split_any :
      (i : ℕ)
      → cell_at (split_any cells x) i ≡ (
          if (cell_at cells x).pad
          then (if i == x then zero_cell else if suc i == x then zero_cell else cell_at cells i)
          else if (cell_at cells x).wide
          then (if i == x then zero_cell else if i == suc x then zero_cell else cell_at cells i)
          else cell_at cells i)
  unfolding split_any
  cell_at-split_any i = ground (arith, cell_at-split_wide cells x i p)

  pub cell_at-split_lead :
      (i : ℕ)
      → cell_at (split_lead cells x) i ≡ (
          if (cell_at cells x).wide
          then (if i == x then zero_cell else if i == suc x then zero_cell else cell_at cells i)
          else cell_at cells i)
  unfolding split_lead
  cell_at-split_lead i = ground (arith, cell_at-split_wide cells x i p, p.single x)

-- A row of `cols` cells with no torn glyph.
pub record IsRow (cols : ℕ) (cells : List Cell) : Type 0 where
  pub width : length cells ≡ cols
  pub paired : IsPaired cells
