-- ===== src/Vt/Row/Glyphs.antt =====
-- The writes of `printGlyph` and `widen` in internal/vt keep a row well formed.
use pairmux.Prelude.{
  ℕ, suc, ◌+◌, ◌≤◌, ◌<◌, ◌≡◌, ◌∙◌, refl, ◌⊎◌, List, [], true, false, ◌==◌, if◌then◌else◌, arith,
  inl, inr, length, set, length-set, get_or-set, Bool-cases,
}
use pairmux.Vt.Cell.{Cell, Attr, zero_cell, cell_at}
use pairmux.Vt.Row.{split_any, put_glyph, put_widened}
use pairmux.Vt.Row.Slices.{length-split_any}
use pairmux.Vt.Row.Paired.{IsPaired, IsRow, split_any-IsPaired, cell_at-split_any}

abbrev pub narrow : ℕ → Attr → Cell
narrow r pen = record { r = r; wide = false; pad = false; a = pen; comb = [] }

-- If the row holds no half of a wide glyph and column `x` is in it, writing a narrow glyph at `x`
-- changes column `x`, clears the other half of the wide glyph that stood on `x`, if one did, and
-- leaves every other column as it was.
pub cell_at-put_glyph :
    (cells : List Cell) (x r : ℕ) (pen : Attr) (i : ℕ)
    → IsPaired cells
    → x < length cells
    → cell_at (put_glyph cells x r 1 pen) i ≡ (
        if i == x
        then narrow r pen
        else if (cell_at cells x).pad
        then (if suc i == x then zero_cell else cell_at cells i)
        else if (cell_at cells x).wide
        then (if i == suc x then zero_cell else cell_at cells i)
        else cell_at cells i)
unfolding put_glyph
cell_at-put_glyph cells x r pen i p h = ground (
  arith,
  cell_at-split_any cells x p i,
  length-split_any cells x,
  get_or-set (split_any cells x) x (narrow r pen) i zero_cell,
)

pub narrow-IsPaired :
    (cells : List Cell) (x r : ℕ) (pen : Attr)
    → IsPaired cells
    → x < length cells
    → IsPaired (put_glyph cells x r 1 pen)
narrow-IsPaired cells x r pen p h = record {
  first = ground (arith, cell_at-put_glyph cells x r pen 0 p h, p.first, p.joined x);
  joined = λ i. ground (
    arith,
    cell_at-put_glyph cells x r pen i p h,
    cell_at-put_glyph cells x r pen (suc i) p h,
    p.joined i,
    p.joined x,
    p.joined (suc i),
    p.single i,
    p.single (suc i),
    p.single x,
    p.single (suc x),
  );
  single = λ i e. ground (arith, cell_at-put_glyph cells x r pen i p h, p.single i);
}

-- Two columns without halves take the two halves of one glyph.
pair-IsPaired :
    (cells : List Cell) (x : ℕ) (lead trail : Cell)
    → IsPaired cells
    → suc x < length cells
    → (cell_at cells x).pad ≡ false
    → (cell_at cells x).wide ≡ false
    → (cell_at cells (suc x)).wide ≡ false
    → (lead.wide ≡ true) × (lead.pad ≡ false)
    → (trail.wide ≡ false) × (trail.pad ≡ true)
    → IsPaired (set (set cells x lead) (x + 1) trail)
pair-IsPaired cells x lead trail p h free free' free'' l t = record {
  first = ground (arith, entry 0, p.first);
  joined = λ i. ground (arith, entry i, entry (suc i), p.joined i, p.joined x);
  single = λ i e. ground (arith, entry i, p.single i);
}
  where
    entry :
        (i : ℕ)
        → cell_at (set (set cells x lead) (x + 1) trail) i
          ≡ (if i == suc x then trail else if i == x then lead else cell_at cells i)
    entry i = ground (
      arith,
      length-set cells x lead,
      get_or-set (set cells x lead) (x + 1) trail i zero_cell,
      get_or-set cells x lead i zero_cell,
    )

length-wide_glyph :
    (cells : List Cell) (x : ℕ) (c d : Cell)
    → length (set (set (split_any (split_any cells x) (x + 1)) x c) (x + 1) d) ≡ length cells
length-wide_glyph cells x c d =
    length-set _ (x + 1) d
    ∙ length-set _ x c
    ∙ length-split_any _ (x + 1)
    ∙ length-split_any cells x

pub length-put_glyph :
    (cells : List Cell) (x r w : ℕ) (pen : Attr) → length (put_glyph cells x r w pen) ≡ length cells
unfolding put_glyph
length-put_glyph cells x r w pen = elim (Bool-cases (w == 2)) [
  | inl e ↦ rw e (length-wide_glyph cells x _ _)
  | inr e ↦ rw e (length-set _ x _ ∙ length-split_any cells x)
]

wide-IsPaired :
    (cells : List Cell) (x r : ℕ) (pen : Attr)
    → IsPaired cells
    → suc x < length cells
    → IsPaired (put_glyph cells x r 2 pen)
unfolding put_glyph
wide-IsPaired cells x r pen p h =
    let once = split_any-IsPaired cells x p in
    let split = split_any cells x in
    pair-IsPaired (split_any split (x + 1)) x _ _ (split_any-IsPaired split (x + 1) once)
      (omega (arith, length-split_any cells x, length-split_any split (x + 1)))
      (ground (arith, cell_at-split_any split (x + 1) once x, cell_at-split_any cells x p x))
      (ground (arith, cell_at-split_any split (x + 1) once x, cell_at-split_any cells x p x))
      (ground (arith, cell_at-split_any split (x + 1) once (suc x))) (refl, refl) (refl, refl)

-- If the row has `cols` cells and no half of a wide glyph, and a glyph of width 1 or 2 fits at
-- column `x`, the row after the glyph is written there has `cols` cells and no half of a wide
-- glyph.
pub put_glyph-IsRow :
    (cells : List Cell) (x r w : ℕ) (pen : Attr) (cols : ℕ)
    → IsRow cols cells
    → (w ≡ 1) ⊎ (w ≡ 2)
    → x + w ≤ cols
    → IsRow cols (put_glyph cells x r w pen)
put_glyph-IsRow cells x r w pen cols p one_or_two fits = record {
  width = length-put_glyph cells x r w pen ∙ p.width;
  paired = elim one_or_two [
    | inl e ↦ rw e (narrow-IsPaired cells x r pen p.paired (omega (arith, p.width)))
    | inr e ↦ rw e (wide-IsPaired cells x r pen p.paired (omega (arith, p.width)))
  ];
}

-- If the row has `cols` cells and no half of a wide glyph, and column `x` holds a narrow glyph and
-- is not the last, the row after that glyph is widened has `cols` cells and no half of a wide
-- glyph.
pub put_widened-IsRow :
    (cells : List Cell) (x cols : ℕ)
    → IsRow cols cells
    → (cell_at cells x).wide ≡ false
    → (cell_at cells x).pad ≡ false
    → suc x < cols
    → IsRow cols (put_widened cells x)
unfolding put_widened
put_widened-IsRow cells x cols p narrow_base no_pad fits =
    let split = split_any cells (x + 1) in
    record {
      width = length-set _ (x + 1) _ ∙ length-set _ x _ ∙ length-split_any cells (x + 1) ∙ p.width;
      paired =
          pair-IsPaired split x _ _ (split_any-IsPaired cells (x + 1) p.paired)
            (omega (arith, p.width, length-split_any cells (x + 1)))
            (ground (arith, cell_at-split_any cells (x + 1) p.paired x))
            (ground (arith, cell_at-split_any cells (x + 1) p.paired x))
            (ground (arith, cell_at-split_any cells (x + 1) p.paired (suc x))) (refl, refl)
            (refl, refl);
    }
