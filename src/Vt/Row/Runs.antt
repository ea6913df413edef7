-- ===== src/Vt/Row/Runs.antt =====
-- `printASCII` writes a run that fits before the last column in one loop. Here that fast path is
-- compared with printing each byte by itself, the row's part of `printGlyph`.
use pairmux.Prelude.{
  ℕ, zero, suc, ◌+◌, ◌-◌, ◌≤◌, ◌<◌, ◌≡◌, ◌∙◌, List, [], ◌∷◌, ◌&&◌, ltb, leb, ◌==◌, if◌then◌else◌,
  arith, length, get_or, length-tabulate, get_or-above, get_or-tabulate, list_ext,
}
use pairmux.Vt.Cell.{Cell, Attr, zero_cell, cell_at}
use pairmux.Vt.Row.{put_glyph, put_run, split_pad, split_lead}
use pairmux.Vt.Row.Slices.{length-split_pad, length-split_lead}
use pairmux.Vt.Row.Paired.{IsPaired, split_pad-IsPaired, cell_at-split_pad, cell_at-split_lead}
use pairmux.Vt.Row.Glyphs.{narrow, cell_at-put_glyph, length-put_glyph, narrow-IsPaired}

-- The bytes of a run printed one by one from column `x`.
abbrev pub put_each : List Cell → ℕ → List ℕ → Attr → List Cell
put_each cells x [] pen = cells
put_each cells x (b ∷ run) pen = put_each (put_glyph cells x b 1 pen) (x + 1) run pen

cell_at-put_run :
    (cells : List Cell) (x : ℕ) (run : List ℕ) (pen : Attr) (i : ℕ)
    → IsPaired cells
    → 0 < length run
    → x + length run ≤ length cells
    → cell_at (put_run cells x run pen) i ≡ (
        if leb x i && ltb i (x + length run)
        then narrow (get_or run (i - x) 0) pen
        else if (cell_at cells x).pad && (suc i == x)
        then zero_cell
        else if (cell_at cells (x + length run - 1)).wide && (i == x + length run)
        then zero_cell
        else cell_at cells i)
unfolding put_run
cell_at-put_run cells x run pen i p pos fits = ground (
  arith,
  get_or-tabulate (length cells)
      (λ (j : ℕ).
        if leb x j && ltb j (x + length run)
        then narrow (get_or run (j - x) 0) pen
        else cell_at (split_lead (split_pad cells x) (x + length run - 1)) j)
      i zero_cell,
  cell_at-split_lead (split_pad cells x) (x + length run - 1) (split_pad-IsPaired cells x p) i,
  cell_at-split_pad cells x p i,
  cell_at-split_pad cells x p (x + length run - 1),
  length-split_pad cells x,
  length-split_lead (split_pad cells x) (x + length run - 1),
  get_or-above (split_lead (split_pad cells x) (x + length run - 1)) i zero_cell,
  p.single x,
)

length-put_run :
    (cells : List Cell) (x : ℕ) (run : List ℕ) (pen : Attr)
    → length (put_run cells x run pen) ≡ length cells
unfolding put_run
length-put_run cells x run pen = length-tabulate (length cells) _

get_or-cons :
    (b : ℕ) (run : List ℕ) (k : ℕ)
    → get_or (b ∷ run) k 0 ≡ (if k == 0 then b else get_or run (k - 1) 0)
get_or-cons b run zero = ground arith
get_or-cons b run (suc k) = ground arith

module _ (cells : List Cell) (x b : ℕ) (pen : Attr) (p : IsPaired cells) where
  cell_at-put_run-cons :
      (c : ℕ) (run : List ℕ) (i : ℕ)
      → x + length (b ∷ c ∷ run) ≤ length cells
      → cell_at (put_run cells x (b ∷ c ∷ run) pen) i
        ≡ cell_at (put_run (put_glyph cells x b 1 pen) (x + 1) (c ∷ run) pen) i
  cell_at-put_run-cons c run i fits = ground (
    arith,
    cell_at-put_run cells x (b ∷ c ∷ run) pen i p,
    cell_at-put_run (put_glyph cells x b 1 pen) (x + 1) (c ∷ run) pen i
        (narrow-IsPaired cells x b pen p (omega arith)),
    cell_at-put_glyph cells x b pen i p,
    cell_at-put_glyph cells x b pen (x + 1) p,
    cell_at-put_glyph cells x b pen (x + 1 + length (c ∷ run) - 1) p,
    length-put_glyph cells x b 1 pen,
    get_or-cons b (c ∷ run) (i - x),
    p.joined x,
    p.single x,
    p.single (suc x),
  )

  pub put_run-cons :
      (c : ℕ) (run : List ℕ)
      → x + length (b ∷ c ∷ run) ≤ length cells
      → put_run cells x (b ∷ c ∷ run) pen
        ≡ put_run (put_glyph cells x b 1 pen) (x + 1) (c ∷ run) pen
  put_run-cons c run fits =
      list_ext _ _ zero_cell
        (omega (
          arith,
          length-put_run cells x (b ∷ c ∷ run) pen,
          length-put_run (put_glyph cells x b 1 pen) (x + 1) (c ∷ run) pen,
          length-put_glyph cells x b 1 pen,
        ))
        (λ i. cell_at-put_run-cons c run i fits)

  pub put_run-one : x + 1 ≤ length cells → put_run cells x (b ∷ []) pen ≡ put_glyph cells x b 1 pen
  put_run-one fits =
      list_ext _ _ zero_cell
        (omega (arith, length-put_run cells x (b ∷ []) pen, length-put_glyph cells x b 1 pen))
        (λ i. ground (
          arith,
          cell_at-put_run cells x (b ∷ []) pen i p,
          cell_at-put_glyph cells x b pen i p,
          get_or-cons b [] (i - x),
          p.single x,
        ))

-- If the row holds no half of a wide glyph and the bytes fit into it, the row that the fast path
-- of `printASCII` writes is the row that writing the same bytes one glyph after the other leaves,
-- wide glyphs under the run and at its ends included.
pub put_run-eq-put_each :
    (cells : List Cell) (x b : ℕ) (run : List ℕ) (pen : Attr)
    → IsPaired cells
    → x + length (b ∷ run) ≤ length cells
    → put_run cells x (b ∷ run) pen ≡ put_each cells x (b ∷ run) pen
put_run-eq-put_each cells x b [] pen p fits = put_run-one cells x b pen p (omega arith)
put_run-eq-put_each cells x b (c ∷ run) pen p fits =
    put_run-cons cells x b pen p c run fits
    ∙ put_run-eq-put_each (put_glyph cells x b 1 pen) (x + 1) c run pen
        (narrow-IsPaired cells x b pen p (omega arith))
        (omega (arith, length-put_glyph cells x b 1 pen))
