-- ===== src/Vt/Wf.antt =====
-- The well-formedness of a screen: what every index expression of internal/vt relies on.
use pairmux.Prelude.{
  ℕ, zero, suc, ◌≤◌, ◌<◌, ◌≡◌, ◌∙◌, List, [], ◌∷◌, Bool, true, false, if◌then◌else◌, arith, ◌⊎◌,
  inl, inr, Bool-cases, if_intro, length, set, length-set,
}
use pairmux.Prelude.All.{All, All-get_or}
use pairmux.Vt.Cell.{Line, zero_line}
use pairmux.Vt.History.{History}
use pairmux.Vt.History.Contents.{IsRing}
use pairmux.Vt.Row.Paired.{IsRow}
use pairmux.Vt.State.{Screen, SavedCursor, buf, set_buf, set_line, line_at}

-- A row of the screen's width without a torn glyph.
abbrev pub IsLine : ℕ → Line → Type 0
IsLine cols l = IsRow cols l.cells

abbrev pub IsBuffer : ℕ → ℕ → List Line → Type 0
IsBuffer cols rows lines = (length lines ≡ rows) × All (IsLine cols) lines

-- The size, both buffers, the tab stops and the history.
pub record IsGrid (cols rows : ℕ) (main alt : List Line) (tabs : List Bool) (hist : History)
    : Type 0 where
  pub cols_pos : 0 < cols
  pub cols_le : cols ≤ 4096
  pub rows_pos : 0 < rows
  pub rows_le : rows ≤ 4096
  pub main_ok : IsBuffer cols rows main
  pub alt_ok : IsBuffer cols rows alt
  pub tabs_ok : length tabs ≡ cols
  pub ring : IsRing hist

-- The cursor, the scroll region, and a pending wrap: only in the last column, under autowrap.
pub record IsCursor (cols rows cx cy top bottom : ℕ) (pending autowrap : Bool) : Type 0 where
  pub col : cx < cols
  pub row : cy < rows
  pub region : top ≤ bottom
  pub region_in : bottom < rows
  pub last_col : pending ≡ true → suc cx ≡ cols
  pub wraps : pending ≡ true → autowrap ≡ true

-- Four designations, one of them invoked, now and in each saved cursor.
pub record IsCharset (g : List ℕ) (gl : ℕ) (a b : SavedCursor) : Type 0 where
  pub four : length g ≡ 4
  pub invoked : gl < 4
  pub four_main : length a.g ≡ 4
  pub invoked_main : a.gl < 4
  pub four_alt : length b.g ≡ 4
  pub invoked_alt : b.gl < 4

-- What REP would repeat, if anything, is a glyph of one or two columns.
abbrev pub IsMemory : ℕ → ℕ → Type 0
IsMemory r w = (r ≡ 0) ⊎ ((w ≡ 1) ⊎ (w ≡ 2))

pub record IsScreen (s : Screen) : Type 0 where
  pub grid : IsGrid s.cols s.rows s.main s.alt s.tabs s.hist
  pub cursor : IsCursor s.cols s.rows s.cx s.cy s.top s.bottom s.pending_wrap (s.modes).autowrap
  pub charset : IsCharset s.g s.gl s.saved_main s.saved_alt
  pub memory : IsMemory s.last_rune s.last_width

-- `t` has the size, cursor, region, modes, pen, active buffer and character sets of `s`.
pub record SameFrame (s t : Screen) : Type 0 where
  pub cols : t.cols ≡ s.cols
  pub rows : t.rows ≡ s.rows
  pub cx : t.cx ≡ s.cx
  pub cy : t.cy ≡ s.cy
  pub pending_wrap : t.pending_wrap ≡ s.pending_wrap
  pub top : t.top ≡ s.top
  pub bottom : t.bottom ≡ s.bottom
  pub modes : t.modes ≡ s.modes
  pub pen : t.pen ≡ s.pen
  pub alt_active : t.alt_active ≡ s.alt_active

pub SameFrame-refl : (s : Screen) → SameFrame s s
SameFrame-refl s = ground arith

pub SameFrame-trans : {s t u : Screen} → SameFrame s t → SameFrame t u → SameFrame s u
SameFrame-trans f g = ground arith

pub buf-IsBuffer : (s : Screen) → IsScreen s → IsBuffer s.cols s.rows (buf s)
buf-IsBuffer s w = elim (Bool-cases s.alt_active) [
  | inl e ↦ rw e (w.grid.alt_ok)
  | inr e ↦ rw e (w.grid.main_ok)
]

pub set_buf-IsScreen :
    (s : Screen) (lines : List Line)
    → IsScreen s
    → IsBuffer s.cols s.rows lines
    → IsScreen (set_buf s lines)
set_buf-IsScreen s lines w b = record {
  grid = record {
    cols_pos = w.grid.cols_pos;
    cols_le = w.grid.cols_le;
    rows_pos = w.grid.rows_pos;
    rows_le = w.grid.rows_le;
    main_ok = elim (Bool-cases s.alt_active) [ inl e ↦ rw e (w.grid.main_ok) | inr e ↦ rw e b ];
    alt_ok = elim (Bool-cases s.alt_active) [ inl e ↦ rw e b | inr e ↦ rw e (w.grid.alt_ok) ];
    tabs_ok = w.grid.tabs_ok;
    ring = w.grid.ring;
  };
  cursor = w.cursor;
  charset = w.charset;
  memory = w.memory;
}

-- Writing a good row keeps the screen well formed; outside the rows nothing is written.
All-set_in {ℓ} :
    {A : Type ℓ} (P : A → Type 0) (xs : List A) (i : ℕ) (v : A)
    → All P xs
    → (i < length xs → P v)
    → All P (set xs i v)
All-set_in P [] i v h p = tt
All-set_in P (x ∷ xs) zero v h p = (p (omega arith), h.1)
All-set_in P (x ∷ xs) (suc i) v h p = (h.0, All-set_in P xs i v h.1 (λ lt. p (omega arith)))

pub set_line-IsScreen :
    (s : Screen) (y : ℕ) (ln : Line)
    → IsScreen s
    → (y < s.rows → IsLine s.cols ln)
    → IsScreen (set_line s y ln)
set_line-IsScreen s y ln w ok =
    let b = buf-IsBuffer s w in
    set_buf-IsScreen s _ w (
      length-set (buf s) y ln ∙ b.0,
      All-set_in (IsLine s.cols) (buf s) y ln b.1 (λ lt. ok (omega (arith, b.0))),
    )

pub line_at-IsLine : (s : Screen) (y : ℕ) → IsScreen s → y < s.rows → IsLine s.cols (line_at s y)
line_at-IsLine s y w lt =
    let b = buf-IsBuffer s w in
    All-get_or (IsLine s.cols) (buf s) y zero_line b.1 (omega (arith, b.0))

set_line-SameFrame : (s : Screen) (y : ℕ) (ln : Line) → SameFrame s (set_line s y ln)
set_line-SameFrame s y ln = ground arith

-- A branch of the code: each outcome is well formed under its test.
pub if-IsScreen :
    (b : Bool) (s t : Screen)
    → (b ≡ true → IsScreen s)
    → (b ≡ false → IsScreen t)
    → IsScreen (if b then s else t)
if-IsScreen = if_intro IsScreen
