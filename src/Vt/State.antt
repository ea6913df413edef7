-- ===== src/Vt/State.antt =====
-- `Modes`, `savedCursor` and `Screen` of internal/vt/screen.go without the parser's fields, which
-- Vt/Parser.antt holds. `buf` is not stored: it is always the buffer that `alt_active` names.
use pairmux.Prelude.{
  ℕ, ◌-◌, ◌%◌, List, [], ◌∷◌, Bool, true, false, ◌&&◌, ltb, ◌==◌, if◌then◌else◌, get_or, set,
  replicate, tabulate,
}
use pairmux.Vt.Cell.{Cell, Line, Attr, zero_attr, zero_cell, zero_line, blank_of}
use pairmux.Vt.History.{History}

pub record Modes : Type 0 where
  pub app_cursor : Bool
  pub app_keypad : Bool
  pub bracketed_paste : Bool
  pub alt_screen : Bool
  pub cursor_visible : Bool
  pub focus_events : Bool
  pub mouse_tracking : ℕ
  pub mouse_encoding : ℕ
  pub autowrap : Bool
  pub insert : Bool
  pub origin_mode : Bool

pub record SavedCursor : Type 0 where
  pub valid : Bool
  pub x : ℕ
  pub y : ℕ
  pub pending_wrap : Bool
  pub pen : Attr
  pub origin : Bool
  pub g : List ℕ
  pub gl : ℕ

-- `out` and `reply` are the two results that `Feed` builds.
pub record Screen : Type 0 where
  pub cols : ℕ
  pub rows : ℕ
  pub main : List Line
  pub alt : List Line
  pub alt_active : Bool
  pub hist : History
  pub hscrolled : ℕ
  pub cx : ℕ
  pub cy : ℕ
  pub pending_wrap : Bool
  pub pen : Attr
  pub g : List ℕ
  pub gl : ℕ
  pub saved_main : SavedCursor
  pub saved_alt : SavedCursor
  pub top : ℕ
  pub bottom : ℕ
  pub tabs : List Bool
  pub modes : Modes
  pub cursor_style : ℕ
  pub title : List ℕ
  pub last_rune : ℕ
  pub last_width : ℕ
  pub out : List ℕ
  pub reply : List ℕ

abbrev pub max_dim : ℕ
max_dim = 4096

abbrev pub max_comb : ℕ
max_comb = 32

-- `clampInt`; a negative value, which is below every `lo` here, is represented by 0.
abbrev pub clamp : ℕ → ℕ → ℕ → ℕ
clamp v lo hi = if ltb v lo then lo else if ltb hi v then hi else v

-- `[4]byte{'B', 'B', 'B', 'B'}`
abbrev pub ascii_sets : List ℕ
ascii_sets = b'B' ∷ b'B' ∷ b'B' ∷ b'B' ∷ []

abbrev pub no_cursor : SavedCursor
no_cursor = record {
  valid = false;
  x = 0;
  y = 0;
  pending_wrap = false;
  pen = zero_attr;
  origin = false;
  g = 0 ∷ 0 ∷ 0 ∷ 0 ∷ [];
  gl = 0;
}

abbrev start_modes : Modes
start_modes = record {
  app_cursor = false;
  app_keypad = false;
  bracketed_paste = false;
  alt_screen = false;
  cursor_visible = true;
  focus_events = false;
  mouse_tracking = 0;
  mouse_encoding = 0;
  autowrap = true;
  insert = false;
  origin_mode = false;
}

abbrev pub start_tabs : ℕ → List Bool
start_tabs cols = tabulate cols (λ i. (i % 8 == 0) && ltb 0 i)

abbrev pub new_line : ℕ → Line
new_line cols = record { cells = replicate cols zero_cell; used = false }

-- `resetTabs`
abbrev pub reset_tabs : Screen → Screen
reset_tabs s = record s { tabs = start_tabs s.cols }

unfoldable pub reset_state : Screen → Screen
reset_state s = record s {
  cx = 0;
  cy = 0;
  pending_wrap = false;
  pen = zero_attr;
  g = ascii_sets;
  gl = 0;
  saved_main = no_cursor;
  saved_alt = no_cursor;
  top = 0;
  bottom = s.rows - 1;
  modes = start_modes;
  cursor_style = 0;
  last_rune = 0;
  last_width = 0;
  tabs = start_tabs s.cols;
}

-- `newBuffer`
abbrev new_buffer : ℕ → ℕ → List Line
new_buffer cols rows = replicate rows (new_line cols)

-- A screen of a clamped size before `resetState`.
abbrev pub zero_screen : ℕ → ℕ → ℕ → Screen
zero_screen cols rows limit = record {
  cols = cols;
  rows = rows;
  main = new_buffer cols rows;
  alt = new_buffer cols rows;
  alt_active = false;
  hist = record { lines = []; head = 0; limit = limit };
  hscrolled = 0;
  cx = 0;
  cy = 0;
  pending_wrap = false;
  pen = zero_attr;
  g = [];
  gl = 0;
  saved_main = no_cursor;
  saved_alt = no_cursor;
  top = 0;
  bottom = 0;
  tabs = [];
  modes = start_modes;
  cursor_style = 0;
  title = [];
  last_rune = 0;
  last_width = 0;
  out = [];
  reply = [];
}

-- `New`; a negative size or limit is represented by 0, to which Go raises it.
unfoldable pub new : ℕ → ℕ → ℕ → Screen
new cols rows limit = reset_state (zero_screen (clamp cols 1 max_dim) (clamp rows 1 max_dim) limit)

-- `s.buf.lines`
abbrev pub buf : Screen → List Line
buf s = if s.alt_active then s.alt else s.main

abbrev pub set_buf : Screen → List Line → Screen
set_buf s lines = record s {
  main = if s.alt_active then s.main else lines;
  alt = if s.alt_active then lines else s.alt;
}

abbrev pub line_at : Screen → ℕ → Line
line_at s y = get_or (buf s) y zero_line

-- A write to row `y` of the active buffer.
abbrev pub set_line : Screen → ℕ → Line → Screen
set_line s y ln = set_buf s (set (buf s) y ln)

-- The cells of the cursor's row, replaced.
abbrev pub set_cells : Screen → ℕ → List Cell → Screen
set_cells s y cells = set_line s y (record (line_at s y) { cells = cells })

-- `blank`: xterm's background color erase.
abbrev pub blank : Screen → Cell
blank s = blank_of (record zero_attr { bg = s.pen.bg })
