-- ===== src/Vt/Scroll/Safe.antt =====
-- Erasing and scrolling keep the screen well formed.
use pairmux.Prelude.{
  ℕ, zero, suc, ◌+◌, ◌-◌, ◌<◌, min, refl, List, [], ◌∷◌, Bool, true, false, not, ◌&&◌, ltb, leb,
  ◌==◌, if◌then◌else◌, arith, inl, inr, Bool-cases, take,
}
use pairmux.Vt.Cell.{Line}
use pairmux.Vt.History.{History, push, clear}
use pairmux.Vt.History.Contents.{IsRing, push-IsRing}
use pairmux.Vt.Row.Erasing.{erase_cells-IsRow}
use pairmux.Vt.Scroll.{
  push_all, push_lines, erase_cells, erase_line, erase_lines, scroll_out, scroll_up, scroll_down,
  index, reverse_index, clear_to_history, erase_display, erase_in_line, insert_lines, delete_lines,
  last_used, unwrapped, shift_bottom,
}
use pairmux.Vt.Scroll.Frame.{scroll_out-SameFrame}
use pairmux.Vt.Scroll.Rows.{rotate_up-IsBuffer, rotate_down-IsBuffer}
use pairmux.Vt.State.{Screen, buf, line_at}
use pairmux.Vt.Text.{line_text}
use pairmux.Vt.Wf.{IsScreen, buf-IsBuffer, set_buf-IsScreen, set_line-IsScreen, line_at-IsLine}

pub push_all-IsRing : (h : History) (lines : List Line) → IsRing h → IsRing (push_all h lines)
unfolding push_all
push_all-IsRing h [] v = v
push_all-IsRing h (l ∷ ls) v =
    push_all-IsRing (push h (line_text l.cells)) ls (push-IsRing h (line_text l.cells) v)

-- The screen with another history and another count of scrolled lines.
set_hist-IsScreen :
    (s : Screen) (h : History) (n : ℕ)
    → IsScreen s
    → IsRing h
    → IsScreen (record s { hist = h; hscrolled = n })
set_hist-IsScreen s h n w v = record {
  grid = record {
    cols_pos = w.grid.cols_pos;
    cols_le = w.grid.cols_le;
    rows_pos = w.grid.rows_pos;
    rows_le = w.grid.rows_le;
    main_ok = w.grid.main_ok;
    alt_ok = w.grid.alt_ok;
    tabs_ok = w.grid.tabs_ok;
    ring = v;
  };
  cursor = w.cursor;
  charset = w.charset;
  memory = w.memory;
}

pub erase_cells-IsScreen :
    (s : Screen) (y x0 x1 : ℕ) → IsScreen s → IsScreen (erase_cells s y x0 x1)
unfolding erase_cells
erase_cells-IsScreen s y x0 x1 w = elim (Bool-cases (leb (min x1 s.cols) x0)) [
  | inl e ↦ rw e w
  | inr e ↦ rw e (
      set_line-IsScreen s y _ w (λ lt.
        erase_cells-IsRow (line_at s y).cells _ x0 (min x1 s.cols) s.cols
          (line_at-IsLine s y w lt)))
]

erase_lines-IsScreen : (s : Screen) (from n : ℕ) → IsScreen s → IsScreen (erase_lines s from n)
unfolding erase_lines
erase_lines-IsScreen s from zero w = w
erase_lines-IsScreen s from (suc n) w =
    erase_lines-IsScreen (erase_line s from) (from + 1) n (erase_cells-IsScreen s from 0 s.cols w)

scroll_out-IsScreen :
    (s : Screen) (top n : ℕ) (h : Bool) → IsScreen s → IsScreen (scroll_out s top n h)
unfolding scroll_out
scroll_out-IsScreen s top n h w =
    elim (Bool-cases (h && (top == 0) && not s.alt_active && ltb 0 s.hist.limit)) [
      | inl e ↦ rw e (set_hist-IsScreen s _ _ w (push_all-IsRing s.hist _ w.grid.ring))
      | inr e ↦ rw e w
    ]

-- Scrolling the rows from `top` to `bottom` up by any number keeps a well-formed screen well
-- formed if `bottom` is a row of it.
pub scroll_up-IsScreen :
    (s : Screen) (top bottom n : ℕ) (h : Bool)
    → IsScreen s
    → bottom < s.rows
    → IsScreen (scroll_up s top bottom n h)
unfolding scroll_up
scroll_up-IsScreen s top bottom n h w low =
    let k = min n (bottom + 1 - top) in
    elim (Bool-cases (k == 0)) [
      | inl e ↦ rw e w
      | inr e ↦
          let w' = scroll_out-IsScreen s top k h w in
          let s' = scroll_out s top k h in
          rw e (
            set_buf-IsScreen s' _ w' (
              rotate_up-IsBuffer s'.cols s'.rows (buf s') (buf-IsBuffer s' w') _ top bottom k
                (ground arith) (omega (arith, (scroll_out-SameFrame s top k h).rows))))
    ]

-- Scrolling the rows from `top` to `bottom` down by any number keeps a well-formed screen well
-- formed if `bottom` is a row of it.
pub scroll_down-IsScreen :
    (s : Screen) (top bottom n : ℕ)
    → IsScreen s
    → bottom < s.rows
    → IsScreen (scroll_down s top bottom n)
unfolding scroll_down
scroll_down-IsScreen s top bottom n w low =
    let k = min n (bottom + 1 - top) in
    elim (Bool-cases (k == 0)) [
      | inl e ↦ rw e w
      | inr e ↦ rw e (
          set_buf-IsScreen s _ w (
            rotate_down-IsBuffer s.cols s.rows (buf s) (buf-IsBuffer s w) _ top bottom k
              (ground arith) low))
    ]

-- The cursor moved to another row of the screen.
set_cy-IsScreen : (s : Screen) (y : ℕ) → IsScreen s → y < s.rows → IsScreen (record s { cy = y })
set_cy-IsScreen s y w h = record {
  grid = w.grid;
  cursor = ground arith;
  charset = w.charset;
  memory = w.memory;
}

pub unwrapped-IsScreen : (s : Screen) → IsScreen s → IsScreen (unwrapped s)
unwrapped-IsScreen s w = record {
  grid = w.grid;
  cursor = ground arith;
  charset = w.charset;
  memory = w.memory;
}

pub index-IsScreen : (s : Screen) → IsScreen s → IsScreen (index s)
unfolding index
index-IsScreen s w = elim (Bool-cases (s.cy == s.bottom)) [
  | inl e ↦ rw e (scroll_up-IsScreen s s.top s.bottom 1 true w w.cursor.region_in)
  | inr e ↦ elim (Bool-cases (ltb (s.cy + 1) s.rows)) [
    | inl e' ↦ rw (e, e') (set_cy-IsScreen s (s.cy + 1) w (ground arith))
    | inr e' ↦ rw (e, e') w
  ]
]

pub reverse_index-IsScreen : (s : Screen) → IsScreen s → IsScreen (reverse_index s)
unfolding reverse_index
reverse_index-IsScreen s w = elim (Bool-cases (s.cy == s.top)) [
  | inl e ↦ rw e (scroll_down-IsScreen s s.top s.bottom 1 w w.cursor.region_in)
  | inr e ↦ elim (Bool-cases (ltb 0 s.cy)) [
    | inl e' ↦ rw (e, e') (set_cy-IsScreen s (s.cy - 1) w (omega (arith, w.cursor.row)))
    | inr e' ↦ rw (e, e') w
  ]
]

pub clear_to_history-IsScreen : (s : Screen) → IsScreen s → IsScreen (clear_to_history s)
unfolding clear_to_history
clear_to_history-IsScreen s w =
    let lines = take (last_used (buf s) 0 0) (buf s) in
    let pushed =
      set_hist-IsScreen s (push_all s.hist lines) s.hscrolled w
        (push_all-IsRing s.hist lines w.grid.ring) in
    let erased = erase_lines-IsScreen (push_lines s lines) 0 s.rows pushed in
    record {
      grid = erased.grid;
      cursor = erased.cursor;
      charset = erased.charset;
      memory = erased.memory;
    }

whole_clear-IsScreen :
    (s t : Screen) (c : Bool)
    → IsScreen s
    → IsScreen t
    → IsScreen (unwrapped (if c then clear_to_history s else t))
whole_clear-IsScreen s t true w v = unwrapped-IsScreen _ (clear_to_history-IsScreen s w)
whole_clear-IsScreen s t false w v = unwrapped-IsScreen t v

clear_hist-IsScreen :
    (s : Screen) → IsScreen s → IsScreen (record s { hist = clear s.hist; hscrolled = 0 })
clear_hist-IsScreen s w = set_hist-IsScreen s (clear s.hist) 0 w (record {
  bounded = omega arith;
  head_in = omega arith;
  head_lt = λ ne. absurd (ne refl);
  turned = λ ne. absurd (ne refl);
})

-- Erasing in the display, with any mode, keeps a well-formed screen well formed, whether or not
-- the rows go to the history first.
pub erase_display-IsScreen : (s : Screen) (mode : ℕ) → IsScreen s → IsScreen (erase_display s mode)
unfolding erase_display
erase_display-IsScreen s mode w = elim (Bool-cases (mode == 0)) [
  | inl e ↦ rw e (
      whole_clear-IsScreen s _ _ w
        (erase_lines-IsScreen _ _ _ (erase_cells-IsScreen s s.cy s.cx s.cols w)))
  | inr e ↦ elim (Bool-cases (mode == 1)) [
    | inl e' ↦
        rw (e, e')
          (unwrapped-IsScreen _
            (erase_cells-IsScreen _ s.cy 0 (s.cx + 1) (erase_lines-IsScreen s 0 s.cy w)))
    | inr e' ↦ elim (Bool-cases (mode == 2)) [
      | inl e'' ↦ rw (e, e', e'') (whole_clear-IsScreen s _ _ w (erase_lines-IsScreen s 0 s.rows w))
      | inr e'' ↦ elim (Bool-cases (mode == 3)) [
        | inl e₃ ↦ rw (e, e', e'', e₃) (clear_hist-IsScreen s w)
        | inr e₃ ↦ rw (e, e', e'', e₃) w
      ]
    ]
  ]
]

pub erase_in_line-IsScreen : (s : Screen) (mode : ℕ) → IsScreen s → IsScreen (erase_in_line s mode)
unfolding erase_in_line
erase_in_line-IsScreen s mode w = elim (Bool-cases (mode == 0)) [
  | inl e ↦ rw e (unwrapped-IsScreen _ (erase_cells-IsScreen s s.cy s.cx s.cols w))
  | inr e ↦ elim (Bool-cases (mode == 1)) [
    | inl e' ↦ rw (e, e') (unwrapped-IsScreen _ (erase_cells-IsScreen s s.cy 0 (s.cx + 1) w))
    | inr e' ↦ elim (Bool-cases (mode == 2)) [
      | inl e'' ↦ rw (e, e', e'') (unwrapped-IsScreen _ (erase_cells-IsScreen s s.cy 0 s.cols w))
      | inr e'' ↦ rw (e, e', e'') w
    ]
  ]
]

shift_bottom-lt : (s : Screen) → IsScreen s → shift_bottom s < s.rows
shift_bottom-lt s w = let h = w.cursor.region_in in let p = w.grid.rows_pos in ground arith

pub insert_lines-IsScreen : (s : Screen) (n : ℕ) → IsScreen s → IsScreen (insert_lines s n)
unfolding insert_lines
insert_lines-IsScreen s n w =
    unwrapped-IsScreen _ (scroll_down-IsScreen s s.cy (shift_bottom s) n w (shift_bottom-lt s w))

pub delete_lines-IsScreen : (s : Screen) (n : ℕ) → IsScreen s → IsScreen (delete_lines s n)
unfolding delete_lines
delete_lines-IsScreen s n w =
    unwrapped-IsScreen _
      (scroll_up-IsScreen s s.cy (shift_bottom s) n false w (shift_bottom-lt s w))
