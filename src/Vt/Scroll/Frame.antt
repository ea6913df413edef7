-- ===== src/Vt/Scroll/Frame.antt =====
-- Erasing and scrolling leave the size, the cursor and the modes alone.
use pairmux.Prelude.{ℕ, zero, suc, ◌+◌, ◌≡◌, Bool, true, arith, take}
use pairmux.Vt.State.{Screen, buf}
use pairmux.Vt.Wf.{SameFrame, SameFrame-refl, SameFrame-trans}
use pairmux.Vt.Scroll.{
  erase_cells, erase_line, erase_lines, scroll_out, scroll_up, scroll_down, clear_to_history,
  push_lines, last_used, index,
}

erase_cells-SameFrame : (s : Screen) (y x0 x1 : ℕ) → SameFrame s (erase_cells s y x0 x1)
unfolding erase_cells
erase_cells-SameFrame s y x0 x1 = ground arith

erase_lines-SameFrame : (s : Screen) (from n : ℕ) → SameFrame s (erase_lines s from n)
unfolding erase_lines
erase_lines-SameFrame s from zero = SameFrame-refl s
erase_lines-SameFrame s from (suc n) =
    SameFrame-trans (erase_cells-SameFrame s from 0 s.cols)
      (erase_lines-SameFrame (erase_line s from) (from + 1) n)

scroll_up-SameFrame :
    (s : Screen) (top bottom n : ℕ) (h : Bool) → SameFrame s (scroll_up s top bottom n h)
unfolding scroll_up scroll_out
scroll_up-SameFrame s top bottom n h = ground arith

scroll_down-SameFrame : (s : Screen) (top bottom n : ℕ) → SameFrame s (scroll_down s top bottom n)
unfolding scroll_down
scroll_down-SameFrame s top bottom n = ground arith

pub scroll_out-SameFrame : (s : Screen) (top n : ℕ) (h : Bool) → SameFrame s (scroll_out s top n h)
unfolding scroll_out
scroll_out-SameFrame s top n h = ground arith

clear_to_history-SameFrame : (s : Screen) → SameFrame s (clear_to_history s)
unfolding clear_to_history
clear_to_history-SameFrame s =
    let pushed = push_lines s (take (last_used (buf s) 0 0) (buf s)) in
    let f = erase_lines-SameFrame pushed 0 s.rows in ground arith

module _ (s : Screen) where
  pub index-cols :
      ((index s).cols ≡ s.cols)
      × ((index s).rows ≡ s.rows)
      × ((index s).cx ≡ s.cx)
      × ((index s).pending_wrap ≡ s.pending_wrap)
      × ((index s).modes ≡ s.modes)
      × ((index s).pen ≡ s.pen)
  unfolding index
  index-cols = let f = scroll_up-SameFrame s s.top s.bottom 1 true in ground arith
