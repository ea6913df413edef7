-- ===== src/Vt/Scroll/Rows.antt =====
-- Blank rows are well formed, and rotating a region of rows keeps the buffer well formed.
use pairmux.Prelude.{
  ℕ, zero, suc, ◌+◌, ◌-◌, ◌≤◌, ◌<◌, ◌≡◌, ◌∙◌, List, ◌++◌, map, false, ◌&&◌, ltb, leb, if◌then◌else◌,
  arith, length, get_or-above, take, drop, replicate, length-append, length-take, length-drop,
  length-map, length-replicate,
}
use pairmux.Prelude.All.{All, All-append, All-take, All-drop, All-map}
use pairmux.Vt.Cell.{Cell, Line, Attr, blank_of, zero_cell, cell_at}
use pairmux.Vt.Row.{fill_cells}
use pairmux.Vt.Row.Slices.{length-fill_cells, cell_at-fill_cells}
use pairmux.Vt.Row.Paired.{IsRow}
use pairmux.Vt.Scroll.{blank_line, rotate_up, rotate_down}
use pairmux.Vt.Wf.{IsLine, IsBuffer}

get_or-replicate :
    (n : ℕ) (c : Cell) (i : ℕ) → cell_at (replicate n c) i ≡ (if ltb i n then c else zero_cell)
get_or-replicate zero c i = ground arith
get_or-replicate (suc n) c zero = ground arith
get_or-replicate (suc n) c (suc i) = ground (arith, get_or-replicate n c i)

-- A row of equal cells without halves.
pub replicate-IsRow : (n : ℕ) (c : Cell) → c.wide ≡ false → c.pad ≡ false → IsRow n (replicate n c)
replicate-IsRow n c w p = record {
  width = length-replicate n c;
  paired = record {
    first = ground (arith, get_or-replicate n c 0);
    joined = λ i. ground (arith, get_or-replicate n c i, get_or-replicate n c (suc i));
    single = λ i e. ground (arith, get_or-replicate n c i);
  };
}

blank_line-IsLine :
    (cols : ℕ) (a : Attr) (l : Line) → IsLine cols l → IsLine cols (blank_line (blank_of a) l)
blank_line-IsLine cols a l h = record {
  width = length-fill_cells l.cells 0 (length l.cells) (blank_of a) ∙ h.width;
  paired = record {
    first = ground (arith, entry 0, h.paired.first);
    joined = λ i.
        ground (
          arith,
          entry i,
          entry (suc i),
          h.paired.joined i,
          get_or-above l.cells (suc i) zero_cell,
        );
    single = λ i e. ground (arith, entry i, h.paired.single i);
  };
}
  where
    entry :
        (i : ℕ)
        → cell_at (fill_cells l.cells 0 (length l.cells) (blank_of a)) i
          ≡ (if leb 0 i && ltb i (length l.cells) then blank_of a else cell_at l.cells i)
    entry i = cell_at-fill_cells l.cells 0 (length l.cells) (blank_of a) i (omega arith)

-- A buffer put together from four stretches of rows.
four-IsBuffer :
    (cols rows : ℕ) (a b c d : List Line)
    → length a + (length b + (length c + length d)) ≡ rows
    → All (IsLine cols) a
    → All (IsLine cols) b
    → All (IsLine cols) c
    → All (IsLine cols) d
    → IsBuffer cols rows (a ++ (b ++ (c ++ d)))
four-IsBuffer cols rows a b c d e ha hb hc hd = (
  omega (arith, length-append a (b ++ (c ++ d)), length-append b (c ++ d), length-append c d),
  All-append (IsLine cols) a _ ha
      (All-append (IsLine cols) b _ hb (All-append (IsLine cols) c d hc hd)),
)

module _ (cols rows : ℕ) (lines : List Line) (b : IsBuffer cols rows lines) (a : Attr) where
  blanked :
      (ls : List Line) → All (IsLine cols) ls → All (IsLine cols) (map (blank_line (blank_of a)) ls)
  blanked = All-map (IsLine cols) (IsLine cols) (blank_line (blank_of a)) (blank_line-IsLine cols a)

  taken : (n : ℕ) (ls : List Line) → All (IsLine cols) ls → All (IsLine cols) (take n ls)
  taken = All-take (IsLine cols)

  dropped : (n : ℕ) → All (IsLine cols) (drop n lines)
  dropped n = All-drop (IsLine cols) n lines b.1

  module _ (top bottom n : ℕ) (fits : top + n ≤ bottom + 1) (low : bottom < rows) where
    pub rotate_up-IsBuffer : IsBuffer cols rows (rotate_up lines top bottom n (blank_of a))
    rotate_up-IsBuffer =
        four-IsBuffer cols rows (take top lines)
          (take (bottom + 1 - top - n) (drop (top + n) lines))
          (map (blank_line (blank_of a)) (take n (drop top lines))) (drop (bottom + 1) lines)
          (omega (
            arith,
            b.0,
            length-take top lines,
            length-take (bottom + 1 - top - n) (drop (top + n) lines),
            length-drop (top + n) lines,
            length-map (blank_line (blank_of a)) (take n (drop top lines)),
            length-take n (drop top lines),
            length-drop top lines,
            length-drop (bottom + 1) lines,
          ))
          (taken top lines b.1) (taken _ _ (dropped (top + n)))
          (blanked _ (taken n _ (dropped top))) (dropped (bottom + 1))

    pub rotate_down-IsBuffer : IsBuffer cols rows (rotate_down lines top bottom n (blank_of a))
    rotate_down-IsBuffer =
        four-IsBuffer cols rows (take top lines)
          (map (blank_line (blank_of a)) (take n (drop (bottom + 1 - n) lines)))
          (take (bottom + 1 - top - n) (drop top lines)) (drop (bottom + 1) lines)
          (omega (
            arith,
            b.0,
            length-take top lines,
            length-take (bottom + 1 - top - n) (drop top lines),
            length-drop (bottom + 1 - n) lines,
            length-map (blank_line (blank_of a)) (take n (drop (bottom + 1 - n) lines)),
            length-take n (drop (bottom + 1 - n) lines),
            length-drop top lines,
            length-drop (bottom + 1) lines,
          ))
          (taken top lines b.1) (blanked _ (taken n _ (dropped (bottom + 1 - n))))
          (taken _ _ (dropped top)) (dropped (bottom + 1))
