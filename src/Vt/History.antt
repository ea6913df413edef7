-- ===== src/Vt/History.antt =====
-- `history` of internal/vt/screen.go: a bounded FIFO of row texts, a ring once it is full.
pub mod Contents
pub mod Newest
use pairmux.Prelude.{
  ℕ, ◌+◌, ◌-◌, ◌%◌, List, [], ◌∷◌, ◌++◌, ltb, ◌==◌, if◌then◌else◌, length, get_or, set, take, drop,
}

pub record History : Type 0 where
  pub lines : List (List ℕ)
  pub head : ℕ
  pub limit : ℕ

abbrev pub len : History → ℕ
len h = length h.lines

unfoldable pub at : History → ℕ → List ℕ
at h i = get_or h.lines ((h.head + i) % length h.lines) []

pub push : History → List ℕ → History
push h l =
    if h.limit == 0
    then h
    else if ltb (length h.lines) h.limit
    then record h { lines = h.lines ++ (l ∷ []) }
    else record h { lines = set h.lines h.head l; head = (h.head + 1) % length h.lines }

-- `popNewest` on the ring laid out in order; on an empty history Go panics.
pub pop_linear : History → List (List ℕ) → List ℕ × History
pop_linear h lin =
    let n = length lin - 1 in (get_or lin n [], record h { lines = take n lin; head = 0 })

pub pop_newest : History → List ℕ × History
unfolding pop_linear
pop_newest h =
    pop_linear h (if h.head == 0 then h.lines else drop h.head h.lines ++ take h.head h.lines)

abbrev pub clear : History → History
clear h = record h { lines = []; head = 0 }
