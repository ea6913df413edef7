-- ===== src/Detect/Scanner/Order.antt =====
-- Where the marks of a stream stand.
use pairmux.Prelude.{ℕ, ◌+◌, ◌≤◌, ◌<◌, ◌≡◌, List, [], ◌∷◌, ◌++◌, length, arith}
use pairmux.Detect.Scanner.{
  Scanner, Mark, ScanState, in_ground, in_esc, in_osc, in_osc_esc, ground_byte, esc_byte, osc_byte,
  osc_esc_byte, step, feed, new_scanner,
}
use pairmux.Detect.Scanner.Places.{Collected, Pending, After, step-After}

-- The marks follow each other in the stream from `from` on; none is empty, longer than 164 bytes
-- or reaches past `to`.
abbrev pub InOrder : ℕ → ℕ → List Mark → Type 0
InOrder from to [] = from ≤ to
InOrder from to (m ∷ ms) =
    (from ≤ m.start) × ((m.start < m.end') × ((m.end' ≤ m.start + 164) × InOrder m.end' to ms))

-- The marks of a result stay in order when those of the rest of the stream come behind them.
After-append :
    (from : ℕ) (s1 s2 : Scanner) (ms later : List Mark)
    → After from (s1, ms)
    → ((e : ℕ) → Pending e s1 → After e (s2, later))
    → After from (s2, ms ++ later)
After-append from s1 s2 [] later a h = h from a
After-append from s1 s2 (m ∷ ms) later a h =
    (a.0, (a.1.0, (a.1.1.0, After-append m.end' s1 s2 ms later a.1.1.1 h)))

feed-After : (from : ℕ) (s : Scanner) (bs : List ℕ) → Pending from s → After from (feed s bs)
unfolding feed
feed-After from s [] w = w
feed-After from s (b ∷ bs) w =
    After-append from (step s b).0 (feed (step s b).0 bs).0 (step s b).1 (feed (step s b).0 bs).1
      (step-After from s b w) (λ e. feed-After e (step s b).0 bs)

Pending-le : (from : ℕ) (s : Scanner) → Pending from s → from ≤ s.offset
Pending-le from s w = by_state s.state w.1
  where
    by_state : (st : ScanState) → Collected st from s → from ≤ s.offset
    by_state in_ground c = omega arith
    by_state in_esc c = omega arith
    by_state in_osc c = omega arith
    by_state in_osc_esc c = omega arith

After-InOrder :
    (from : ℕ) (s : Scanner) (ms : List Mark) → After from (s, ms) → InOrder from s.offset ms
After-InOrder from s [] w = Pending-le from s w
After-InOrder from s (m ∷ ms) w = (w.0, (w.1.0, (w.1.1.0, After-InOrder m.end' s ms w.1.1.1)))

new_scanner-Pending : (base : ℕ) → Pending base (new_scanner base)
unfolding new_scanner
new_scanner-Pending base = ground arith

step-offset : (s : Scanner) (b : ℕ) → (step s b).0.offset ≡ s.offset + 1
unfolding step ground_byte esc_byte osc_byte osc_esc_byte
step-offset s b = ground arith

pub feed-offset : (s : Scanner) (bs : List ℕ) → (feed s bs).0.offset ≡ s.offset + length bs
unfolding feed
feed-offset s [] = omega arith
feed-offset s (b ∷ bs) = omega (arith, step-offset s b, feed-offset (step s b).0 bs)

-- The marks found in any stream that begins at `base` stand one behind the other within it, none
-- before `base`, none behind its end, none empty and none longer than 164 bytes.
pub feed-InOrder :
    (base : ℕ) (bs : List ℕ) → InOrder base (base + length bs) (feed (new_scanner base) bs).1
unfolding new_scanner
feed-InOrder base bs =
    rw⁻¹ (feed-offset (new_scanner base) bs)
      (After-InOrder base _ _ (feed-After base (new_scanner base) bs (new_scanner-Pending base)))
