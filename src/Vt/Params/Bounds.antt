-- ===== src/Vt/Params/Bounds.antt =====
-- Whatever the bytes, the parameters stay within the array bounds and the saturation limit of
-- internal/vt/csi.go.
use pairmux.Prelude.{
  ℕ, suc, ◌≤◌, ◌<◌, ◌≡◌, refl, subst, List, [], ◌∷◌, ◌++◌, Option, none, some, Bool, true, false,
  ltb, leb, ◌==◌, within, if◌then◌else◌, arith, length, length-append, if_intro,
}
use pairmux.Prelude.All.{All, All-append, All-get_or}
use pairmux.Vt.Params.{
  Params, zero_params, flush, add_digit, parse_loop, parse, arg?, count, max_params,
}

abbrev AtMost : Option ℕ → Type 0
AtMost none = Unit {0}
AtMost (some n) = n ≤ 65535

-- No array overflows, every value is saturated, and each top-level position points at a value.
pub record IsParams (p : Params) : Type 0 where
  pub few : length p.v ≤ 32
  pub paired : length p.sub ≡ length p.v
  pub tops : length p.top ≤ length p.v
  pub points : All (λ i. i < length p.v) p.top
  pub saturated : All AtMost p.v

All-lt_mono : (m n : ℕ) (is : List ℕ) → m ≤ n → All (λ i. i < m) is → All (λ i. i < n) is
All-lt_mono m n [] h a = tt
All-lt_mono m n (i ∷ is) h a = (omega arith, All-lt_mono m n is h a.1)

flushed_top :
    (p : Params) (is_sub : Bool)
    → IsParams p
    → All (λ i. i < suc (length p.v)) (if is_sub then p.top else p.top ++ (length p.v ∷ []))
flushed_top p true w = All-lt_mono _ _ p.top (omega arith) w.points
flushed_top p false w =
    All-append _ p.top _ (All-lt_mono _ _ p.top (omega arith) w.points) (omega arith)

flush-IsParams :
    (p : Params) (cur : ℕ) (have is_sub : Bool)
    → IsParams p
    → cur ≤ 65535
    → IsParams (flush p cur have is_sub)
unfolding flush
flush-IsParams p cur have is_sub w h =
    if_intro IsParams (ltb (length p.v) max_params) _ _
      (λ room.
        let more = length-append p.v ((if have then some cur else none) ∷ []) in
        let longer : length (p.v ++ ((if have then some cur else none) ∷ [])) ≡ suc (length p.v) =
          omega (arith, more) in
        record {
          few = ground (arith, longer);
          paired = omega (arith, longer, length-append p.sub (is_sub ∷ []), w.paired);
          tops =
              if_intro
                (λ (t : List ℕ).
                  length t ≤ length (p.v ++ ((if have then some cur else none) ∷ [])))
                is_sub _ _ (λ _. omega (arith, longer, w.tops))
                (λ _. omega (arith, longer, w.tops, length-append p.top (length p.v ∷ [])));
          points = rw longer (flushed_top p is_sub w);
          saturated = All-append AtMost p.v _ w.saturated (saturated_one have);
        })
      (λ _. w)
  where
    saturated_one : (b : Bool) → All AtMost ((if b then some cur else none) ∷ [])
    saturated_one true = (h, tt)
    saturated_one false = (tt, tt)

add_digit-le : (cur c : ℕ) → cur ≤ 65535 → add_digit cur c ≤ 65535
unfolding add_digit
add_digit-le cur c h = ground arith

abbrev Bounded : Option Params → Type 0
Bounded none = Unit {0}
Bounded (some p) = IsParams p

parse_loop-Bounded :
    (cs : List ℕ) (p : Params) (cur : ℕ) (have is_sub : Bool)
    → IsParams p
    → cur ≤ 65535
    → Bounded (parse_loop p cur have is_sub cs)
unfolding parse_loop
parse_loop-Bounded [] p cur have is_sub w h = flush-IsParams p cur have is_sub w h
parse_loop-Bounded (c ∷ cs) p cur have is_sub w h =
    let flushed = flush-IsParams p cur have is_sub w h in
    if_intro Bounded (within b'0' b'9' c) _ _
      (λ _. parse_loop-Bounded cs p _ true is_sub w (add_digit-le cur c h))
      λ _.
        if_intro Bounded (c == b';') _ _
          (λ _. parse_loop-Bounded cs _ 0 false false flushed (omega arith))
          λ _.
            if_intro Bounded (c == b':') _ _
              (λ _. parse_loop-Bounded cs _ 0 false true flushed (omega arith))
              λ _.
                if_intro Bounded (c == 0x7F) _ _ (λ _. parse_loop-Bounded cs p cur have is_sub w h)
                  (λ _. tt)

zero_params-IsParams : IsParams zero_params
zero_params-IsParams = record {
  few = omega arith;
  paired = refl;
  tops = omega arith;
  points = tt;
  saturated = tt;
}

-- If parsing the bytes of a CSI sequence succeeds, at most 32 parameters are kept, no value is
-- above 65535, and every top-level position is that of a kept parameter.
pub parse-IsParams : (b : List ℕ) (p : Params) → parse b ≡ some p → IsParams p
unfolding parse
parse-IsParams [] p e = subst Bounded e zero_params-IsParams
parse-IsParams (c ∷ cs) p e =
    subst Bounded e
      (parse_loop-Bounded (c ∷ cs) zero_params 0 false false zero_params-IsParams (omega arith))

arg?-AtMost : (p : Params) (i : ℕ) → IsParams p → AtMost (arg? p i)
unfolding arg?
arg?-AtMost p i w =
    if_intro AtMost (leb (length p.top) i) _ _ (λ _. tt)
      (λ e.
        All-get_or AtMost p.v _ none w.saturated
          (All-get_or (λ j. j < length p.v) p.top i 0 w.points (ground arith)))

-- If the parameters are within the bounds of the parser, every count that they give is at least 1
-- and at most 65535.
pub count_bounds : (p : Params) (i : ℕ) → IsParams p → (1 ≤ count p i) × (count p i ≤ 65535)
count_bounds p i w = ground (arith, arg?-AtMost p i w)
