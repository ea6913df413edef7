-- ===== src/Vt/Params.antt =====
-- `params` of internal/vt/csi.go: the parameters of one CSI sequence.
pub mod Bounds
use pairmux.Prelude.{
  ℕ, zero, suc, ◌+◌, ◌-◌, ◌*◌, min, List, [], ◌∷◌, ◌++◌, Option, none, some, Bool, true, false,
  ◌&&◌, ltb, leb, ◌==◌, within, if◌then◌else◌, length, get_or,
}

abbrev pub max_params : ℕ
max_params = 32

abbrev max_param_value : ℕ
max_param_value = 65535

-- The arrays `v`, `sub` and `top` up to their counts `n`, `n` and `tn`; an omitted value, -1 in
-- the source, is `none`.
pub record Params : Type 0 where
  pub v : List (Option ℕ)
  pub sub : List Bool
  pub top : List ℕ

abbrev pub zero_params : Params
zero_params = record { v = []; sub = []; top = [] }

-- The closure `flush` of `parse`.
unfoldable pub flush : Params → ℕ → Bool → Bool → Params
flush p cur have is_sub =
    if ltb (length p.v) max_params
    then record {
      v = p.v ++ ((if have then some cur else none) ∷ []);
      sub = p.sub ++ (is_sub ∷ []);
      top = if is_sub then p.top else p.top ++ (length p.v ∷ []);
    }
    else p

-- The saturating step over one more digit.
unfoldable pub add_digit : ℕ → ℕ → ℕ
add_digit cur c =
    if ltb cur max_param_value then min (cur * 10 + (c - b'0')) max_param_value else cur

unfoldable pub parse_loop : Params → ℕ → Bool → Bool → List ℕ → Option Params
parse_loop p cur have is_sub [] = some (flush p cur have is_sub)
parse_loop p cur have is_sub (c ∷ cs) =
    let digit = parse_loop p (add_digit cur c) true is_sub cs in
    let semicolon = parse_loop (flush p cur have is_sub) 0 false false cs in
    let colon = parse_loop (flush p cur have is_sub) 0 false true cs in
    let skip = parse_loop p cur have is_sub cs in
    if within b'0' b'9' c
    then digit
    else if c == b';'
    then semicolon
    else if c == b':'
    then colon
    else if c == 0x7F
    then skip
    else none

-- `parse`, `none` where the source reports false.
unfoldable pub parse : List ℕ → Option Params
unfolding parse_loop
parse [] = some zero_params
parse (c ∷ cs) = parse_loop zero_params 0 false false (c ∷ cs)

abbrev pub value_or : Option ℕ → ℕ → ℕ
value_or none d = d
value_or (some n) d = n

-- `p.arg(i, -1)`
unfoldable pub arg? : Params → ℕ → Option ℕ
arg? p i = if leb (length p.top) i then none else get_or p.v (get_or p.top i 0) none

-- `p.arg(i, def)` for a `def` that is not negative.
abbrev pub arg : Params → ℕ → ℕ → ℕ
arg p i d = value_or (arg? p i) d

abbrev pub count : Params → ℕ → ℕ
count p i = if arg p i 1 == 0 then 1 else arg p i 1
