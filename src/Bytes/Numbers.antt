-- ===== src/Bytes/Numbers.antt =====
-- Decimal numbers in text: strconv.Atoi and strconv.AppendInt.
use pairmux.Prelude.{
  ℕ, zero, suc, ◌+◌, ◌-◌, ◌*◌, ◌/◌, ◌%◌, ◌^◌, List, [], ◌∷◌, Option, none, some, Bool, true, false,
  not, ◌||◌, ltb, ◌==◌, within, if◌then◌else◌,
}
use pairmux.Bytes.{is_empty, all_bytes}

-- Integers over the native numbers: `pos n` is n, `negsuc n` is -1 - n.
pub data ℤ : Type 0 where
  pos : ℕ → ℤ
  negsuc : ℕ → ℤ

unfoldable pub digits_onto : ℕ → ℕ → List ℕ → List ℕ
digits_onto zero n out = out
digits_onto (suc fuel) n out =
    let digit = (b'0' + n % 10) ∷ out in
    let rest = digits_onto fuel (n / 10) digit in if ltb n 10 then digit else rest

-- `strconv.AppendInt(nil, n, 10)`; a number has at most as many digits as `n + 1`.
unfoldable pub decimal : ℕ → List ℕ
unfolding digits_onto
decimal n = digits_onto (n + 1) n []

unfoldable pub number_onto : ℕ → List ℕ → ℕ
number_onto n [] = n
number_onto n (c ∷ cs) = number_onto (n * 10 + (c - b'0')) cs

-- A non-empty row of digits, as a number.
unfoldable pub digits_value : List ℕ → Option ℕ
unfolding number_onto all_bytes is_empty
digits_value b =
    if is_empty b || not (all_bytes (λ c. within b'0' b'9' c) b)
    then none
    else some (number_onto 0 b)

-- -n
unfoldable negate : ℕ → ℤ
negate zero = pos 0
negate (suc n) = negsuc n

-- The values of an int: 64 bits.
unfoldable pub in_range : Bool → Option ℕ → Option ℤ
unfolding negate
in_range _ none = none
in_range false (some n) = if ltb n (2 ^ 63) then some (pos n) else none
in_range true (some n) = if ltb (2 ^ 63) n then none else some (negate n)

-- `strconv.Atoi`
unfoldable pub atoi : List ℕ → Option ℤ
unfolding digits_value in_range
atoi [] = none
atoi (c ∷ cs) =
    let rest = digits_value cs in
    let whole = digits_value (c ∷ cs) in
    if c == b'-'
    then in_range true rest
    else if c == b'+'
    then in_range false rest
    else in_range false whole
