-- ===== src/Bytes/Digits.antt =====
-- Numbers written in decimal and read again.
use pairmux.Prelude.{
  ℕ, zero, suc, ◌+◌, ◌-◌, ◌*◌, ◌/◌, ◌%◌, ◌^◌, ◌≤◌, ◌<◌, ◌≡◌, refl, ap, ◌∙◌, List, [], ◌∷◌, some,
  Bool, true, false, ltb, within, length, get_or, arith, if_intro, lt→ltb,
}
use pairmux.Bytes.{is_empty, all_bytes}
use pairmux.Bytes.Numbers.{pos, digits_onto, decimal, number_onto, digits_value, in_range, atoi}
use pairmux.Bytes.Space.{space_width, end_space, trim_left, trim_right, trim_space}

abbrev pub is_digit : ℕ → Bool
is_digit c = within b'0' b'9' c

number_onto-digits_onto :
    (fuel n : ℕ) (out : List ℕ)
    → n < fuel
    → number_onto 0 (digits_onto fuel n out) ≡ number_onto n out
unfolding number_onto digits_onto
number_onto-digits_onto zero n out h = absurd (omega arith)
number_onto-digits_onto (suc fuel) n out h =
    if_intro (λ b. number_onto 0 b ≡ number_onto n out) (ltb n 10) _ _
      (λ e. ap (λ k. number_onto k out) (ground arith))
      (λ e.
        number_onto-digits_onto fuel (n / 10) ((b'0' + n % 10) ∷ out) (ground arith)
        ∙ ap (λ k. number_onto k out) (ground arith))

all_digits-digits_onto :
    (fuel n : ℕ) (out : List ℕ)
    → all_bytes is_digit out ≡ true
    → all_bytes is_digit (digits_onto fuel n out) ≡ true
unfolding all_bytes digits_onto
all_digits-digits_onto zero n out h = h
all_digits-digits_onto (suc fuel) n out h =
    if_intro (λ b. all_bytes is_digit b ≡ true) (ltb n 10) _ _ (λ e. ground arith)
      (λ e. all_digits-digits_onto fuel (n / 10) ((b'0' + n % 10) ∷ out) (ground arith))

abbrev pow10 : ℕ → ℕ
pow10 zero = 1
pow10 (suc k) = 10 * pow10 k

length-digits_onto :
    (fuel n k : ℕ) (out : List ℕ)
    → n < pow10 (suc k)
    → length (digits_onto fuel n out) ≤ suc k + length out
unfolding digits_onto
length-digits_onto zero n k out h = omega arith
length-digits_onto (suc fuel) n zero out h =
    let digit : List ℕ = (b'0' + n % 10) ∷ out in
    let rest : List ℕ = digits_onto fuel (n / 10) digit in
    if_intro (λ b. length b ≤ 1 + length out) (ltb n 10) digit rest (λ e. omega arith)
      (λ e. absurd (ground arith))
length-digits_onto (suc fuel) n (suc k) out h =
    let digit : List ℕ = (b'0' + n % 10) ∷ out in
    let rest : List ℕ = digits_onto fuel (n / 10) digit in
    if_intro (λ b. length b ≤ suc (suc k) + length out) (ltb n 10) digit rest (λ e. omega arith)
      (λ e. omega (arith, length-digits_onto fuel (n / 10) k digit (omega arith)))

-- Any number of 63 bits is written in 19 digits at most.
pub length-decimal : (n : ℕ) → n < 2 ^ 63 → length (decimal n) ≤ 19
unfolding decimal
length-decimal n h = length-digits_onto (n + 1) n 18 [] (omega arith)

pub all_digits-decimal : (n : ℕ) → all_bytes is_digit (decimal n) ≡ true
unfolding decimal all_bytes
all_digits-decimal n = all_digits-digits_onto (n + 1) n [] refl

is_empty-digits_onto :
    (fuel n : ℕ) (out : List ℕ) → is_empty out ≡ false → is_empty (digits_onto fuel n out) ≡ false
unfolding digits_onto is_empty
is_empty-digits_onto zero n out h = h
is_empty-digits_onto (suc fuel) n out h =
    if_intro (λ (b : List ℕ). is_empty b ≡ false) (ltb n 10) _ _ (λ e. refl)
      (λ e. is_empty-digits_onto fuel (n / 10) ((b'0' + n % 10) ∷ out) refl)

is_empty-digits : (fuel n : ℕ) → n < fuel → is_empty (digits_onto fuel n []) ≡ false
unfolding digits_onto is_empty
is_empty-digits zero n h = absurd (omega arith)
is_empty-digits (suc fuel) n h =
    if_intro (λ (b : List ℕ). is_empty b ≡ false) (ltb n 10) _ _ (λ e. refl)
      (λ e. is_empty-digits_onto fuel (n / 10) ((b'0' + n % 10) ∷ []) refl)

pub is_empty-decimal : (n : ℕ) → is_empty (decimal n) ≡ false
unfolding decimal
is_empty-decimal n = is_empty-digits (n + 1) n (omega arith)

digits_value-decimal : (n : ℕ) → digits_value (decimal n) ≡ some n
unfolding digits_value decimal number_onto
digits_value-decimal n =
    rw
      (
        is_empty-digits (n + 1) n (omega arith),
        all_digits-digits_onto (n + 1) n [] refl,
        number_onto-digits_onto (n + 1) n [] (omega arith),
      )
      refl

-- What begins with a digit has no sign.
atoi-digits : (b : List ℕ) → all_bytes is_digit b ≡ true → atoi b ≡ in_range false (digits_value b)
unfolding atoi all_bytes digits_value is_empty in_range
atoi-digits [] h = refl
atoi-digits (c ∷ cs) h = ground arith

-- Reading a number that was written in decimal gives it back.
pub atoi-decimal : (n : ℕ) → n < 2 ^ 63 → atoi (decimal n) ≡ some (pos n)
unfolding in_range
atoi-decimal n h =
    atoi-digits (decimal n) (all_digits-decimal n)
    ∙ rw (digits_value-decimal n, lt→ltb n (2 ^ 63) h) refl

all_bytes-get_or :
    (ok : ℕ → Bool) (b : List ℕ) (i : ℕ)
    → all_bytes ok b ≡ true
    → i < length b
    → ok (get_or b i 0) ≡ true
unfolding all_bytes
all_bytes-get_or ok [] i h lt = absurd (omega arith)
all_bytes-get_or ok (c ∷ cs) zero h lt = ground arith
all_bytes-get_or ok (c ∷ cs) (suc i) h lt = all_bytes-get_or ok cs i (ground arith) (omega arith)

-- Digits have no white space around them.
pub trim_space-digits : (b : List ℕ) → all_bytes is_digit b ≡ true → trim_space b ≡ b
unfolding trim_space trim_left trim_right space_width end_space
trim_space-digits [] h = refl
trim_space-digits (c ∷ cs) h = rw (space_width-digit, end_space-digit) refl
  where
    first : is_digit c ≡ true
    first = all_bytes-get_or is_digit (c ∷ cs) 0 h (omega arith)

    last : is_digit (get_or (c ∷ cs) (suc (length cs) - 1) 0) ≡ true
    last = all_bytes-get_or is_digit (c ∷ cs) (suc (length cs) - 1) h (omega arith)

    space_width-digit : space_width (c ∷ cs) ≡ 0
    space_width-digit = ground (arith, first)

    end_space-digit : end_space (c ∷ cs) ≡ 0
    end_space-digit = ground (arith, last)
