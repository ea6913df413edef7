-- ===== src/State/Names/Fresh.antt =====
-- The next automatic name is new.
use pairmux.Prelude.{
  ℕ, ◌+◌, ◌^◌, ◌≤◌, ◌<◌, ◌≡◌, ◌≢◌, ap, ◌∙◌, List, [], ◌∷◌, Option, none, some, arith,
}
use pairmux.Prelude.All.{All}
use pairmux.Bytes.Digits.{atoi-decimal, all_digits-decimal, is_empty-decimal}
use pairmux.Bytes.Numbers.{ℤ, pos, negsuc, decimal}
use pairmux.State.Names.{auto_number, raise_number, max_number, next_auto_name}

raise_number-le : (max : ℕ) (o : Option ℤ) → max ≤ raise_number max o
unfolding raise_number
raise_number-le max none = omega arith
raise_number-le max (some (pos n)) = ground arith
raise_number-le max (some (negsuc n)) = omega arith

max_number-le : (max : ℕ) (names : List (List ℕ)) → max ≤ max_number max names
unfolding max_number
max_number-le max [] = omega arith
max_number-le max (name ∷ names) = omega (
  arith,
  raise_number-le max (auto_number name),
  max_number-le (raise_number max (auto_number name)) names,
)

-- At most the maximum.
AtMost : ℕ → Option ℤ → Type 0
AtMost top none = Unit {0}
AtMost top (some (pos n)) = n ≤ top
AtMost top (some (negsuc n)) = Unit {0}

raised : (max top : ℕ) (o : Option ℤ) → raise_number max o ≤ top → AtMost top o
unfolding raise_number AtMost
raised max top none h = tt
raised max top (some (pos n)) h = ground arith
raised max top (some (negsuc n)) h = tt

auto_number-next : (n : ℕ) → n < 2 ^ 63 → auto_number (b't' ∷ decimal n) ≡ some (pos n)
unfolding auto_number
auto_number-next n h = rw (is_empty-decimal n, all_digits-decimal n) (atoi-decimal n h)

above : (top : ℕ) (o : Option ℤ) → o ≡ some (pos (top + 1)) → AtMost top o → ⊥
unfolding AtMost
above top none e le = cc
above top (some (pos n)) e le = ground arith
above top (some (negsuc n)) e le = cc

-- Above all numbers, so that no name is equal to it.
all_apart :
    (max : ℕ) (names : List (List ℕ))
    → max_number max names + 1 < 2 ^ 63
    → All (λ (name : List ℕ). name ≢ (b't' ∷ decimal (max_number max names + 1))) names
unfolding max_number
all_apart max [] h = tt
all_apart max (name ∷ names) h =
    let top : ℕ = max_number (raise_number max (auto_number name)) names in
    (
      (λ same. above top (auto_number name) (ap auto_number same ∙ auto_number-next (top + 1) h) (
          raised max top (auto_number name)
            (max_number-le (raise_number max (auto_number name)) names))),
      all_apart (raise_number max (auto_number name)) names h,
    )

-- If the greatest automatic number among the names, plus one, is below 2^63, the next automatic
-- name is none of them.
pub next_auto_name-IsFresh :
    (existing : List (List ℕ))
    → max_number 0 existing + 1 < 2 ^ 63
    → All (λ (name : List ℕ). name ≢ next_auto_name existing) existing
unfolding next_auto_name
next_auto_name-IsFresh existing h = all_apart 0 existing h
