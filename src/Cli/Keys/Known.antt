-- ===== src/Cli/Keys/Known.antt =====
-- Every key name that the command line admits has bytes that the server can send.
use pairmux.Prelude.{
  ℕ, zero, suc, ◌+◌, ◌<◌, ◌≤◌, ◌≡◌, ◌≢◌, refl, List, [], ◌∷◌, ◌++◌, ◌==◌, Option, none, some, Bool,
  true, false, ◌&&◌, ◌||◌, arith, inl, inr, Bool-cases, subst,
}
use pairmux.Bytes.{bytes_eq}
use pairmux.Muxd.Keys.{
  lookup, named_keys, control_byte, meta_bytes, modified_key, or_modified, key_bytes, csi_or_ss3,
}
use pairmux.Cli.Keys.{plain_keys, is_listed, is_f_key, is_modified, valid_key}

-- That there are bytes for a key.
abbrev has_bytes : Option (List ℕ) → Bool
has_bytes none = false
has_bytes (some b) = true

bytes_eq_iff : (x y : List ℕ) → bytes_eq x y ≡ true → x ≡ y
unfolding bytes_eq
bytes_eq_iff [] [] h = refl
bytes_eq_iff [] (y ∷ ys) h = cc
bytes_eq_iff (x ∷ xs) [] h = cc
bytes_eq_iff (x ∷ xs) (y ∷ ys) h =
    let heads : x ≡ y = ground arith in
    let tails : xs ≡ ys = bytes_eq_iff xs ys (ground arith) in cc

abbrev sends : List ℕ → Bool
sends k = has_bytes (key_bytes k true) && has_bytes (key_bytes k false)

abbrev all_send : List (List ℕ) → Bool
all_send [] = true
all_send (k ∷ ks) = sends k && all_send ks

plain_keys-sends : all_send plain_keys ≡ true
unfolding plain_keys key_bytes lookup named_keys csi_or_ss3 or_modified bytes_eq
plain_keys-sends = refl

is_listed-sends :
    (k : List ℕ) (names : List (List ℕ))
    → all_send names ≡ true
    → is_listed k names ≡ true
    → sends k ≡ true
unfolding is_listed
is_listed-sends k [] s h = cc
is_listed-sends k (name ∷ names) s h = elim (Bool-cases (bytes_eq k name)) [
  | inl same ↦ rw (bytes_eq_iff k name same) (ground arith)
  | inr other ↦ is_listed-sends k names (ground arith) (ground arith)
]

-- Whether the names that end in one of `count` bytes from `first` on are all sent.
run_sends : List ℕ → ℕ → ℕ → Bool
run_sends front first zero = true
run_sends front first (suc count) =
    run_sends front (suc first) count && sends (front ++ (first ∷ []))

run_sends-member :
    (front : List ℕ) (first count c : ℕ)
    → first ≤ c
    → c < first + count
    → run_sends front first count ≡ true
    → sends (front ++ (c ∷ [])) ≡ true
unfolding run_sends
run_sends-member front first zero c low high h = absurd (omega (arith, low, high))
run_sends-member front first (suc count) c low high h = elim (Bool-cases (first == c)) [
  | inl same ↦
      let here : first ≡ c = ground arith in
      subst (λ x. sends (front ++ (x ∷ [])) ≡ true) here (ground (arith, h))
  | inr other ↦
      run_sends-member front (suc first) count c (ground arith) (omega arith) (ground (arith, h))
]

f_keys-sends : (run_sends (b'F' ∷ []) b'1' 9 ≡ true) × (run_sends (b'F' ∷ b'1' ∷ []) b'0' 3 ≡ true)
unfolding run_sends key_bytes lookup named_keys csi_or_ss3 or_modified bytes_eq modified_key
f_keys-sends = (refl, refl)

is_f_key-sends : (k : List ℕ) → is_f_key k ≡ true → sends k ≡ true
unfolding is_f_key
is_f_key-sends [] h = cc
is_f_key-sends (f ∷ []) h = cc
is_f_key-sends (f ∷ d ∷ []) h =
    let letter : b'F' ≡ f = ground arith in
    subst (λ x. sends (x ∷ d ∷ []) ≡ true) letter
      (run_sends-member (b'F' ∷ []) b'1' 9 d (ground arith) (ground arith) f_keys-sends.0)
is_f_key-sends (f ∷ d ∷ e ∷ []) h =
    let letter : b'F' ≡ f = ground arith in
    let one : b'1' ≡ d = ground arith in
    let found =
      run_sends-member (b'F' ∷ b'1' ∷ []) b'0' 3 e (ground arith) (ground arith) f_keys-sends.1 in
    subst (λ x. sends (x ∷ d ∷ e ∷ []) ≡ true) letter
      (subst (λ x. sends (b'F' ∷ x ∷ e ∷ []) ≡ true) one found)
is_f_key-sends (f ∷ d ∷ e ∷ g ∷ rest) h = cc

-- A key with a modifier has bytes whether its name is in the table or not.
or_modified-has :
    (o : Option (List ℕ)) (k : List ℕ)
    → has_bytes (modified_key k) ≡ true
    → has_bytes (or_modified o k) ≡ true
unfolding or_modified
or_modified-has none k h = h
or_modified-has (some b) k h = refl

modified_key-has :
    (k : List ℕ)
    → (is_modified b'C' k || is_modified b'M' k) ≡ true
    → has_bytes (modified_key k) ≡ true
unfolding modified_key is_modified control_byte meta_bytes
modified_key-has [] h = cc
modified_key-has (m ∷ []) h = cc
modified_key-has (m ∷ d ∷ []) h = cc
modified_key-has (m ∷ d ∷ c ∷ []) h = ground arith
modified_key-has (m ∷ d ∷ c ∷ e ∷ rest) h = cc

modified-sends : (k : List ℕ) → (is_modified b'C' k || is_modified b'M' k) ≡ true → sends k ≡ true
unfolding key_bytes
modified-sends k h =
    let has = modified_key-has k h in
    rw
      (
        or_modified-has (lookup k (named_keys true)) k has,
        or_modified-has (lookup k (named_keys false)) k has,
      )
      refl

valid_key-sends : (k : List ℕ) → valid_key k ≡ true → sends k ≡ true
unfolding valid_key
valid_key-sends k h = elim (Bool-cases (is_listed k plain_keys)) [
  | inl listed ↦ is_listed-sends k plain_keys plain_keys-sends listed
  | inr other ↦ elim (Bool-cases (is_f_key k)) [
    | inl f ↦ is_f_key-sends k f
    | inr unlisted ↦ modified-sends k (ground arith)
  ]
]

-- In either cursor mode, every key name that the send command admits is one that the multiplexer
-- has bytes for.
pub valid_key-ne-none :
    (k : List ℕ) (app_cursor : Bool) → valid_key k ≡ true → key_bytes k app_cursor ≢ none
valid_key-ne-none k true h unknown = let sent = valid_key-sends k h in ground (arith, sent, unknown)
valid_key-ne-none k false h unknown =
    let sent = valid_key-sends k h in ground (arith, sent, unknown)
