-- ===== src/State/Names/Nested.antt =====
-- The endpoint of a nested terminal is named as an endpoint may be.
use pairmux.Prelude.{
  ℕ, zero, suc, ◌≤◌, ◌≡◌, refl, List, [], ◌∷◌, ◌++◌, Bool, true, ◌&&◌, ◌||◌, leb, ◌==◌, length,
  take, arith, length-append, length-take, if_intro,
}
use pairmux.Bytes.{all_bytes, is_empty}
use pairmux.State.Names.{
  is_lower_alnum, valid_name, is_alnum, is_socket_byte, valid_socket_name, normalized_socket,
  max_socket_name, cut_socket, child_socket,
}

all_bytes-append :
    (ok : ℕ → Bool) (xs ys : List ℕ)
    → all_bytes ok xs ≡ true
    → all_bytes ok ys ≡ true
    → all_bytes ok (xs ++ ys) ≡ true
unfolding all_bytes
all_bytes-append ok [] ys h k = k
all_bytes-append ok (x ∷ xs) ys h k = ground (arith, all_bytes-append ok xs ys)

all_bytes-take :
    (ok : ℕ → Bool) (n : ℕ) (xs : List ℕ) → all_bytes ok xs ≡ true → all_bytes ok (take n xs) ≡ true
unfolding all_bytes
all_bytes-take ok zero xs h = refl
all_bytes-take ok (suc n) [] h = refl
all_bytes-take ok (suc n) (x ∷ xs) h = ground (arith, all_bytes-take ok n xs)

-- What may stand in a terminal's name may stand in an endpoint's.
name_bytes :
    (cs : List ℕ)
    → all_bytes (λ d. is_lower_alnum d || ((d == b'_') || (d == b'-'))) cs ≡ true
    → all_bytes is_socket_byte cs ≡ true
unfolding all_bytes is_lower_alnum is_socket_byte is_alnum
name_bytes [] h = refl
name_bytes (c ∷ cs) h = ground (arith, name_bytes cs)

name_safe : (name : List ℕ) → valid_name name ≡ true → all_bytes is_socket_byte name ≡ true
unfolding valid_name all_bytes is_lower_alnum is_socket_byte is_alnum
name_safe [] h = refl
name_safe (c ∷ cs) h = ground (arith, name_bytes cs)

-- The name of an endpoint, or none.
abbrev may_be_socket : List ℕ → Bool
may_be_socket parent = is_empty parent || valid_socket_name parent

normalized_socket-valid :
    (parent : List ℕ)
    → may_be_socket parent ≡ true
    → valid_socket_name (normalized_socket parent) ≡ true
unfolding normalized_socket valid_socket_name is_empty all_bytes is_alnum is_socket_byte
normalized_socket-valid [] h = refl
normalized_socket-valid (c ∷ cs) h = h

alnum_safe : (b : List ℕ) → all_bytes is_alnum b ≡ true → all_bytes is_socket_byte b ≡ true
unfolding all_bytes is_socket_byte
alnum_safe [] h = refl
alnum_safe (c ∷ cs) h = ground (arith, alnum_safe cs)

cut_short :
    (k : ℕ) (cs suffix : List ℕ)
    → length suffix ≡ 9
    → k ≤ 54
    → leb (length (take k cs ++ suffix)) 63 ≡ true
cut_short k cs suffix n le =
    let total : length (take k cs ++ suffix) ≤ 63 =
      omega (arith, length-append (take k cs) suffix, length-take k cs) in
    ground (arith, total)

-- A cut name and a digest behind it.
cut_socket-valid :
    (c : ℕ) (cs suffix : List ℕ)
    → is_alnum c ≡ true
    → all_bytes is_socket_byte cs ≡ true
    → all_bytes is_socket_byte suffix ≡ true
    → length suffix ≡ 9
    → valid_socket_name (cut_socket (c ∷ cs) suffix) ≡ true
unfolding cut_socket valid_socket_name
cut_socket-valid c cs suffix a b s n =
    let bytes =
      all_bytes-append is_socket_byte (take 54 cs) suffix (all_bytes-take is_socket_byte 54 cs b)
        s in
    let short : leb (length (take 54 cs ++ suffix)) 63 ≡ true =
      cut_short 54 cs suffix n (omega arith) in
    rw n (rw (a, bytes, short) refl)

child_valid :
    (digest : List ℕ → List ℕ) (parent name : List ℕ)
    → ((b : List ℕ) → (all_bytes is_alnum (digest b) ≡ true) × (length (digest b) ≡ 8))
    → valid_socket_name parent ≡ true
    → all_bytes is_socket_byte name ≡ true
    → let full = parent ++ (b'-' ∷ name) in
      valid_socket_name (cut_socket full (b'-' ∷ digest full)) ≡ true
unfolding valid_socket_name
child_valid digest [] name h p n = cc
child_valid digest (c ∷ cs) name h p n =
    let full : List ℕ = c ∷ (cs ++ (b'-' ∷ name)) in
    let dash : (t : List ℕ)
        → all_bytes is_socket_byte t ≡ true
        → all_bytes is_socket_byte (b'-' ∷ t) ≡ true =
      λ t e. unfold all_bytes is_socket_byte is_alnum in e in
    cut_socket-valid c (cs ++ (b'-' ∷ name)) (b'-' ∷ digest full) (ground arith)
      (all_bytes-append is_socket_byte cs (b'-' ∷ name) (ground arith) (dash name n))
      (dash (digest full) (alnum_safe (digest full) (h full).0)) (omega (arith, (h full).1))

-- If the digest gives eight letters or digits for any text, the parent is a valid endpoint name or
-- empty, and the name is a valid terminal name, the endpoint of the child is a valid endpoint
-- name.
pub child_socket-valid_socket_name :
    (digest : List ℕ → List ℕ) (parent name : List ℕ)
    → ((b : List ℕ) → (all_bytes is_alnum (digest b) ≡ true) × (length (digest b) ≡ 8))
    → may_be_socket parent ≡ true
    → valid_name name ≡ true
    → valid_socket_name (child_socket digest parent name) ≡ true
unfolding child_socket
child_socket-valid_socket_name digest parent name h p n =
    let full : List ℕ = normalized_socket parent ++ (b'-' ∷ name) in
    if_intro (λ (b : List ℕ). valid_socket_name b ≡ true)
      (leb (length full) max_socket_name && valid_socket_name full) _ _ (λ e. ground arith)
      (λ _.
        child_valid digest (normalized_socket parent) name h (normalized_socket-valid parent p)
          (name_safe name n))
