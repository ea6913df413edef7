-- ===== src/Tests/State.antt =====
-- Runs of the naming of terminals and endpoints: the properties at concrete inputs.
use pairmux.Prelude.{ℕ, ◌≡◌, ◌≢◌, refl, List, [], ◌∷◌, true, arith, length}
use pairmux.Prelude.All.{All}
use pairmux.Bytes.{codes, all_bytes, is_empty}
use pairmux.Bytes.Numbers.{atoi}
use pairmux.State.Names.{
  next_auto_name, child_socket, valid_name, valid_socket_name, is_lower_alnum, is_alnum,
  is_socket_byte, max_number, raise_number, auto_number,
}
use pairmux.State.Names.Fresh.{next_auto_name-IsFresh}
use pairmux.State.Names.Nested.{child_socket-valid_socket_name}

abbrev existing : List (List ℕ)
existing = codes "t9" ∷ codes "build" ∷ codes "t2" ∷ []

max_number-existing : max_number 0 existing ≡ 9
unfolding max_number raise_number auto_number is_empty all_bytes atoi
max_number-existing = refl

next_auto_name-IsFresh_example : All (λ (name : List ℕ). name ≢ next_auto_name existing) existing
next_auto_name-IsFresh_example =
    next_auto_name-IsFresh existing (rw max_number-existing (omega arith))

-- A digest that is the same for all texts.
abbrev digest : List ℕ → List ℕ
digest b = codes "0a1b2c3d"

-- An endpoint of 60 bytes, so that the name of the child is cut.
abbrev deep : List ℕ
deep = codes "aaaaaaaaaabbbbbbbbbbccccccccccddddddddddeeeeeeeeeeffffffffff"

digest_safe : (b : List ℕ) → (all_bytes is_alnum (digest b) ≡ true) × (length (digest b) ≡ 8)
unfolding all_bytes is_alnum
digest_safe b = (refl, refl)

child_socket-valid_socket_name_example :
    valid_socket_name (child_socket digest deep (codes "build")) ≡ true
unfolding valid_name valid_socket_name is_lower_alnum is_alnum is_socket_byte all_bytes is_empty
child_socket-valid_socket_name_example =
    child_socket-valid_socket_name digest deep (codes "build") digest_safe refl refl
