-- ===== src/State/Names.antt =====
-- The names of terminals and of endpoints: ValidName, NextAutoName, MetaMatchesSocket and ChildSocket
-- of internal/state/state.go, ValidSocketName of internal/mux/mux.go. Names are texts of ASCII bytes.
pub mod Fresh
pub mod Nested
use pairmux.Prelude.{
  ℕ, ◌+◌, ◌-◌, List, [], ◌∷◌, ◌++◌, Option, none, some, Bool, true, false, not, ◌&&◌, ◌||◌, ltb,
  leb, ◌==◌, within, if◌then◌else◌, length, take,
}
use pairmux.Bytes.{codes, is_empty, all_bytes, bytes_eq}
use pairmux.Bytes.Numbers.{ℤ, pos, negsuc, atoi, decimal}

unfoldable pub is_lower_alnum : ℕ → Bool
is_lower_alnum c = within b'a' b'z' c || within b'0' b'9' c

-- `^[a-z0-9][a-z0-9_-]{0,31}$`
unfoldable pub valid_name : List ℕ → Bool
unfolding is_lower_alnum all_bytes
valid_name [] = false
valid_name (c ∷ cs) =
    is_lower_alnum c
    && (all_bytes (λ d. is_lower_alnum d || ((d == b'_') || (d == b'-'))) cs && leb (length cs) 31)

unfoldable pub is_alnum : ℕ → Bool
is_alnum c = within b'A' b'Z' c || (within b'a' b'z' c || within b'0' b'9' c)

unfoldable pub is_socket_byte : ℕ → Bool
unfolding is_alnum
is_socket_byte c = is_alnum c || ((c == b'_') || ((c == b'.') || (c == b'-')))

-- `^[A-Za-z0-9][A-Za-z0-9_.-]{0,63}$`
unfoldable pub valid_socket_name : List ℕ → Bool
valid_socket_name [] = false
valid_socket_name (c ∷ cs) = is_alnum c && (all_bytes is_socket_byte cs && leb (length cs) 63)

-- The number of an automatic name, `^t([0-9]+)$`, if it is one that an int holds.
unfoldable pub auto_number : List ℕ → Option ℤ
unfolding is_empty all_bytes atoi
auto_number [] = none
auto_number (c ∷ cs) =
    if (c == b't') && (not (is_empty cs) && all_bytes (λ d. within b'0' b'9' d) cs)
    then atoi cs
    else none

unfoldable pub raise_number : ℕ → Option ℤ → ℕ
raise_number max none = max
raise_number max (some (pos n)) = if ltb max n then n else max
raise_number max (some (negsuc n)) = max

unfoldable pub max_number : ℕ → List (List ℕ) → ℕ
unfolding raise_number auto_number
max_number max [] = max
max_number max (name ∷ names) = max_number (raise_number max (auto_number name)) names

unfoldable pub next_auto_name : List (List ℕ) → List ℕ
unfolding max_number decimal
next_auto_name existing = b't' ∷ decimal (max_number 0 existing + 1)

abbrev default_socket : List ℕ
default_socket = codes "pairmux"

unfoldable pub normalized_socket : List ℕ → List ℕ
unfolding is_empty
normalized_socket socket = if is_empty socket then default_socket else socket

-- `MetaMatchesSocket`, of the socket that meta.json names.
unfoldable meta_matches_socket : List ℕ → List ℕ → Bool
unfolding normalized_socket bytes_eq is_empty
meta_matches_socket recorded socket =
    if is_empty recorded
    then bytes_eq (normalized_socket socket) default_socket
    else bytes_eq (normalized_socket recorded) (normalized_socket socket)

abbrev pub max_socket_name : ℕ
max_socket_name = 64

-- The name cut, with a digest behind it.
unfoldable pub cut_socket : List ℕ → List ℕ → List ℕ
cut_socket full suffix = take (max_socket_name - length suffix) full ++ suffix

-- `ChildSocket`; `digest` gives the first four bytes of SHA-256 in hexadecimal.
unfoldable pub child_socket : (List ℕ → List ℕ) → List ℕ → List ℕ → List ℕ
unfolding normalized_socket valid_socket_name cut_socket
child_socket digest parent name =
    let full = normalized_socket parent ++ (b'-' ∷ name) in
    if leb (length full) max_socket_name && valid_socket_name full
    then full
    else cut_socket full (b'-' ∷ digest full)
