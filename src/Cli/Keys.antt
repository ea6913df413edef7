-- ===== src/Cli/Keys.antt =====
-- The key names that the send command admits, validKey of internal/cli/commands.go.
pub mod Known
use pairmux.Prelude.{
  ℕ, List, [], ◌∷◌, Bool, true, false, ◌&&◌, ◌||◌, ◌==◌, within, if◌then◌else◌, length, get_or,
}
use pairmux.Bytes.{codes, bytes_eq}

-- The names of the switch.
unfoldable pub plain_keys : List (List ℕ)
plain_keys =
    codes "Enter"
    ∷ codes "Escape"
    ∷ codes "Tab"
    ∷ codes "Space"
    ∷ codes "Up"
    ∷ codes "Down"
    ∷ codes "Left"
    ∷ codes "Right"
    ∷ codes "Home"
    ∷ codes "End"
    ∷ codes "PPage"
    ∷ codes "NPage"
    ∷ codes "BSpace"
    ∷ codes "DC"
    ∷ []

unfoldable pub is_listed : List ℕ → List (List ℕ) → Bool
unfolding bytes_eq
is_listed k [] = false
is_listed k (name ∷ names) = bytes_eq k name || is_listed k names

-- `^F([1-9]|1[0-2])$`
unfoldable pub is_f_key : List ℕ → Bool
is_f_key (f ∷ d ∷ []) = (f == b'F') && within b'1' b'9' d
is_f_key (f ∷ d ∷ e ∷ []) = (f == b'F') && ((d == b'1') && within b'0' b'2' e)
is_f_key _ = false

-- `^C-[a-z]$` and `^M-[a-z]$`, by the letter of the modifier.
unfoldable pub is_modified : ℕ → List ℕ → Bool
is_modified modifier (m ∷ dash ∷ c ∷ []) = (m == modifier) && ((dash == b'-') && within b'a' b'z' c)
is_modified modifier _ = false

unfoldable pub valid_key : List ℕ → Bool
unfolding is_listed plain_keys is_f_key is_modified
valid_key k = is_listed k plain_keys || (is_f_key k || (is_modified b'C' k || is_modified b'M' k))
