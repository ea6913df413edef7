-- ===== src/Muxd/Keys.antt =====
-- The bytes of a key, internal/muxd/keys.go.
pub mod Encoded
use pairmux.Prelude.{
  ℕ, ◌+◌, ◌-◌, List, [], ◌∷◌, ◌++◌, Option, none, some, Bool, ◌&&◌, ◌||◌, ltb, ◌==◌, within,
  if◌then◌else◌, length, get_or, map,
}
use pairmux.Bytes.{codes, bytes_eq}

abbrev pub esc_char : ℕ
esc_char = 0x1B

-- A cursor key follows the program's choice of application cursor keys.
unfoldable pub csi_or_ss3 : Bool → ℕ → List ℕ
csi_or_ss3 app_cursor final = esc_char ∷ (if app_cursor then b'O' else b'[') ∷ final ∷ []

-- The entry of a name in a table, none when it has none.
unfoldable pub lookup : List ℕ → List (List ℕ × List ℕ) → Option (List ℕ)
unfolding bytes_eq
lookup name [] = none
lookup name ((key, bytes) ∷ table) =
    let rest = lookup name table in if bytes_eq name key then some bytes else rest

-- The cases of the first switch.
unfoldable pub named_keys : Bool → List (List ℕ × List ℕ)
unfolding csi_or_ss3
named_keys app =
    (codes "Enter", 0x0D ∷ [])
    ∷ (codes "Escape", esc_char ∷ [])
    ∷ (codes "Tab", 0x09 ∷ [])
    ∷ (codes "Space", b' ' ∷ [])
    ∷ (codes "BSpace", 0x7F ∷ [])
    ∷ (codes "Up", csi_or_ss3 app b'A')
    ∷ (codes "Down", csi_or_ss3 app b'B')
    ∷ (codes "Right", csi_or_ss3 app b'C')
    ∷ (codes "Left", csi_or_ss3 app b'D')
    ∷ (codes "Home", csi_or_ss3 app b'H')
    ∷ (codes "End", csi_or_ss3 app b'F')
    ∷ (codes "PPage", esc_char ∷ codes "[5~")
    ∷ (codes "NPage", esc_char ∷ codes "[6~")
    ∷ (codes "DC", esc_char ∷ codes "[3~")
    ∷ (codes "IC", esc_char ∷ codes "[2~")
    ∷ (codes "F1", esc_char ∷ codes "OP")
    ∷ (codes "F2", esc_char ∷ codes "OQ")
    ∷ (codes "F3", esc_char ∷ codes "OR")
    ∷ (codes "F4", esc_char ∷ codes "OS")
    ∷ (codes "F5", esc_char ∷ codes "[15~")
    ∷ (codes "F6", esc_char ∷ codes "[17~")
    ∷ (codes "F7", esc_char ∷ codes "[18~")
    ∷ (codes "F8", esc_char ∷ codes "[19~")
    ∷ (codes "F9", esc_char ∷ codes "[20~")
    ∷ (codes "F10", esc_char ∷ codes "[21~")
    ∷ (codes "F11", esc_char ∷ codes "[23~")
    ∷ (codes "F12", esc_char ∷ codes "[24~")
    ∷ []

-- The control character of `C-c`.
unfoldable pub control_byte : ℕ → Option (List ℕ)
control_byte c =
    if within b'a' b'z' c
    then some ((c - b'a' + 1) ∷ [])
    else if within b'A' b'Z' c
    then some ((c - b'A' + 1) ∷ [])
    else if c == b'@' || c == b' '
    then some (0 ∷ [])
    else if c == b'['
    then some (0x1B ∷ [])
    else if c == 0x5C
    then some (0x1C ∷ [])
    else if c == b']'
    then some (0x1D ∷ [])
    else if c == b'^'
    then some (0x1E ∷ [])
    else if c == b'_'
    then some (0x1F ∷ [])
    else if c == b'?'
    then some (0x7F ∷ [])
    else none

unfoldable pub meta_bytes : ℕ → Option (List ℕ)
meta_bytes c = if within 0x21 0x7E c then some (esc_char ∷ c ∷ []) else none

-- The keys with a modifier.
unfoldable pub modified_key : List ℕ → Option (List ℕ)
unfolding control_byte meta_bytes
modified_key name =
    let c = get_or name 2 0 in
    if (length name == 3) && (get_or name 1 0 == b'-')
    then (if get_or name 0 0 == b'C'
        then control_byte c
        else if get_or name 0 0 == b'M'
        then meta_bytes c
        else none)
    else none

-- The named key, or else the key with a modifier.
unfoldable pub or_modified : Option (List ℕ) → List ℕ → Option (List ℕ)
unfolding modified_key
or_modified none name = modified_key name
or_modified (some bytes) name = some bytes

-- `keyBytes`, none for an unknown key.
unfoldable pub key_bytes : List ℕ → Bool → Option (List ℕ)
unfolding lookup named_keys or_modified
key_bytes name app_cursor = or_modified (lookup name (named_keys app_cursor)) name
