-- ===== src/Muxd/Keys/Encoded.antt =====
-- What the bytes of a key are.
use pairmux.Prelude.{
  ℕ, ◌+◌, ◌-◌, ◌≤◌, ◌≡◌, refl, ap, List, [], ◌∷◌, Option, none, some, Bool, true, false, ◌&&◌, ◌||◌,
  leb, ◌==◌, within, if◌then◌else◌, length, get_or, arith, if_intro,
}
use pairmux.Prelude.All.{All}
use pairmux.Bytes.{bytes_eq}
use pairmux.Muxd.Keys.{
  esc_char, csi_or_ss3, lookup, named_keys, control_byte, meta_bytes, modified_key, or_modified,
  key_bytes,
}

-- Printable ASCII only.
abbrev is_plain : List ℕ → Bool
is_plain [] = true
is_plain (c ∷ cs) = within 0x20 0x7E c && is_plain cs

-- One ASCII byte, or ESC and at least one printable byte.
abbrev is_key : List ℕ → Bool
is_key [] = false
is_key (c ∷ []) = leb c 0x7F
is_key (c ∷ d ∷ ds) = (c == esc_char) && is_plain (d ∷ ds)

-- Bytes of this form, or no bytes for an unknown key.
abbrev IsKey : Option (List ℕ) → Type 0
IsKey none = Unit {0}
IsKey (some b) = is_key b ≡ true

lookup-IsKey :
    (name : List ℕ) (table : List (List ℕ × List ℕ))
    → All (λ (e : List ℕ × List ℕ). is_key e.1 ≡ true) table
    → IsKey (lookup name table)
unfolding lookup
lookup-IsKey name [] h = tt
lookup-IsKey name ((key, bytes) ∷ table) h =
    if_intro IsKey (bytes_eq name key) _ _ (λ _. h.0) (λ _. lookup-IsKey name table h.1)

named_keys-IsKey : (app : Bool) → All (λ (e : List ℕ × List ℕ). is_key e.1 ≡ true) (named_keys app)
unfolding named_keys csi_or_ss3
named_keys-IsKey true = (
  refl,
  (
    refl,
    (
      refl,
      (
        refl,
        (
          refl,
          (
            refl,
            (
              refl,
              (
                refl,
                (
                  refl,
                  (
                    refl,
                    (
                      refl,
                      (
                        refl,
                        (
                          refl,
                          (
                            refl,
                            (
                              refl,
                              (
                                refl,
                                (
                                  refl,
                                  (
                                    refl,
                                    (
                                      refl,
                                      (
                                        refl,
                                        (refl, (refl, (refl, (refl, (refl, (refl, (refl, tt))))))),
                                      ),
                                    ),
                                  ),
                                ),
                              ),
                            ),
                          ),
                        ),
                      ),
                    ),
                  ),
                ),
              ),
            ),
          ),
        ),
      ),
    ),
  ),
)
named_keys-IsKey false = (
  refl,
  (
    refl,
    (
      refl,
      (
        refl,
        (
          refl,
          (
            refl,
            (
              refl,
              (
                refl,
                (
                  refl,
                  (
                    refl,
                    (
                      refl,
                      (
                        refl,
                        (
                          refl,
                          (
                            refl,
                            (
                              refl,
                              (
                                refl,
                                (
                                  refl,
                                  (
                                    refl,
                                    (
                                      refl,
                                      (
                                        refl,
                                        (refl, (refl, (refl, (refl, (refl, (refl, (refl, tt))))))),
                                      ),
                                    ),
                                  ),
                                ),
                              ),
                            ),
                          ),
                        ),
                      ),
                    ),
                  ),
                ),
              ),
            ),
          ),
        ),
      ),
    ),
  ),
)

-- A test that a key passes, or the tests behind it.
if-IsKey :
    (b : Bool) (x y : Option (List ℕ)) → (b ≡ true → IsKey x) → IsKey y → IsKey (if b then x else y)
if-IsKey b x y h k = if_intro IsKey b x y h (λ _. k)

control_byte-IsKey : (c : ℕ) → IsKey (control_byte c)
unfolding control_byte
control_byte-IsKey c =
    if-IsKey (within b'a' b'z' c) _ _ (λ e. ground arith)
      (if-IsKey (within b'A' b'Z' c) _ _ (λ e. ground arith)
        (if-IsKey (c == b'@' || c == b' ') _ _ (λ _. refl)
          (if-IsKey (c == b'[') _ _ (λ _. refl)
            (if-IsKey (c == 0x5C) _ _ (λ _. refl)
              (if-IsKey (c == b']') _ _ (λ _. refl)
                (if-IsKey (c == b'^') _ _ (λ _. refl)
                  (if-IsKey (c == b'_') _ _ (λ _. refl)
                    (if-IsKey (c == b'?') _ _ (λ _. refl) tt))))))))

modified_key-IsKey : (name : List ℕ) → IsKey (modified_key name)
unfolding modified_key meta_bytes
modified_key-IsKey name =
    let c = get_or name 2 0 in
    if-IsKey ((length name == 3) && (get_or name 1 0 == b'-')) _ _
      (λ _.
        if-IsKey (get_or name 0 0 == b'C') _ _ (λ _. control_byte-IsKey c)
          (if-IsKey (get_or name 0 0 == b'M') _ _
            (λ _. if-IsKey (within 0x21 0x7E c) _ _ (λ e. ground arith) tt) tt))
      tt

-- Whatever the name and the cursor mode, an unknown key gives no bytes, and any other gives one
-- ASCII byte, or ESC and at least one byte that are printable ASCII.
key_bytes-IsKey : (name : List ℕ) (app_cursor : Bool) → IsKey (key_bytes name app_cursor)
unfolding key_bytes
key_bytes-IsKey name app =
    either (lookup name (named_keys app))
      (lookup-IsKey name (named_keys app) (named_keys-IsKey app))
  where
    either : (o : Option (List ℕ)) → IsKey o → IsKey (or_modified o name)
    either none h = modified_key-IsKey name
    either (some b) h = h

-- `C-` with a letter, small or capital.
abbrev control_name : ℕ → List ℕ
control_name c = b'C' ∷ b'-' ∷ c ∷ []

-- The names made of `C-` and the n-th letter, small or capital, give the control character n, in
-- either cursor mode.
key_bytes-control :
    (n : ℕ) (app_cursor : Bool)
    → 1 ≤ n
    → n ≤ 26
    → (key_bytes (control_name (n + 0x60)) app_cursor ≡ some (n ∷ []))
      × (key_bytes (control_name (n + 0x40)) app_cursor ≡ some (n ∷ []))
unfolding key_bytes lookup named_keys or_modified modified_key control_byte bytes_eq
key_bytes-control n app h k = (
  if_intro P (within b'a' b'z' (n + 0x60)) _ _ (λ _. letter 0x60) (λ e. absurd (ground arith)),
  if_intro P (within b'a' b'z' (n + 0x40)) _ _ (λ e. absurd (ground arith))
      (λ _.
        if_intro P (within b'A' b'Z' (n + 0x40)) _ _ (λ _. letter 0x40)
          (λ e. absurd (ground arith))),
)
  where
    P : Option (List ℕ) → Type 0
    P r = r ≡ some (n ∷ [])

    letter : (base : ℕ) → P (some ((n + base - (base + 1) + 1) ∷ []))
    letter base = ap (λ x. some (x ∷ [])) (omega arith)
