-- ===== src/Bytes.antt =====
-- Byte strings: what the packages use of Go's bytes, strings and strconv.
pub mod Space
pub mod Numbers
pub mod Lines
pub mod Digits
pub mod Every
use Prim.Native.Char.{code}
use Prim.Native.String.{String}
use pairmux.Prelude.{
  ℕ, zero, suc, ◌+◌, ◌-◌, List, [], ◌∷◌, ◌++◌, Option, none, some, Bool, true, false, not, ◌&&◌,
  ltb, ◌==◌, if◌then◌else◌, length, take, drop,
}

-- The bytes of an ASCII literal.
abbrev pub codes : String → List ℕ
codes String.[] = []
codes (String.◌∷◌ c s) = code c ∷ codes s

unfoldable pub is_empty {ℓ} : {A : Type ℓ} → List A → Bool
is_empty [] = true
is_empty (x ∷ xs) = false

-- The list without the longest end whose entries all pass the test.
unfoldable pub trim_end {ℓ} : {A : Type ℓ} → (A → Bool) → List A → List A
unfolding is_empty
trim_end p [] = []
trim_end p (x ∷ xs) = let rest = trim_end p xs in if is_empty rest && p x then [] else x ∷ rest

-- How many bytes at the front pass the test.
unfoldable pub span_length : (ℕ → Bool) → List ℕ → ℕ
span_length ok [] = 0
span_length ok (c ∷ cs) = let rest = span_length ok cs in if ok c then suc rest else 0

unfoldable pub all_bytes : (ℕ → Bool) → List ℕ → Bool
all_bytes ok [] = true
all_bytes ok (c ∷ cs) = ok c && all_bytes ok cs

-- `bytes.Equal`
unfoldable pub bytes_eq : List ℕ → List ℕ → Bool
bytes_eq [] [] = true
bytes_eq (x ∷ xs) (y ∷ ys) = (x == y) && bytes_eq xs ys
bytes_eq _ _ = false

-- `strings.HasPrefix(b, p)`
unfoldable pub has_prefix : List ℕ → List ℕ → Bool
has_prefix b [] = true
has_prefix [] (p ∷ ps) = false
has_prefix (b ∷ bs) (p ∷ ps) = (b == p) && has_prefix bs ps

-- `strings.HasSuffix(b, p)`
unfoldable pub has_suffix : List ℕ → List ℕ → Bool
unfolding bytes_eq
has_suffix b p = not (ltb (length b) (length p)) && bytes_eq (drop (length b - length p) b) p

-- The head of a split list, with a byte put in front.
unfoldable pub onto_first : ℕ → List (List ℕ) → List (List ℕ)
onto_first c [] = (c ∷ []) ∷ []
onto_first c (p ∷ ps) = (c ∷ p) ∷ ps

-- `bytes.Split(b, []byte{sep})`
unfoldable pub split : ℕ → List ℕ → List (List ℕ)
unfolding onto_first
split sep [] = [] ∷ []
split sep (c ∷ cs) = let rest = split sep cs in if c == sep then [] ∷ rest else onto_first c rest

-- `strings.Join(parts, sep)` for a separator of one byte.
unfoldable pub join : ℕ → List (List ℕ) → List ℕ
join sep [] = []
join sep (p ∷ []) = p
join sep (p ∷ q ∷ ps) = p ++ (sep ∷ join sep (q ∷ ps))

-- The bytes before the first `sep`, and those after it if there is one.
unfoldable pub cut_at : ℕ → List ℕ → List ℕ × Option (List ℕ)
unfolding span_length
cut_at sep b =
    let k = span_length (λ c. not (c == sep)) b in
    (take k b, if ltb k (length b) then some (drop (suc k) b) else none)
