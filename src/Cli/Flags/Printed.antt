-- ===== src/Cli/Flags/Printed.antt =====
-- Flags that are written out are parsed as they were meant.
use pairmux.Prelude.{
  ℕ, suc, ◌≡◌, refl, ap, sym, subst, ◌∙◌, List, [], ◌∷◌, ◌++◌, Option, none, some, Bool, true,
  false, not, ◌&&◌, ltb, ◌==◌, length, get_or, drop, arith, take-append_length, take-length,
  length-append,
}
use pairmux.Prelude.All.{All}
use mathlib.Core.List.{append-nil}
use pairmux.Bytes.{codes, bytes_eq, span_length, cut_at, all_bytes}
use pairmux.Cli.Flags.{
  trim_dashes, split_flag, is_terminator, FlagSpec, parsed, add_flag, add_pos, FlagKind, kind_bool,
  kind_value, flag_kind, tok_pos, tok_bool, tok_given, tok_next, flag_token, token, parse_flags,
}

-- An argument with its meaning; the value of a flag stands behind `=` or in the next argument.
pub data Item : Type 0 where
  bool_item : List ℕ → Item
  joined_item : List ℕ → List ℕ → Item
  next_item : List ℕ → List ℕ → Item
  pos_item : List ℕ → Item

abbrev pub print : Item → List (List ℕ)
print (bool_item name) = (b'-' ∷ b'-' ∷ name) ∷ []
print (joined_item name v) = (b'-' ∷ b'-' ∷ (name ++ (b'=' ∷ v))) ∷ []
print (next_item name v) = (b'-' ∷ b'-' ∷ name) ∷ v ∷ []
print (pos_item a) = a ∷ []

abbrev pub print_all : List Item → List (List ℕ)
print_all [] = []
print_all (item ∷ items) = print item ++ print_all items

abbrev flags_of : List Item → List (List ℕ × Option (List ℕ))
flags_of [] = []
flags_of (bool_item name ∷ items) = (name, none) ∷ flags_of items
flags_of (joined_item name v ∷ items) = (name, some v) ∷ flags_of items
flags_of (next_item name v ∷ items) = (name, some v) ∷ flags_of items
flags_of (pos_item a ∷ items) = flags_of items

abbrev positions : List Item → List (List ℕ)
positions [] = []
positions (pos_item a ∷ items) = a ∷ positions items
positions (bool_item name ∷ items) = positions items
positions (joined_item name v ∷ items) = positions items
positions (next_item name v ∷ items) = positions items

-- A name that is not empty, does not begin with a dash and holds no `=`.
abbrev is_name : List ℕ → Bool
is_name [] = false
is_name (c ∷ cs) = not (c == b'-') && all_bytes (λ c. not (c == b'=')) (c ∷ cs)

-- Names of the spec, and positional arguments that do not look like flags.
abbrev IsItem : FlagSpec → Item → Type 0
IsItem spec (bool_item name) = (is_name name ≡ true) × (flag_kind spec name ≡ kind_bool)
IsItem spec (joined_item name v) = (is_name name ≡ true) × (flag_kind spec name ≡ kind_value)
IsItem spec (next_item name v) = (is_name name ≡ true) × (flag_kind spec name ≡ kind_value)
IsItem spec (pos_item a) = (ltb 1 (length a) && (get_or a 0 0 == b'-')) ≡ false

span_length-all : (ok : ℕ → Bool) (b : List ℕ) → all_bytes ok b ≡ true → span_length ok b ≡ length b
unfolding span_length all_bytes
span_length-all ok [] h = refl
span_length-all ok (c ∷ b) h = ground (arith, span_length-all ok b)

span_length-append :
    (ok : ℕ → Bool) (b rest : List ℕ) (c : ℕ)
    → all_bytes ok b ≡ true
    → ok c ≡ false
    → span_length ok (b ++ (c ∷ rest)) ≡ length b
unfolding span_length all_bytes
span_length-append ok [] rest c h k = ground (arith, k)
span_length-append ok (x ∷ b) rest c h k = ground (arith, span_length-append ok b rest c, k)

drop-suc : (b rest : List ℕ) (c : ℕ) → drop (suc (length b)) (b ++ (c ∷ rest)) ≡ rest
drop-suc [] rest c = refl
drop-suc (x ∷ b) rest c = drop-suc b rest c

name_bytes : (name : List ℕ) → is_name name ≡ true → all_bytes (λ c. not (c == b'=')) name ≡ true
unfolding all_bytes
name_bytes [] h = cc
name_bytes (c ∷ cs) h = ground arith

trim_dashes-name :
    (name rest : List ℕ) → is_name name ≡ true → trim_dashes (name ++ rest) ≡ name ++ rest
unfolding trim_dashes all_bytes
trim_dashes-name [] rest h = cc
trim_dashes-name (c ∷ cs) rest h = let letter : (c == b'-') ≡ false = ground arith in rw letter refl

cut_at-all :
    (sep : ℕ) (b : List ℕ) → all_bytes (λ c. not (c == sep)) b ≡ true → cut_at sep b ≡ (b, none)
unfolding cut_at
cut_at-all sep b h =
    let whole : ltb (length b) (length b) ≡ false = ground arith in
    rw (span_length-all (λ c. not (c == sep)) b h, take-length b, whole) refl

pub cut_at-append :
    (sep : ℕ) (b rest : List ℕ)
    → all_bytes (λ c. not (c == sep)) b ≡ true
    → cut_at sep (b ++ (sep ∷ rest)) ≡ (b, some rest)
unfolding cut_at
cut_at-append sep b rest h =
    let part : ltb (length b) (length (b ++ (sep ∷ rest))) ≡ true =
      ground (arith, length-append b (sep ∷ rest)) in
    let found : span_length (λ c. not (c == sep)) (b ++ (sep ∷ rest)) ≡ length b =
      span_length-append (λ c. not (c == sep)) b rest sep h (ground arith) in
    rw (found, part, take-append_length b (sep ∷ rest), drop-suc b rest sep) refl

split_flag-name :
    (name : List ℕ) → is_name name ≡ true → split_flag (b'-' ∷ b'-' ∷ name) ≡ (name, none)
unfolding split_flag trim_dashes
split_flag-name name h =
    ap (cut_at b'=')
      (ap trim_dashes (sym (append-nil name)) ∙ trim_dashes-name name [] h ∙ append-nil name)
    ∙ cut_at-all b'=' name (name_bytes name h)

split_flag-value :
    (name v : List ℕ)
    → is_name name ≡ true
    → split_flag (b'-' ∷ b'-' ∷ (name ++ (b'=' ∷ v))) ≡ (name, some v)
unfolding split_flag trim_dashes
split_flag-value name v h =
    ap (cut_at b'=') (trim_dashes-name name (b'=' ∷ v) h)
    ∙ cut_at-append b'=' name v (name_bytes name h)

-- A name behind two dashes is no terminator.
is_terminator-name :
    (name rest : List ℕ)
    → is_name name ≡ true
    → is_terminator (b'-' ∷ b'-' ∷ (name ++ rest)) ≡ false
unfolding is_terminator bytes_eq
is_terminator-name [] rest h = cc
is_terminator-name (c ∷ cs) rest h = refl

is_terminator-pos :
    (a : List ℕ) → (ltb 1 (length a) && (get_or a 0 0 == b'-')) ≡ false → is_terminator a ≡ false
unfolding is_terminator bytes_eq
is_terminator-pos [] h = refl
is_terminator-pos (c ∷ []) h = ground arith
is_terminator-pos (c ∷ d ∷ a) h = ground arith

module _ (spec : FlagSpec) where
  -- One argument in front of others.
  parse_flags-pos :
      (a : List ℕ) (args : List (List ℕ))
      → is_terminator a ≡ false
      → token spec a ≡ tok_pos
      → parse_flags spec (a ∷ args) ≡ add_pos a (parse_flags spec args)
  unfolding parse_flags add_pos
  parse_flags-pos a [] e t = rw (e, t) refl
  parse_flags-pos a (b ∷ args) e t = rw (e, t) refl

  parse_flags-bool :
      (a name : List ℕ) (args : List (List ℕ))
      → is_terminator a ≡ false
      → token spec a ≡ tok_bool name
      → parse_flags spec (a ∷ args) ≡ add_flag name none (parse_flags spec args)
  unfolding parse_flags add_flag
  parse_flags-bool a name [] e t = rw (e, t) refl
  parse_flags-bool a name (b ∷ args) e t = rw (e, t) refl

  parse_flags-given :
      (a name v : List ℕ) (args : List (List ℕ))
      → is_terminator a ≡ false
      → token spec a ≡ tok_given name v
      → parse_flags spec (a ∷ args) ≡ add_flag name (some v) (parse_flags spec args)
  unfolding parse_flags add_flag
  parse_flags-given a name v [] e t = rw (e, t) refl
  parse_flags-given a name v (b ∷ args) e t = rw (e, t) refl

  parse_flags-next :
      (a name v : List ℕ) (args : List (List ℕ))
      → is_terminator a ≡ false
      → token spec a ≡ tok_next name
      → parse_flags spec (a ∷ v ∷ args) ≡ add_flag name (some v) (parse_flags spec args)
  unfolding parse_flags
  parse_flags-next a name v args e t = rw (e, t) refl

  parse_flags-end : (rest : List (List ℕ)) → parse_flags spec (codes "--" ∷ rest) ≡ parsed [] rest
  unfolding parse_flags is_terminator bytes_eq
  parse_flags-end [] = refl
  parse_flags-end (a ∷ rest) = refl

  token_name :
      (name : List ℕ) (k : FlagKind)
      → is_name name ≡ true
      → flag_kind spec name ≡ k
      → token spec (b'-' ∷ b'-' ∷ name) ≡ flag_token k name none
  unfolding token
  token_name name k h e = rw (split_flag-name name h, e) (ground arith)

  token_value :
      (name v : List ℕ)
      → is_name name ≡ true
      → flag_kind spec name ≡ kind_value
      → token spec (b'-' ∷ b'-' ∷ (name ++ (b'=' ∷ v))) ≡ tok_given name v
  unfolding token flag_token
  token_value name v h e = rw (split_flag-value name v h, e) (ground arith)

  token_pos :
      (a : List ℕ) → (ltb 1 (length a) && (get_or a 0 0 == b'-')) ≡ false → token spec a ≡ tok_pos
  unfolding token
  token_pos a h = rw h refl

  -- For any flags of the spec with names that are not empty, begin with no dash and hold no `=`,
  -- and any positional arguments that do not look like flags, written out in any order, with the
  -- value behind `=` or as the next argument, and followed by the terminator and any arguments,
  -- parsing gives the flags with their values and the positional arguments in that order, those
  -- behind the terminator last.
  pub parse_flags-print_all :
      (items : List Item) (rest : List (List ℕ))
      → All (IsItem spec) items
      → parse_flags spec (print_all items ++ (codes "--" ∷ rest))
        ≡ parsed (flags_of items) (positions items ++ rest)
  unfolding add_pos add_flag flag_token
  parse_flags-print_all [] rest h = parse_flags-end rest
  parse_flags-print_all (bool_item name ∷ items) rest h =
      parse_flags-bool (b'-' ∷ b'-' ∷ name) name _
        (subst (λ x. is_terminator (b'-' ∷ b'-' ∷ x) ≡ false) (append-nil name)
          (is_terminator-name name [] h.0.0))
        (token_name name kind_bool h.0.0 h.0.1)
      ∙ ap (add_flag name none) (parse_flags-print_all items rest h.1)
  parse_flags-print_all (joined_item name v ∷ items) rest h =
      parse_flags-given (b'-' ∷ b'-' ∷ (name ++ (b'=' ∷ v))) name v _
        (is_terminator-name name (b'=' ∷ v) h.0.0) (token_value name v h.0.0 h.0.1)
      ∙ ap (add_flag name (some v)) (parse_flags-print_all items rest h.1)
  parse_flags-print_all (next_item name v ∷ items) rest h =
      parse_flags-next (b'-' ∷ b'-' ∷ name) name v _
        (subst (λ x. is_terminator (b'-' ∷ b'-' ∷ x) ≡ false) (append-nil name)
          (is_terminator-name name [] h.0.0))
        (token_name name kind_value h.0.0 h.0.1)
      ∙ ap (add_flag name (some v)) (parse_flags-print_all items rest h.1)
  parse_flags-print_all (pos_item a ∷ items) rest h =
      parse_flags-pos a _ (is_terminator-pos a h.0) (token_pos a h.0)
      ∙ ap (add_pos a) (parse_flags-print_all items rest h.1)
