-- ===== src/Cli/Flags/Stripped.antt =====
-- The global flags are taken out wherever they stand in front of the terminator, and nothing else.
use pairmux.Prelude.{
  ℕ, ◌≡◌, ◌⊎◌, inl, inr, refl, ap, ◌∙◌, List, [], ◌∷◌, ◌++◌, Option, some, Bool, true, false, ◌&&◌,
  ltb, ◌==◌, length, get_or, arith, if_intro,
}
use pairmux.Prelude.All.{All}
use pairmux.Bytes.{codes, bytes_eq, span_length, cut_at, all_bytes}
use pairmux.Cli.Flags.{
  trim_dashes, split_flag, is_terminator, not_global, json_flag, socket_value, socket_next,
  named_global, global_of, keep_arg, strip_globals,
}
use pairmux.Cli.Flags.Printed.{cut_at-append}

-- An argument with its meaning; a flag is written with one dash or with two.
pub data Arg : Type 0 where
  other_arg : List ℕ → Arg
  json_arg : Bool → Arg
  joined_arg : Bool → List ℕ → Arg
  next_arg : Bool → List ℕ → Arg

abbrev dashed : Bool → List ℕ → List ℕ
dashed true name = b'-' ∷ b'-' ∷ name
dashed false name = b'-' ∷ name

abbrev pub print_args : List Arg → List (List ℕ)
print_args [] = []
print_args (other_arg a ∷ args) = a ∷ print_args args
print_args (json_arg two ∷ args) = dashed two (codes "json") ∷ print_args args
print_args (joined_arg two v ∷ args) = dashed two (codes "socket" ++ (b'=' ∷ v)) ∷ print_args args
print_args (next_arg two v ∷ args) = dashed two (codes "socket") ∷ v ∷ print_args args

abbrev pub others : List Arg → List (List ℕ)
others [] = []
others (other_arg a ∷ args) = a ∷ others args
others (json_arg two ∷ args) = others args
others (joined_arg two v ∷ args) = others args
others (next_arg two v ∷ args) = others args

-- Whether JSON is asked for, and the last socket that is named.
abbrev pub json_after : Bool → List Arg → Bool
json_after json [] = json
json_after json (other_arg a ∷ args) = json_after json args
json_after json (json_arg two ∷ args) = json_after true args
json_after json (joined_arg two v ∷ args) = json_after json args
json_after json (next_arg two v ∷ args) = json_after json args

abbrev pub socket_after : List ℕ → List Arg → List ℕ
socket_after sock [] = sock
socket_after sock (other_arg a ∷ args) = socket_after sock args
socket_after sock (json_arg two ∷ args) = socket_after sock args
socket_after sock (joined_arg two v ∷ args) = socket_after v args
socket_after sock (next_arg two v ∷ args) = socket_after v args

-- An argument that is no terminator, and that is short, begins with no dash or has another name.
abbrev pub IsArg : Arg → Type 0
IsArg (other_arg a) =
    (bytes_eq a (codes "--") ≡ false)
    × (((ltb 2 (length a) && (get_or a 0 0 == b'-')) ≡ false)
        ⊎ ((bytes_eq (split_flag a).0 (codes "json") ≡ false)
            × (bytes_eq (split_flag a).0 (codes "socket") ≡ false)))
IsArg (json_arg two) = Unit {0}
IsArg (joined_arg two v) = Unit {0}
IsArg (next_arg two v) = Unit {0}

global_of-other : (a : List ℕ) → IsArg (other_arg a) → global_of a ≡ not_global
unfolding global_of named_global
global_of-other a (t, inl short) = rw short refl
global_of-other a (t, inr (j, s)) =
    if_intro (λ g. g ≡ not_global) (ltb 2 (length a) && (get_or a 0 0 == b'-')) _ _
      (λ _. rw (j, s) refl) (λ _. refl)

global_of-json : (two : Bool) → global_of (dashed two (codes "json")) ≡ json_flag
unfolding global_of named_global split_flag trim_dashes cut_at span_length bytes_eq
global_of-json true = refl
global_of-json false = refl

global_of-next : (two : Bool) → global_of (dashed two (codes "socket")) ≡ socket_next
unfolding global_of named_global split_flag trim_dashes cut_at span_length bytes_eq
global_of-next true = refl
global_of-next false = refl

split_flag-joined :
    (two : Bool) (v : List ℕ)
    → split_flag (dashed two (codes "socket" ++ (b'=' ∷ v))) ≡ (codes "socket", some v)
unfolding split_flag trim_dashes all_bytes
split_flag-joined true v = cut_at-append b'=' (codes "socket") v refl
split_flag-joined false v = cut_at-append b'=' (codes "socket") v refl

looks_global :
    (two : Bool) (c d : ℕ) (name : List ℕ)
    → (ltb 2 (length (dashed two (c ∷ d ∷ name)))
        && (get_or (dashed two (c ∷ d ∷ name)) 0 0 == b'-'))
      ≡ true
looks_global true c d name = ground arith
looks_global false c d name = ground arith

global_of-joined :
    (two : Bool) (v : List ℕ)
    → global_of (dashed two (codes "socket" ++ (b'=' ∷ v))) ≡ socket_value v
unfolding global_of named_global bytes_eq
global_of-joined two v =
    if_intro (λ g. g ≡ socket_value v) _ _ not_global
      (λ _. ap (λ (r : List ℕ × Option (List ℕ)). named_global r.0 r.1) (split_flag-joined two v))
      (λ e. absurd (ground (arith, e, looks_global two b's' b'o' (codes "cket" ++ (b'=' ∷ v)))))

no_terminator :
    (two : Bool) (c d : ℕ) (name : List ℕ) → is_terminator (dashed two (c ∷ d ∷ name)) ≡ false
unfolding is_terminator bytes_eq
no_terminator true c d name = refl
no_terminator false c d name = ground arith

-- One argument in front of others.
module _ (a : List ℕ) (t : is_terminator a ≡ false) where
  strip_globals-kept :
      (args : List (List ℕ)) (json : Bool) (sock : List ℕ)
      → global_of a ≡ not_global
      → strip_globals (a ∷ args) json sock ≡ keep_arg a (strip_globals args json sock)
  unfolding strip_globals
  strip_globals-kept [] json sock e = rw (t, e) refl
  strip_globals-kept (b ∷ args) json sock e = rw (t, e) refl

  strip_globals-json :
      (args : List (List ℕ)) (json : Bool) (sock : List ℕ)
      → global_of a ≡ json_flag
      → strip_globals (a ∷ args) json sock ≡ strip_globals args true sock
  unfolding strip_globals
  strip_globals-json [] json sock e = rw (t, e) refl
  strip_globals-json (b ∷ args) json sock e = rw (t, e) refl

  strip_globals-value :
      (args : List (List ℕ)) (json : Bool) (sock v : List ℕ)
      → global_of a ≡ socket_value v
      → strip_globals (a ∷ args) json sock ≡ strip_globals args json v
  unfolding strip_globals
  strip_globals-value [] json sock v e = rw (t, e) refl
  strip_globals-value (b ∷ args) json sock v e = rw (t, e) refl

  strip_globals-next :
      (args : List (List ℕ)) (json : Bool) (sock v : List ℕ)
      → global_of a ≡ socket_next
      → strip_globals (a ∷ v ∷ args) json sock ≡ strip_globals args json v
  unfolding strip_globals
  strip_globals-next args json sock v e = rw (t, e) refl

strip_globals-end :
    (rest : List (List ℕ)) (json : Bool) (sock : List ℕ)
    → strip_globals (codes "--" ∷ rest) json sock
      ≡ record { rest = codes "--" ∷ rest; json = json; sock = sock }
unfolding strip_globals keep_arg is_terminator bytes_eq
strip_globals-end [] json sock = refl
strip_globals-end (a ∷ rest) json sock = refl

-- Let arguments be written in any order: --json and --socket with one dash or two, the socket
-- behind `=` or as the next argument, and others that are not the terminator and are short, begin
-- with no dash or have another name; then the terminator and any more. Stripping leaves the
-- others, the terminator and what is behind it, in their order, and gives JSON mode exactly if it
-- was set or asked for, and the last socket that was named, or else the one before.
pub strip_globals-print_args :
    (args : List Arg) (rest : List (List ℕ)) (json : Bool) (sock : List ℕ)
    → All IsArg args
    → strip_globals (print_args args ++ (codes "--" ∷ rest)) json sock ≡ record {
      rest = others args ++ (codes "--" ∷ rest);
      json = json_after json args;
      sock = socket_after sock args;
    }
unfolding keep_arg is_terminator
strip_globals-print_args [] rest json sock h = strip_globals-end rest json sock
strip_globals-print_args (other_arg a ∷ args) rest json sock h =
    strip_globals-kept a h.0.0 _ json sock (global_of-other a h.0)
    ∙ ap (keep_arg a) (strip_globals-print_args args rest json sock h.1)
strip_globals-print_args (json_arg two ∷ args) rest json sock h =
    strip_globals-json (dashed two (codes "json")) (no_terminator two b'j' b's' (codes "on")) _ json
      sock (global_of-json two)
    ∙ strip_globals-print_args args rest true sock h.1
strip_globals-print_args (joined_arg two v ∷ args) rest json sock h =
    strip_globals-value (dashed two (codes "socket" ++ (b'=' ∷ v)))
      (no_terminator two b's' b'o' (codes "cket" ++ (b'=' ∷ v))) _ json sock v
      (global_of-joined two v)
    ∙ strip_globals-print_args args rest json v h.1
strip_globals-print_args (next_arg two v ∷ args) rest json sock h =
    strip_globals-next (dashed two (codes "socket")) (no_terminator two b's' b'o' (codes "cket")) _
      json sock v (global_of-next two)
    ∙ strip_globals-print_args args rest json v h.1
