-- ===== src/Cli/Flags.antt =====
-- The arguments of the command line: splitFlag, stripGlobals, parseFlags and parseRun of
-- internal/cli/cli.go.
pub mod Printed
pub mod Stripped
use pairmux.Prelude.{
  ℕ, List, [], ◌∷◌, ◌++◌, Option, none, some, Bool, true, false, not, ◌&&◌, ◌||◌, ltb, ◌==◌,
  if◌then◌else◌, length, get_or,
}
use pairmux.Bytes.{codes, bytes_eq, cut_at}
use pairmux.Cli.Keys.{is_listed}

-- `strings.TrimLeft(a, "-")`
unfoldable pub trim_dashes : List ℕ → List ℕ
trim_dashes [] = []
trim_dashes (c ∷ cs) = let rest = trim_dashes cs in if c == b'-' then rest else c ∷ cs

-- The name, and the value behind `=` if there is one.
unfoldable pub split_flag : List ℕ → List ℕ × Option (List ℕ)
unfolding trim_dashes cut_at
split_flag a = cut_at b'=' (trim_dashes a)

unfoldable pub is_terminator : List ℕ → Bool
unfolding bytes_eq
is_terminator a = bytes_eq a (codes "--")

-- What an argument is to `stripGlobals`.
pub data Global : Type 0 where
  not_global : Global
  json_flag : Global
  socket_value : List ℕ → Global
  socket_next : Global

unfoldable named_global : List ℕ → Option (List ℕ) → Global
unfolding bytes_eq
named_global name val =
    if bytes_eq name (codes "json")
    then json_flag
    else if bytes_eq name (codes "socket")
    then elim val [ none ↦ socket_next | some v ↦ socket_value v ]
    else not_global

unfoldable pub global_of : List ℕ → Global
unfolding split_flag named_global
global_of a =
    let (name, val) = split_flag a in
    if ltb 2 (length a) && (get_or a 0 0 == b'-') then named_global name val else not_global

-- The arguments left, the JSON mode and the socket.
pub record Globals : Type 0 where
  pub rest : List (List ℕ)
  pub json : Bool
  pub sock : List ℕ

unfoldable pub keep_arg : List ℕ → Globals → Globals
keep_arg a g = record g { rest = a ∷ g.rest }

unfoldable pub strip_globals : List (List ℕ) → Bool → List ℕ → Globals
unfolding is_terminator global_of keep_arg
strip_globals [] json sock = record { rest = []; json = json; sock = sock }
strip_globals (a ∷ []) json sock =
    if is_terminator a then keep_arg a (strip_globals [] json sock) else elim (global_of a) [
      | not_global ↦ keep_arg a (strip_globals [] json sock)
      | json_flag ↦ strip_globals [] true sock
      | socket_value v ↦ strip_globals [] json v
      | socket_next ↦ strip_globals [] json sock
    ]
strip_globals (a ∷ b ∷ args) json sock =
    if is_terminator a
    then record { rest = a ∷ b ∷ args; json = json; sock = sock }
    else elim (global_of a) [
      | not_global ↦ keep_arg a (strip_globals (b ∷ args) json sock)
      | json_flag ↦ strip_globals (b ∷ args) true sock
      | socket_value v ↦ strip_globals (b ∷ args) json v
      | socket_next ↦ strip_globals args json b
    ]

-- The names of the flags that a subcommand accepts.
pub record FlagSpec : Type 0 where
  pub bools : List (List ℕ)
  pub vals : List (List ℕ)
  pub lists : List (List ℕ)

pub data FlagError : Type 0 where
  needs_value : List ℕ → FlagError
  unknown_flag : List ℕ → FlagError

-- The flags in their order, each with the value that it was given, and the positional arguments. A
-- flag with a single value has the last one, a list all of them.
pub data Parsed : Type 0 where
  bad_flag : FlagError → Parsed
  parsed : List (List ℕ × Option (List ℕ)) → List (List ℕ) → Parsed

unfoldable pub add_flag : List ℕ → Option (List ℕ) → Parsed → Parsed
add_flag name val (bad_flag e) = bad_flag e
add_flag name val (parsed flags pos) = parsed ((name, val) ∷ flags) pos

unfoldable pub add_pos : List ℕ → Parsed → Parsed
add_pos a (bad_flag e) = bad_flag e
add_pos a (parsed flags pos) = parsed flags (a ∷ pos)

pub data FlagKind : Type 0 where
  kind_unknown : FlagKind
  kind_bool : FlagKind
  kind_value : FlagKind

unfoldable pub flag_kind : FlagSpec → List ℕ → FlagKind
unfolding is_listed
flag_kind spec name =
    if is_listed name spec.bools
    then kind_bool
    else if is_listed name spec.vals || is_listed name spec.lists
    then kind_value
    else kind_unknown

-- What a token is, the value of a flag that awaits one being the next argument.
pub data Token : Type 0 where
  tok_pos : Token
  tok_unknown : List ℕ → Token
  tok_bool : List ℕ → Token
  tok_given : List ℕ → List ℕ → Token
  tok_next : List ℕ → Token

unfoldable pub flag_token : FlagKind → List ℕ → Option (List ℕ) → Token
flag_token kind_unknown name val = tok_unknown name
flag_token kind_bool name val = tok_bool name
flag_token kind_value name none = tok_next name
flag_token kind_value name (some v) = tok_given name v

unfoldable pub token : FlagSpec → List ℕ → Token
token spec a =
    let (name, val) = split_flag a in
    if ltb 1 (length a) && (get_or a 0 0 == b'-')
    then flag_token (flag_kind spec name) name val
    else tok_pos

unfoldable pub parse_flags : FlagSpec → List (List ℕ) → Parsed
unfolding is_terminator token add_flag add_pos
parse_flags spec [] = parsed [] []
parse_flags spec (a ∷ []) = if is_terminator a then parsed [] [] else elim (token spec a) [
  | tok_pos ↦ parsed [] (a ∷ [])
  | tok_unknown name ↦ bad_flag (unknown_flag name)
  | tok_bool name ↦ parsed ((name, none) ∷ []) []
  | tok_given name v ↦ parsed ((name, some v) ∷ []) []
  | tok_next name ↦ bad_flag (needs_value name)
]
parse_flags spec (a ∷ b ∷ args) =
    if is_terminator a then parsed [] (b ∷ args) else elim (token spec a) [
      | tok_pos ↦ add_pos a (parse_flags spec (b ∷ args))
      | tok_unknown name ↦ bad_flag (unknown_flag name)
      | tok_bool name ↦ add_flag name none (parse_flags spec (b ∷ args))
      | tok_given name v ↦ add_flag name (some v) (parse_flags spec (b ∷ args))
      | tok_next name ↦ add_flag name (some b) (parse_flags spec args)
    ]

-- The flags that `parseRun` takes out.
unfoldable run_flags : List (List ℕ)
run_flags = codes "timeout" ∷ codes "head" ∷ codes "tail" ∷ []

unfoldable run_token : List ℕ → Token
unfolding split_flag is_listed run_flags
run_token a =
    let (name, val) = split_flag a in
    if ltb 2 (length a) && ((get_or a 0 0 == b'-') && is_listed name run_flags)
    then elim val [ none ↦ tok_next name | some v ↦ tok_given name v ]
    else tok_pos

unfoldable parse_run : List (List ℕ) → Parsed
unfolding is_terminator run_token add_flag add_pos
parse_run [] = parsed [] []
parse_run (a ∷ []) = if is_terminator a then parsed [] [] else elim (run_token a) [
  | tok_given name v ↦ parsed ((name, some v) ∷ []) []
  | tok_next name ↦ bad_flag (needs_value name)
  | _ ↦ parsed [] (a ∷ [])
]
parse_run (a ∷ b ∷ args) = if is_terminator a then parsed [] (b ∷ args) else elim (run_token a) [
  | tok_given name v ↦ add_flag name (some v) (parse_run (b ∷ args))
  | tok_next name ↦ add_flag name (some b) (parse_run args)
  | _ ↦ add_pos a (parse_run (b ∷ args))
]
