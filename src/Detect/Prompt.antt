-- ===== src/Detect/Prompt.antt =====
-- Whether a quiet terminal waits for input: the decision of Classify and what it looks at, from
-- internal/detect/await.go and internal/detect/tty.go. The patterns of the wording are a
-- parameter, as are the terminal's discipline and its processes.
pub mod Evidence
use pairmux.Prelude.{
  ℕ, zero, suc, ◌+◌, ◌-◌, ◌*◌, List, [], ◌∷◌, Option, none, some, Bool, true, false, not, ◌&&◌,
  ◌||◌, ltb, leb, ◌==◌, if◌then◌else◌, length, get_or,
}
use pairmux.Bytes.{split, is_empty, bytes_eq, codes}
use pairmux.Bytes.Numbers.{pos}
use pairmux.Bytes.Space.{trim_space}
use pairmux.Core.{Status, running, awaiting_input}
use pairmux.Journal.Raw.{RawLog, tail_bytes}
use pairmux.Shape.Escapes.{strip_ansi}
use pairmux.Shape.Overwrites.{collapse_cr}

-- Durations are milliseconds.
abbrev pub refine_quiet : ℕ
refine_quiet = 800

abbrev refine_tail : ℕ
refine_tail = 4096

abbrev pub raw_quiet : ℕ
raw_quiet = 2000

abbrev pub infer_quiet : ℕ
infer_quiet = 10000

pub data PromptKind : Type 0 where
  kind_none : PromptKind
  kind_secret : PromptKind
  kind_open : PromptKind
  kind_inferred : PromptKind

pub record Prompt : Type 0 where
  pub kind : PromptKind
  pub line : List ℕ
  pub raw : Bool

-- The prompt of a terminal that waits for nothing.
abbrev pub no_prompt : Prompt
no_prompt = record { kind = kind_none; line = []; raw = false }

unfoldable pub waiting : Prompt → Bool
waiting p = elim p.kind [ kind_none ↦ false | _ ↦ true ]

-- The line discipline of a terminal.
pub record TtyState : Type 0 where
  pub echo : Bool
  pub canonical : Bool
  pub known : Bool

unfoldable pub is_secret : TtyState → Bool
is_secret s = s.known && (s.canonical && not s.echo)

unfoldable pub line_oriented : TtyState → Bool
line_oriented s = s.known && s.canonical

unfoldable pub raw_input : TtyState → Bool
raw_input s = s.known && not s.canonical

-- What the processes of a terminal do.
pub data FgWait : Type 0 where
  fg_unknown : FgWait
  fg_working : FgWait
  fg_parked : FgWait

unfoldable pub is_parked : FgWait → Bool
is_parked w = elim w [ fg_parked ↦ true | _ ↦ false ]

unfoldable pub is_working : FgWait → Bool
is_working w = elim w [ fg_working ↦ true | _ ↦ false ]

-- What the patterns say of a line: the builtin patterns of a secret, the user's own, and the
-- confirmations, pagers and key presses together.
pub record Wording : Type 0 where
  pub secret_prompt : List ℕ → Bool
  pub extra_secret : Option (List ℕ → Bool)
  pub other_prompt : List ℕ → Bool

-- Whether the user's pattern, if there is one, matches.
unfoldable matches_extra : Option (List ℕ → Bool) → List ℕ → Bool
matches_extra none line = false
matches_extra (some re) line = re line

unfoldable is_interactive_prompt : Wording → List ℕ → Bool
unfolding matches_extra bytes_eq trim_space
is_interactive_prompt words line =
    bytes_eq (trim_space line) (codes ">>>")
    || (words.secret_prompt line
        || (words.other_prompt line || matches_extra words.extra_secret line))

unfoldable pub looks_secret : Wording → List ℕ → Bool
unfolding matches_extra trim_space
looks_secret words prompt =
    words.secret_prompt (trim_space prompt) || matches_extra words.extra_secret (trim_space prompt)

-- `classify`; `fg` is what the processes are found to do.
unfoldable pub classify : Wording → TtyState → List ℕ → Bool → ℕ → Bool → FgWait → Prompt
unfolding is_secret raw_input line_oriented is_parked is_working looks_secret
classify words disc line recognized quiet unterminated fg =
    if is_secret disc
    then record { kind = kind_secret; line = line; raw = false }
    else if recognized
    then record {
      kind = if looks_secret words line then kind_secret else kind_open;
      line = line;
      raw = false;
    }
    else if raw_input disc && (leb raw_quiet quiet && is_parked fg)
    then record { kind = kind_inferred; line = line; raw = true }
    else if line_oriented disc && (leb infer_quiet quiet && (unterminated && not (is_working fg)))
    then record { kind = kind_inferred; line = line; raw = false }
    else no_prompt

-- The tail of the log as text.
unfoldable shaped_tail : Option (List ℕ × ℕ) → List ℕ
unfolding collapse_cr strip_ansi
shaped_tail none = []
shaped_tail (some (b, off)) = strip_ansi (collapse_cr b)

-- `unterminatedTail`
unfoldable unterminated_tail : RawLog → Bool
unfolding tail_bytes shaped_tail is_empty
unterminated_tail log =
    let shaped = shaped_tail (tail_bytes log (pos refine_tail)) in
    let last = get_or shaped (length shaped - 1) 0 in
    not (is_empty shaped) && not (last == 0x0A || last == 0x0D)

-- The last line with something on it, trimmed.
unfoldable last_shown : List (List ℕ) → List ℕ
unfolding trim_space is_empty
last_shown [] = []
last_shown (l ∷ ls) = let later = last_shown ls in if is_empty later then trim_space l else later

unfoldable last_non_blank_line : List ℕ → List ℕ
unfolding last_shown split
last_non_blank_line s = last_shown (split 0x0A s)

unfoldable pub prompt_pending : Wording → RawLog → List ℕ × Bool
unfolding shaped_tail tail_bytes last_non_blank_line is_empty is_interactive_prompt
prompt_pending words log =
    let line = last_non_blank_line (shaped_tail (tail_bytes log (pos refine_tail))) in
    if is_empty line then ([], false) else (line, is_interactive_prompt words line)

-- `classifyAfter` of a terminal that is running: `quiet` is how long ago the log was written,
-- none when there is no log.
unfoldable classify_running : Wording → RawLog → TtyState → FgWait → Option ℕ → ℕ → Status × Prompt
unfolding prompt_pending classify unterminated_tail waiting
classify_running words log disc fg none settle = (running, no_prompt)
classify_running words log disc fg (some quiet) settle =
    let (line, recognized) = prompt_pending words log in
    let p = classify words disc line recognized quiet (unterminated_tail log) fg in
    if (ltb 0 settle && ltb quiet settle) || not (waiting p)
    then (running, no_prompt)
    else (awaiting_input, p)

unfoldable pub classify_after :
    Wording → RawLog → TtyState → FgWait → Option ℕ → ℕ → Status → Status × Prompt
unfolding classify_running
classify_after words log disc fg quiet settle st = elim st [
  | running ↦ classify_running words log disc fg quiet settle
  | other ↦ (other, no_prompt)
]
