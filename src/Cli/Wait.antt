-- ===== src/Cli/Wait.antt =====
-- What the wait command computes without input or output, internal/cli/wait.go.
pub mod Notes
use pairmux.Prelude.{
  ℕ, zero, suc, ◌+◌, ◌*◌, ◌-◌, List, [], ◌∷◌, ◌++◌, Option, none, some, Bool, true, false, not,
  ◌&&◌, ◌||◌, ltb, ◌==◌, if◌then◌else◌, length, take, drop, min,
}
use pairmux.Bytes.{codes, bytes_eq, is_empty, split, join}
use pairmux.Bytes.Space.{trim_space}
use pairmux.Core.{
  Event, EventType, created, cmd_start, cmd_end, note, sent, Status, idle, running, dead, unknown,
  awaiting_input,
}
use pairmux.Shape.Escapes.{strip_ansi}
use pairmux.Shape.Overwrites.{collapse_cr}

unfoldable pub is_note : EventType → Bool
is_note created = false
is_note cmd_start = false
is_note cmd_end = false
is_note note = true
is_note sent = false

-- What answers the notes before it.
unfoldable pub is_answer : EventType → Bool
is_answer created = false
is_answer cmd_start = false
is_answer cmd_end = true
is_answer note = false
is_answer sent = true

-- The time of the last answer behind `acted`, 0 being the zero time.
unfoldable pub last_answer : ℕ → List Event → ℕ
unfolding is_answer
last_answer acted [] = acted
last_answer acted (ev ∷ evs) =
    last_answer (if is_answer ev.event_type && ltb acted ev.ts then ev.ts else acted) evs

-- The text of the last note behind `acted`, or else `found`.
unfoldable pub last_note : ℕ → Option (List ℕ) → List Event → Option (List ℕ)
unfolding is_note
last_note acted found [] = found
last_note acted found (ev ∷ evs) =
    last_note acted
      (if is_note ev.event_type && ((acted == 0) || ltb acted ev.ts) then some ev.body else found)
      evs

unfoldable pub latest_unseen_note : List Event → Option (List ℕ)
unfolding last_answer last_note
latest_unseen_note evs = last_note (last_answer 0 evs) none evs

unfoldable first_note : List Event → Option (List ℕ)
unfolding is_note
first_note [] = none
first_note (ev ∷ evs) =
    let rest = first_note evs in if is_note ev.event_type then some ev.body else rest

-- `newNote`; a negative baseline is 0.
unfoldable pub new_note : List Event → ℕ → Option (List ℕ)
unfolding first_note
new_note evs base = first_note (drop (min base (length evs)) evs)

unfoldable is_seen : List ℕ → List (List ℕ) → Bool
unfolding bytes_eq
is_seen n [] = false
is_seen n (m ∷ ms) = bytes_eq n m || is_seen n ms

-- The loop over the parts of one argument; the names found are the ones seen.
unfoldable add_names : List (List ℕ) → List (List ℕ) → List (List ℕ)
unfolding is_empty trim_space is_seen
add_names names [] = names
add_names names (part ∷ parts) =
    let n = trim_space part in
    add_names (if is_empty n || is_seen n names then names else names ++ (n ∷ [])) parts

unfoldable add_args : List (List ℕ) → List (List ℕ) → List (List ℕ)
unfolding add_names split
add_args names [] = names
add_args names (arg ∷ args) = add_args (add_names names (split b',' arg)) args

-- `waitNames`, none being the error.
unfoldable wait_names : List (List ℕ) → Option (List (List ℕ))
unfolding add_args is_empty
wait_names pos = let names = add_args [] pos in if is_empty names then none else some names

-- Nanoseconds
abbrev handoff_retry_floor : ℕ
handoff_retry_floor = 300 * 1000000000

unfoldable retry_timeout : ℕ → Bool → ℕ
retry_timeout timeout human =
    let next = 2 * timeout in
    if human && ltb next handoff_retry_floor then handoff_retry_floor else next

-- The lines up to the first that matches, from `i - 2` on; `before` are the lines passed.
unfoldable match_lines : (List ℕ → Bool) → List (List ℕ) → List (List ℕ) → Option (List ℕ)
unfolding join
match_lines re before [] = none
match_lines re before (line ∷ lines) =
    let passed = before ++ (line ∷ []) in
    let rest = match_lines re passed lines in
    if re line then some (join 0x0A (drop (length before - 2) passed)) else rest

-- `matchShapedPattern`; `re` is what the regular expression matches.
unfoldable pub match_shaped_pattern : (List ℕ → Bool) → List ℕ → Option (List ℕ)
unfolding match_lines strip_ansi collapse_cr split
match_shaped_pattern re raw = match_lines re [] (split 0x0A (strip_ansi (collapse_cr raw)))

-- `terminalStatusAfterQuiet`, of the status that Classify finds; the flag says that the wait is over.
unfoldable pub terminal_status_after_quiet : Bool → Status → Status × Bool
terminal_status_after_quiet false status = (unknown, false)
terminal_status_after_quiet true idle = (idle, true)
terminal_status_after_quiet true awaiting_input = (awaiting_input, true)
terminal_status_after_quiet true dead = (dead, true)
terminal_status_after_quiet true running = (running, false)
terminal_status_after_quiet true unknown = (unknown, false)
