-- ===== src/Cli/Wait/Notes.antt =====
-- Which notes are unseen.
use pairmux.Prelude.{
  ℕ, ◌≤◌, ◌<◌, ◌≡◌, refl, List, [], ◌∷◌, ◌++◌, Option, none, some, Bool, true, false, ◌&&◌, ◌||◌,
  ltb, ◌==◌, if◌then◌else◌, arith, if_intro,
}
use pairmux.Prelude.All.{All, All-append}
use pairmux.Core.{Event, EventType, created, cmd_start, cmd_end, note, sent}
use pairmux.Cli.Wait.{is_note, is_answer, last_answer, last_note, latest_unseen_note}

-- The time of the last answer only grows.
last_answer_lem : (acted : ℕ) (evs : List Event) → acted ≤ last_answer acted evs
unfolding last_answer
last_answer_lem acted [] = omega arith
last_answer_lem acted (ev ∷ evs) =
    let next : ℕ = if is_answer ev.event_type && ltb acted ev.ts then ev.ts else acted in
    let grown : acted ≤ next = ground arith in
    let kept : next ≤ last_answer next evs = last_answer_lem next evs in omega arith

-- An answer at the end is not behind the last answer.
last_answer-append :
    (acted : ℕ) (evs : List Event) (e : Event)
    → is_answer e.event_type ≡ true
    → e.ts ≤ last_answer acted (evs ++ (e ∷ []))
unfolding last_answer
last_answer-append acted [] e h = ground arith
last_answer-append acted (ev ∷ evs) e h =
    last_answer-append (if is_answer ev.event_type && ltb acted ev.ts then ev.ts else acted) evs e h

-- Notes that are not behind the answer are not found.
last_note-none :
    (acted : ℕ) (evs : List Event)
    → 0 < acted
    → All (λ (ev : Event). is_note ev.event_type ≡ true → ev.ts ≤ acted) evs
    → last_note acted none evs ≡ none
unfolding last_note
last_note-none acted [] p h = refl
last_note-none acted (ev ∷ evs) p h =
    if_intro (λ found. last_note acted found evs ≡ none)
      (is_note ev.event_type && ((acted == 0) || ltb acted ev.ts)) _ _
      (λ e. absurd (ground (arith, h.0))) (λ _. last_note-none acted evs p h.1)

-- An answer is no note.
answer_no_note : (t : EventType) → is_answer t ≡ true → is_note t ≡ false
unfolding is_answer is_note
answer_no_note created h = refl
answer_no_note cmd_start h = refl
answer_no_note cmd_end h = refl
answer_no_note note h = absurd (ground arith)
answer_no_note sent h = refl

-- What an answer at `time` leaves to be found: no note is later.
abbrev IsAnsweredAt : ℕ → Event → Type 0
IsAnsweredAt time ev = is_note ev.event_type ≡ true → ev.ts ≤ time

All-later :
    (a b : ℕ) (evs : List Event) → a ≤ b → All (IsAnsweredAt a) evs → All (IsAnsweredAt b) evs
All-later a b [] le h = tt
All-later a b (ev ∷ evs) le h =
    ((λ n. let early : ev.ts ≤ a = h.0 n in omega arith), All-later a b evs le h.1)

-- If a log ends with the end of a command or with a send, later than the zero time, and no note of
-- the log is later than it, then no note is unseen.
latest_unseen_note-answered :
    (evs : List Event) (e : Event)
    → is_answer e.event_type ≡ true
    → 0 < e.ts
    → All (IsAnsweredAt e.ts) evs
    → latest_unseen_note (evs ++ (e ∷ [])) ≡ none
unfolding latest_unseen_note
latest_unseen_note-answered evs e h p early =
    let acted : ℕ = last_answer 0 (evs ++ (e ∷ [])) in
    let reached : e.ts ≤ acted = last_answer-append 0 evs e h in
    let no_note : is_note e.event_type ≡ false = answer_no_note e.event_type h in
    last_note-none acted (evs ++ (e ∷ [])) (omega arith) (
      All-append (IsAnsweredAt acted) evs (e ∷ []) (All-later e.ts acted evs reached early)
        ((λ n. absurd (ground arith)), tt))

-- Whether a note at `time` is behind the answer.
abbrev is_behind : ℕ → ℕ → Bool
is_behind time acted = (acted == 0) || ltb acted time

abbrev IsBefore : ℕ → Event → Type 0
IsBefore time ev = is_answer ev.event_type ≡ true → ev.ts < time

last_answer_before :
    (time acted : ℕ) (evs : List Event)
    → All (IsBefore time) evs
    → is_behind time acted ≡ true
    → is_behind time (last_answer acted evs) ≡ true
unfolding last_answer
last_answer_before time acted [] h b = b
last_answer_before time acted (ev ∷ evs) h b =
    last_answer_before time (if is_answer ev.event_type && ltb acted ev.ts then ev.ts else acted)
      evs h.1 (ground (arith, h.0))

last_note-append :
    (acted : ℕ) (found : Option (List ℕ)) (evs : List Event) (n : Event)
    → is_note n.event_type ≡ true
    → is_behind n.ts acted ≡ true
    → last_note acted found (evs ++ (n ∷ [])) ≡ some n.body
unfolding last_note
last_note-append acted found [] n h b = ground arith
last_note-append acted found (ev ∷ evs) n h b =
    last_note-append acted
      (if is_note ev.event_type && ((acted == 0) || ltb acted ev.ts) then some ev.body else found)
      evs n h b

-- If a log ends with a note, later than every end of a command and every send of the log, then the
-- text of that note is the latest unseen one.
latest_unseen_note-append :
    (evs : List Event) (n : Event)
    → is_note n.event_type ≡ true
    → All (IsBefore n.ts) evs
    → latest_unseen_note (evs ++ (n ∷ [])) ≡ some n.body
unfolding latest_unseen_note
latest_unseen_note-append evs n h early =
    last_note-append (last_answer 0 (evs ++ (n ∷ []))) none evs n h (
      last_answer_before n.ts 0 (evs ++ (n ∷ []))
        (All-append (IsBefore n.ts) evs (n ∷ []) early
          ((λ a. absurd (ground (arith, answer_no_note n.event_type a))), tt))
        refl)
