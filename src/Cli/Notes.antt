-- ===== src/Cli/Notes.antt =====
-- The notes that people leave for the agent, in internal/cli/commands.go: lastActedOn, unseenNotes,
-- notesBaseline and notesArrivedSince. The events are those that Events returns, or none.
pub mod Once
use pairmux.Prelude.{
  ℕ, List, [], ◌∷◌, ◌++◌, Option, none, some, Bool, ◌&&◌, ◌||◌, ltb, ◌==◌, if◌then◌else◌, length,
  drop,
}
use pairmux.Bytes.Numbers.{ℤ, pos, negsuc}
use pairmux.Core.{Event}
use pairmux.Cli.Wait.{is_note, is_answer}

-- The loop of `lastActedOn`; the zero time is 0.
unfoldable pub acted_behind : ℕ → List Event → ℕ
unfolding is_answer
acted_behind last [] = last
acted_behind last (ev ∷ evs) =
    acted_behind (if is_answer ev.event_type && ltb last ev.ts then ev.ts else last) evs

unfoldable pub last_acted_on : List Event → ℕ
unfolding acted_behind
last_acted_on evs = acted_behind 0 evs

-- The texts of the notes behind `acted`.
unfoldable pub notes_behind : ℕ → List Event → List (List ℕ)
unfolding is_note
notes_behind acted [] = []
notes_behind acted (ev ∷ evs) =
    let rest = notes_behind acted evs in
    if is_note ev.event_type && ((acted == 0) || ltb acted ev.ts) then ev.body ∷ rest else rest

unfoldable pub unseen_notes : List Event → List (List ℕ)
unfolding last_acted_on notes_behind
unseen_notes evs = notes_behind (last_acted_on evs) evs

unfoldable read_unseen_notes : Option (List Event) → List (List ℕ)
unfolding unseen_notes
read_unseen_notes none = []
read_unseen_notes (some evs) = unseen_notes evs

unfoldable pub notes_baseline : Option (List Event) → ℕ × List (List ℕ)
unfolding unseen_notes
notes_baseline none = (0, [])
notes_baseline (some evs) = (length evs, unseen_notes evs)

unfoldable pub note_texts : List Event → List (List ℕ)
unfolding is_note
note_texts [] = []
note_texts (ev ∷ evs) =
    let rest = note_texts evs in if is_note ev.event_type then ev.body ∷ rest else rest

unfoldable pub notes_arrived_since : Option (List Event) → ℕ → List (List ℕ)
unfolding note_texts
notes_arrived_since none baseline = []
notes_arrived_since (some evs) baseline = note_texts (drop baseline evs)
