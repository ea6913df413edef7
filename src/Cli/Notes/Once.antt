-- ===== src/Cli/Notes/Once.antt =====
-- The two definitions of an unseen note agree.
use pairmux.Prelude.{
  ℕ, ◌≡◌, refl, ap, ◌∙◌, List, [], ◌∷◌, Option, none, some, Bool, true, false, ◌&&◌, ◌||◌, ltb,
  ◌==◌, if◌then◌else◌,
}
use pairmux.Core.{Event}
use pairmux.Cli.Notes.{acted_behind, last_acted_on, notes_behind, unseen_notes}
use pairmux.Cli.Wait.{is_note, is_answer, last_answer, last_note, latest_unseen_note}

-- The last text, or else `found`.
abbrev pub last_of : Option (List ℕ) → List (List ℕ) → Option (List ℕ)
last_of found [] = found
last_of found (n ∷ ns) = last_of (some n) ns

acted_behind-eq-last_answer :
    (acted : ℕ) (evs : List Event) → last_answer acted evs ≡ acted_behind acted evs
unfolding acted_behind last_answer
acted_behind-eq-last_answer acted [] = refl
acted_behind-eq-last_answer acted (ev ∷ evs) =
    acted_behind-eq-last_answer
      (if is_answer ev.event_type && ltb acted ev.ts then ev.ts else acted) evs

last_note-eq-last_of :
    (acted : ℕ) (found : Option (List ℕ)) (evs : List Event)
    → last_note acted found evs ≡ last_of found (notes_behind acted evs)
unfolding last_note notes_behind
last_note-eq-last_of acted found [] = refl
last_note-eq-last_of acted found (ev ∷ evs) =
    either (is_note ev.event_type && ((acted == 0) || ltb acted ev.ts))
      (last_note-eq-last_of acted (some ev.body) evs) (last_note-eq-last_of acted found evs)
  where
    either :
        (b : Bool)
        → last_note acted (some ev.body) evs ≡ last_of (some ev.body) (notes_behind acted evs)
        → last_note acted found evs ≡ last_of found (notes_behind acted evs)
        → last_note acted (if b then some ev.body else found) evs
          ≡ last_of found (if b then ev.body ∷ notes_behind acted evs else notes_behind acted evs)
    either true h k = h
    either false h k = k

-- For any log, the latest unseen note of the wait command is the last of the unseen notes of the
-- run command, and none if there are none.
pub latest_unseen_note-eq-last_of :
    (evs : List Event) → latest_unseen_note evs ≡ last_of none (unseen_notes evs)
unfolding latest_unseen_note unseen_notes last_acted_on
latest_unseen_note-eq-last_of evs =
    ap (λ acted. last_note acted none evs) (acted_behind-eq-last_answer 0 evs)
    ∙ last_note-eq-last_of (acted_behind 0 evs) none evs
