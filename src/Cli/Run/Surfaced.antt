-- ===== src/Cli/Run/Surfaced.antt =====
-- The notes that a run surfaces.
use pairmux.Prelude.{ℕ, ◌≡◌, List, ◌++◌, false}
use pairmux.Prelude.All.{All}
use pairmux.Core.{Event}
use pairmux.Cli.Notes.{unseen_notes, note_texts}
use pairmux.Cli.Run.{
  Reply, endless, busy, internal, not_sent, still_running, awaiting, done, World, Request,
}
use pairmux.Cli.Wait.{is_note}
use pairmux.Detect.Wait.{Wait}

-- The notes of a reply that has output.
abbrev pub Surfaces : List (List ℕ) → Reply → Type 0
Surfaces notes endless = Unit {0}
Surfaces notes busy = Unit {0}
Surfaces notes internal = Unit {0}
Surfaces notes (not_sent stage) = Unit {0}
Surfaces notes (still_running out) = out.notes ≡ notes
Surfaces notes (awaiting prompt out) = out.notes ≡ notes
Surfaces notes (done code out) = out.notes ≡ notes

-- An event that is no note.
abbrev NoNote : Event → Type 0
NoNote ev = is_note ev.event_type ≡ false

module _ (w : World) (q : Request) (start : List Event) where
  abbrev wanted : List (List ℕ)
  wanted = unseen_notes start ++ note_texts w.arrived
