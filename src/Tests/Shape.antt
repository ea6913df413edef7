-- ===== src/Tests/Shape.antt =====
-- Runs of the shaping of text: the properties at concrete inputs.
use pairmux.Prelude.{ℕ, ◌+◌, ◌<◌, ◌≡◌, refl, List, [], ◌∷◌, ◌++◌, arith, length}
use pairmux.Prelude.All.{All}
use pairmux.Bytes.{codes, split, is_empty, trim_end, all_bytes, onto_first}
use pairmux.Bytes.Numbers.{pos}
use pairmux.Bytes.Space.{
  is_blank, trim_padding, trim_space, trim_left, trim_right, space_width, end_space,
}
use pairmux.Core.{sentinel_boundary}
use pairmux.Shape.Echo.{drop_echoed_command}
use pairmux.Shape.Echo.Dropped.{IsRest, drop_echoed_command-IsRest}
use pairmux.Shape.Echo.Found.{drop_echoed_command-append}
use pairmux.Shape.Escapes.{strip_ansi}
use pairmux.Shape.Escapes.Hidden.{strip_ansi-mark}
use pairmux.Shape.Escapes.Removed.{IsText}
use pairmux.Shape.Overwrites.Shown.{Rewritten}
use pairmux.Shape.Render.{render}
use pairmux.Shape.Render.Readable.{render-IsText}
use pairmux.Shape.Truncate.{truncate, clamped}
use pairmux.Shape.Truncate.Kept.{IsTruncated, truncate-IsTruncated}

-- A prompt with its echo, a progress bar, colors and a sequence that is not ended.
abbrev raw : List ℕ
raw =
    codes "$ make"
    ++ (0x0D ∷ 0x0A ∷ codes "10%")
    ++ (0x0D ∷ codes "100%")
    ++ (0x0A ∷ 0x1B ∷ codes "[1mdone")
    ++ (0x1B ∷ codes "]0;title")

render-IsText_example : All IsText (render raw (codes "make") (pos 2) (pos 1)).0
render-IsText_example = render-IsText raw (codes "make") (pos 2) (pos 1)

abbrev five_lines : List ℕ
five_lines = b'a' ∷ 0x0A ∷ b'b' ∷ 0x0A ∷ b'c' ∷ 0x0A ∷ b'd' ∷ 0x0A ∷ b'e' ∷ []

five : clamped (pos 2) + clamped (pos 1) < length (split 0x0A five_lines)
unfolding clamped split onto_first
five = omega arith

truncate-IsTruncated_example :
    IsTruncated five_lines (clamped (pos 2)) (clamped (pos 1)) (truncate five_lines (pos 2) (pos 1))
truncate-IsTruncated_example = truncate-IsTruncated five_lines (pos 2) (pos 1) five

drop_echoed_command-IsRest_example :
    IsRest (split 0x0A five_lines) (drop_echoed_command five_lines (codes "a"))
drop_echoed_command-IsRest_example = drop_echoed_command-IsRest five_lines (codes "a")

drop_echoed_command-append_example :
    drop_echoed_command ((codes "$ " ++ codes "ls") ++ (0x0A ∷ codes "file")) (codes "ls")
    ≡ codes "file"
unfolding all_bytes is_blank trim_space trim_left trim_right space_width end_space is_empty
    trim_padding trim_end
drop_echoed_command-append_example =
    drop_echoed_command-append (codes "$ ") (codes "ls") (codes "file") refl refl refl refl

strip_ansi-mark_example :
    (strip_ansi (codes "ok" ++ (0x1B ∷ b']' ∷ (codes "7779;p;0" ++ (0x07 ∷ codes "$ "))))
      ≡ codes "ok" ++ strip_ansi (codes "$ "))
    × ((strip_ansi (codes "ok" ++ (0x1B ∷ b']' ∷ (codes "7779;p;0" ++ (0x1B ∷ 0x5C ∷ codes "$ "))))
          ≡ codes "ok" ++ strip_ansi (codes "$ "))
        × (strip_ansi (codes "ok" ++ (sentinel_boundary ++ codes "$ "))
            ≡ codes "ok" ++ strip_ansi (codes "$ ")))
unfolding all_bytes
strip_ansi-mark_example =
    strip_ansi-mark (codes "ok") (codes "7779;p;0") (codes "$ ") refl refl (omega arith)

-- A progress bar that is overwritten, twice.
abbrev first_bar : Rewritten
first_bar = record { over = codes "10"; shown = codes "100" }

abbrev second_bar : Rewritten
second_bar = record { over = codes "5"; shown = codes "7" }
