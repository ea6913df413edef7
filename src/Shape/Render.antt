-- ===== src/Shape/Render.antt =====
-- The whole pipeline: Render and the trimming of blank lines.
pub mod Readable
use pairmux.Prelude.{ℕ, List, [], ◌∷◌}
use pairmux.Bytes.{split, join, trim_end}
use pairmux.Bytes.Numbers.{ℤ}
use pairmux.Bytes.Space.{is_blank}
use pairmux.Shape.Echo.{skip_blank, drop_echoed_command}
use pairmux.Shape.Escapes.{strip_ansi}
use pairmux.Shape.Overwrites.{collapse_cr}
use pairmux.Shape.Truncate.{truncate}

unfoldable pub trim_leading_blank_lines : List ℕ → List ℕ
unfolding split skip_blank join
trim_leading_blank_lines s = join 0x0A (skip_blank (split 0x0A s))

unfoldable pub trim_trailing_blank_lines : List ℕ → List ℕ
unfolding split trim_end is_blank join
trim_trailing_blank_lines s = join 0x0A (trim_end is_blank (split 0x0A s))

unfoldable pub render : List ℕ → List ℕ → ℤ → ℤ → List ℕ × ℕ
unfolding collapse_cr strip_ansi trim_trailing_blank_lines drop_echoed_command
    trim_leading_blank_lines truncate
render raw cmd head tail =
    let text = trim_trailing_blank_lines (strip_ansi (collapse_cr raw)) in
    truncate (trim_leading_blank_lines (drop_echoed_command text cmd)) head tail
