-- ===== src/Shape/Render/Readable.antt =====
-- What the whole pipeline leaves.
use pairmux.Prelude.{
  ℕ, zero, suc, ◌+◌, ◌-◌, refl, List, [], ◌∷◌, ◌++◌, leb, length, take, drop, if_intro,
}
use pairmux.Prelude.All.{All, All-append, All-take, All-drop}
use pairmux.Bytes.{split, join, trim_end, is_empty, has_suffix}
use pairmux.Bytes.Every.{All-split, All-join, All-trim_end}
use pairmux.Bytes.Numbers.{ℤ}
use pairmux.Bytes.Space.{is_blank, trim_padding}
use pairmux.Shape.Echo.{
  skip_blank, drop_wrapped, drop_echo, drop_echoed_command, wrap_join_ends_with,
}
use pairmux.Shape.Escapes.{strip_ansi}
use pairmux.Shape.Escapes.Removed.{IsText, strip_ansi-IsText}
use pairmux.Shape.Overwrites.{collapse_cr}
use pairmux.Shape.Render.{trim_leading_blank_lines, trim_trailing_blank_lines, render}
use pairmux.Shape.Truncate.{truncate, clamped, trunc_marker}

abbrev Lines : List (List ℕ) → Type 0
Lines = All (All IsText)

split-Lines : (b : List ℕ) → All IsText b → Lines (split 0x0A b)
split-Lines b h = All-split IsText 0x0A b h

joined : (ls : List (List ℕ)) → Lines ls → All IsText (join 0x0A ls)
joined ls h = All-join IsText 0x0A ls refl h

skip_blank-Lines : (ls : List (List ℕ)) → Lines ls → Lines (skip_blank ls)
unfolding skip_blank
skip_blank-Lines [] h = tt
skip_blank-Lines (l ∷ ls) h =
    if_intro Lines (is_blank l) _ _ (λ _. skip_blank-Lines ls h.1) (λ _. h)

drop_wrapped-IsText :
    (rounds : ℕ) (seg rest : List (List ℕ)) (cmd text : List ℕ)
    → Lines rest
    → All IsText text
    → All IsText (drop_wrapped rounds seg rest cmd text)
unfolding drop_wrapped
drop_wrapped-IsText zero seg rest cmd text h t = t
drop_wrapped-IsText (suc rounds) seg [] cmd text h t = t
drop_wrapped-IsText (suc rounds) seg (l ∷ ls) cmd text h t =
    let next = drop_wrapped-IsText rounds (seg ++ (l ∷ [])) ls cmd text h.1 t in
    if_intro (All IsText) (is_blank l) _ _ (λ _. t)
      (λ _.
        if_intro (All IsText) (leb (length cmd) (length (trim_padding l))) _ _ (λ _. next)
          (λ _.
            if_intro (All IsText) (wrap_join_ends_with (seg ++ (l ∷ [])) cmd) _ _
              (λ _. joined ls h.1) (λ _. next)))

drop_echo-IsText :
    (ls : List (List ℕ)) (cmd text : List ℕ)
    → Lines ls
    → All IsText text
    → All IsText (drop_echo ls cmd text)
unfolding drop_echo
drop_echo-IsText [] cmd text h t = t
drop_echo-IsText (l ∷ ls) cmd text h t =
    if_intro (All IsText) (has_suffix (trim_padding l) cmd) _ _ (λ _. joined ls h.1)
      (λ _. drop_wrapped-IsText 5 (l ∷ []) ls cmd text h.1 t)

drop_echoed_command-IsText :
    (text cmd : List ℕ) → All IsText text → All IsText (drop_echoed_command text cmd)
unfolding drop_echoed_command
drop_echoed_command-IsText text cmd h =
    if_intro (All IsText) (is_empty cmd) _ _ (λ _. h)
      (λ _.
        drop_echo-IsText (skip_blank (split 0x0A text)) cmd text
          (skip_blank-Lines (split 0x0A text) (split-Lines text h)) h)

truncate-IsText :
    (text : List ℕ) (head tail : ℤ) → All IsText text → All IsText (truncate text head tail).0
unfolding truncate
truncate-IsText text head tail h =
    let lines = split 0x0A text in
    let n = length lines in
    let kept = take (clamped head) lines ++ (trunc_marker ∷ drop (n - clamped tail) lines) in
    if_intro (λ (r : List ℕ × ℕ). All IsText r.0) (leb n (clamped head + clamped tail)) _ _ (λ _. h)
      (λ _. joined kept (
        All-append (All IsText) (take (clamped head) lines) _
          (All-take (All IsText) (clamped head) lines (split-Lines text h))
          (
            (refl, (refl, (refl, tt))),
            All-drop (All IsText) (n - clamped tail) lines (split-Lines text h),
          )))

trim_leading-IsText : (b : List ℕ) → All IsText b → All IsText (trim_leading_blank_lines b)
unfolding trim_leading_blank_lines
trim_leading-IsText b h =
    joined (skip_blank (split 0x0A b)) (skip_blank-Lines (split 0x0A b) (split-Lines b h))

trim_trailing-IsText : (b : List ℕ) → All IsText b → All IsText (trim_trailing_blank_lines b)
unfolding trim_trailing_blank_lines
trim_trailing-IsText b h =
    joined (trim_end is_blank (split 0x0A b))
      (All-trim_end (All IsText) is_blank (split 0x0A b) (split-Lines b h))

-- Whatever the bytes, the command and the counts, the rendered text holds line feeds, tabs and
-- bytes from 0x20 on only.
pub render-IsText : (raw cmd : List ℕ) (head tail : ℤ) → All IsText (render raw cmd head tail).0
unfolding render
render-IsText raw cmd head tail =
    let clean : List ℕ = strip_ansi (collapse_cr raw) in
    let text : List ℕ = trim_trailing_blank_lines clean in
    let rest : List ℕ = drop_echoed_command text cmd in
    truncate-IsText (trim_leading_blank_lines rest) head tail (
      trim_leading-IsText rest (
        drop_echoed_command-IsText text cmd
          (trim_trailing-IsText clean (strip_ansi-IsText (collapse_cr raw)))))
