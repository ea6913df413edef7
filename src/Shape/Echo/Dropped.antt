-- ===== src/Shape/Echo/Dropped.antt =====
-- What DropEchoedCommand removes, and what it never touches.
use pairmux.Prelude.{
  ℕ, zero, suc, ◌≡◌, refl, sym, ap, List, [], ◌∷◌, ◌++◌, leb, length, drop, if_intro,
}
use pairmux.Bytes.{is_empty, has_suffix, split, join}
use pairmux.Bytes.Lines.{join-split}
use pairmux.Bytes.Space.{is_blank, trim_padding}
use pairmux.Shape.Echo.{
  skip_blank, wrap_join_ends_with, drop_wrapped, drop_echo, drop_echoed_command,
}

-- The last lines of a text.
abbrev IsTail : List (List ℕ) → List (List ℕ) → Type 0
IsTail lines rest = (k : ℕ) × (rest ≡ drop k lines)

-- A text that consists of the last lines of another.
abbrev pub IsRest : List (List ℕ) → List ℕ → Type 0
IsRest lines text = (k : ℕ) × (text ≡ join 0x0A (drop k lines))

drop-suc :
    (k : ℕ) (lines : List (List ℕ)) (l : List ℕ) (ls : List (List ℕ))
    → l ∷ ls ≡ drop k lines
    → ls ≡ drop (suc k) lines
drop-suc zero [] l ls e = cc
drop-suc zero (x ∷ xs) l ls e = cc
drop-suc (suc k) [] l ls e = cc
drop-suc (suc k) (x ∷ xs) l ls e = drop-suc k xs l ls e

IsTail-next :
    (lines : List (List ℕ)) (l : List ℕ) (ls : List (List ℕ))
    → IsTail lines (l ∷ ls)
    → IsTail lines ls
IsTail-next lines l ls (k, e) = (suc k, drop-suc k lines l ls e)

IsTail-join : (lines ls : List (List ℕ)) → IsTail lines ls → IsRest lines (join 0x0A ls)
IsTail-join lines ls (k, e) = (k, ap (join 0x0A) e)

skip_blank-IsTail : (lines ls : List (List ℕ)) → IsTail lines ls → IsTail lines (skip_blank ls)
unfolding skip_blank
skip_blank-IsTail lines [] h = h
skip_blank-IsTail lines (l ∷ ls) h =
    if_intro (IsTail lines) (is_blank l) _ _
      (λ _. skip_blank-IsTail lines ls (IsTail-next lines l ls h)) (λ _. h)

drop_wrapped-IsRest :
    (lines : List (List ℕ)) (rounds : ℕ) (seg rest : List (List ℕ)) (cmd text : List ℕ)
    → IsTail lines rest
    → IsRest lines text
    → IsRest lines (drop_wrapped rounds seg rest cmd text)
unfolding drop_wrapped
drop_wrapped-IsRest lines zero seg rest cmd text h t = t
drop_wrapped-IsRest lines (suc rounds) seg [] cmd text h t = t
drop_wrapped-IsRest lines (suc rounds) seg (l ∷ ls) cmd text h t =
    let more = IsTail-next lines l ls h in
    let next = drop_wrapped-IsRest lines rounds (seg ++ (l ∷ [])) ls cmd text more t in
    if_intro (IsRest lines) (is_blank l) _ _ (λ _. t)
      (λ _.
        if_intro (IsRest lines) (leb (length cmd) (length (trim_padding l))) _ _ (λ _. next)
          (λ _.
            if_intro (IsRest lines) (wrap_join_ends_with (seg ++ (l ∷ [])) cmd) _ _
              (λ _. IsTail-join lines ls more) (λ _. next)))

drop_echo-IsRest :
    (lines ls : List (List ℕ)) (cmd text : List ℕ)
    → IsTail lines ls
    → IsRest lines text
    → IsRest lines (drop_echo ls cmd text)
unfolding drop_echo
drop_echo-IsRest lines [] cmd text h t = t
drop_echo-IsRest lines (l ∷ ls) cmd text h t =
    let more = IsTail-next lines l ls h in
    if_intro (IsRest lines) (has_suffix (trim_padding l) cmd) _ _ (λ _. IsTail-join lines ls more)
      (λ _. drop_wrapped-IsRest lines 5 (l ∷ []) ls cmd text more t)

-- Whatever the text and the command, what is left are the last lines of the text, unchanged and in
-- order.
pub drop_echoed_command-IsRest :
    (text cmd : List ℕ) → IsRest (split 0x0A text) (drop_echoed_command text cmd)
unfolding drop_echoed_command
drop_echoed_command-IsRest text cmd =
    let lines : List (List ℕ) = split 0x0A text in
    let whole : IsRest lines text = (0, sym (join-split 0x0A text)) in
    if_intro (IsRest lines) (is_empty cmd) _ _ (λ _. whole)
      (λ _.
        drop_echo-IsRest lines (skip_blank lines) cmd text (skip_blank-IsTail lines lines (0, refl))
          whole)
