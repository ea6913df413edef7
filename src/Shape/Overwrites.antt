-- ===== src/Shape/Overwrites.antt =====
-- Carriage returns: CollapseCR and the trailer of zsh that it rewrites first.
pub mod Resolved
pub mod Shown
use pairmux.Prelude.{
  ℕ, zero, suc, List, [], ◌∷◌, Option, none, some, Bool, ◌||◌, ◌&&◌, ltb, leb, ◌==◌, within,
  if◌then◌else◌, length, drop, get_or, map, true, false,
}
use pairmux.Bytes.{span_length, split, join, has_prefix, all_bytes}
use pairmux.Shape.Escapes.{drop_escapes}

-- `\x1b\[[0-9;]*m` at the front: what follows it.
unfoldable match_sgr : List ℕ → Option (List ℕ)
unfolding span_length
match_sgr (e ∷ k ∷ cs) =
    let n = span_length (λ c. within b'0' b'9' c || c == b';') cs in
    if (e == 0x1B) && ((k == b'[') && (get_or cs n 0 == b'm')) then some (drop (suc n) cs) else none
match_sgr _ = none

-- As many of them as there are, on fuel.
unfoldable match_sgrs : ℕ → List ℕ → List ℕ
unfolding match_sgr
match_sgrs zero b = b
match_sgrs (suc fuel) b = elim (match_sgr b) [ none ↦ b | some rest ↦ match_sgrs fuel rest ]

-- `(?: \r)?`
unfoldable match_tail : List ℕ → List ℕ
unfolding has_prefix
match_tail b = if has_prefix b (0x20 ∷ 0x0D ∷ []) then drop 2 b else b

-- `[ ]{8,}\r(?: \r)?`
unfoldable match_pad : List ℕ → Option (List ℕ)
unfolding span_length match_tail
match_pad b =
    let n = span_length (λ c. c == 0x20) b in
    if leb 8 n && (get_or b n 0 == 0x0D) then some (match_tail (drop (suc n) b)) else none

unfoldable match_percent : List ℕ → Option (List ℕ)
unfolding match_pad match_sgrs
match_percent [] = none
match_percent (c ∷ cs) = if c == b'%' then match_pad (match_sgrs (length cs) cs) else none

-- `promptSPRe` at the front of the text: what follows the match.
unfoldable match_prompt_sp : List ℕ → Option (List ℕ)
unfolding match_percent match_sgrs
match_prompt_sp b = match_percent (match_sgrs (length b) b)

-- `promptSPRe.ReplaceAll(b, "\n")`, on fuel.
unfoldable pub replace_prompt_sp : ℕ → List ℕ → List ℕ
unfolding match_prompt_sp
replace_prompt_sp zero b = b
replace_prompt_sp (suc fuel) [] = []
replace_prompt_sp (suc fuel) (c ∷ cs) = elim (match_prompt_sp (c ∷ cs)) [
  | none ↦ c ∷ replace_prompt_sp fuel cs
  | some rest ↦ 0x0A ∷ replace_prompt_sp fuel rest
]

-- `bytes.ReplaceAll(b, "\r\n", "\n")`
unfoldable pub replace_crlf : List ℕ → List ℕ
replace_crlf [] = []
replace_crlf (c ∷ []) = c ∷ []
replace_crlf (c ∷ d ∷ ds) =
    let rest = replace_crlf (d ∷ ds) in if (c == 0x0D) && (d == 0x0A) then rest else c ∷ rest

-- The part of a line behind its last carriage return, the line when it has none.
unfoldable pub after_last_cr : List ℕ → List ℕ
unfolding all_bytes
after_last_cr [] = []
after_last_cr (c ∷ cs) =
    let rest = after_last_cr cs in
    if all_bytes (λ d. if d == 0x0D then false else true) (c ∷ cs) then c ∷ cs else rest

unfoldable pub collapse_cr : List ℕ → List ℕ
unfolding replace_prompt_sp drop_escapes replace_crlf split after_last_cr join
collapse_cr b =
    let plain = drop_escapes (replace_prompt_sp (length b) b) in
    join 0x0A (map after_last_cr (split 0x0A (replace_crlf plain)))
