-- ===== src/Shape/Overwrites/Resolved.antt =====
-- What CollapseCR leaves.
use pairmux.Prelude.{
  ℕ, zero, suc, ◌≡◌, refl, List, [], ◌∷◌, true, false, ◌&&◌, ◌==◌, if◌then◌else◌, length, map,
  arith, if_intro,
}
use pairmux.Prelude.All.{All, All-map}
use pairmux.Bytes.{split, all_bytes}
use pairmux.Bytes.Every.{All-split, All-join}
use pairmux.Shape.Escapes.{after_esc, drop_loop, drop_escapes}
use pairmux.Shape.Overwrites.{replace_prompt_sp, replace_crlf, after_last_cr, collapse_cr}

-- No escape character.
abbrev IsPlain : ℕ → Type 0
IsPlain c = (c == 0x1B) ≡ false

-- Neither an escape character nor a carriage return.
abbrev pub IsResolved : ℕ → Type 0
IsResolved c = ((c == 0x1B) ≡ false) × ((c == 0x0D) ≡ false)

drop_loop-IsPlain : (fuel : ℕ) (b : List ℕ) → All IsPlain (drop_loop fuel b)
unfolding drop_loop
drop_loop-IsPlain zero b = tt
drop_loop-IsPlain (suc fuel) [] = tt
drop_loop-IsPlain (suc fuel) (c ∷ cs) =
    if_intro (All IsPlain) (c == 0x1B) _ _ (λ _. drop_loop-IsPlain fuel (after_esc cs))
      (λ e. (e, drop_loop-IsPlain fuel cs))

replace_crlf-IsPlain : (b : List ℕ) → All IsPlain b → All IsPlain (replace_crlf b)
unfolding replace_crlf
replace_crlf-IsPlain [] h = tt
replace_crlf-IsPlain (c ∷ []) h = h
replace_crlf-IsPlain (c ∷ d ∷ ds) h =
    if_intro (All IsPlain) ((c == 0x0D) && (d == 0x0A)) _ _ (λ _. replace_crlf-IsPlain (d ∷ ds) h.1)
      (λ _. (h.0, replace_crlf-IsPlain (d ∷ ds) h.1))

no_return :
    (b : List ℕ)
    → All IsPlain b
    → all_bytes (λ d. if d == 0x0D then false else true) b ≡ true
    → All IsResolved b
unfolding all_bytes
no_return [] p h = tt
no_return (c ∷ cs) p h = ((p.0, ground arith), no_return cs p.1 (ground arith))

after_last_cr-IsResolved : (b : List ℕ) → All IsPlain b → All IsResolved (after_last_cr b)
unfolding after_last_cr
after_last_cr-IsResolved [] h = tt
after_last_cr-IsResolved (c ∷ cs) h =
    if_intro (All IsResolved) (all_bytes (λ d. if d == 0x0D then false else true) (c ∷ cs)) _ _
      (λ e. no_return (c ∷ cs) h e) (λ _. after_last_cr-IsResolved cs h.1)

-- Whatever the bytes, no carriage return and no escape character is left once the overwrites are
-- resolved.
pub collapse_cr-IsResolved : (b : List ℕ) → All IsResolved (collapse_cr b)
unfolding collapse_cr drop_escapes
collapse_cr-IsResolved b =
    let marked : List ℕ = replace_prompt_sp (length b) b in
    let plain : List ℕ = drop_loop (length marked) marked in
    let lines : List (List ℕ) = split 0x0A (replace_crlf plain) in
    let plain_lines : All (All IsPlain) lines =
      All-split IsPlain 0x0A (replace_crlf plain)
        (replace_crlf-IsPlain plain (drop_loop-IsPlain (length marked) marked)) in
    All-join IsResolved 0x0A (map after_last_cr lines) (refl, refl)
      (All-map (All IsPlain) (All IsResolved) after_last_cr after_last_cr-IsResolved lines
        plain_lines)
