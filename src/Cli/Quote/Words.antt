-- ===== src/Cli/Quote/Words.antt =====
-- A POSIX shell reads quoted tokens back as the words they were.
use pairmux.Prelude.{
  ℕ, ◌≡◌, refl, ap, sym, subst, ◌∙◌, List, [], ◌∷◌, ◌++◌, Option, none, some, Bool, true, false,
  not, ◌&&◌, ◌||◌, ◌==◌, within, if◌then◌else◌, arith, map, inl, inr, Bool-cases, if_intro, ==_iff,
}
use mathlib.Core.List.{append-nil, append_assoc}
use pairmux.Bytes.{is_empty, all_bytes, join}
use pairmux.Cli.Quote.{
  is_word_safe, escape_quotes, quote_token, is_double_safe, quoted_command_hint,
}

-- Where the shell stands: between words, in the unquoted part of one, behind a backslash, in single
-- or in double quotes.
data Place : Type 0 where
  between unquoted escaped single double : Place

-- What the shell does not take as it is outside of quotes.
is_special : ℕ → Bool
is_special c =
    (c == 0x0A)
    || ((c == 0x21)
        || ((c == 0x23)
            || ((c == 0x24)
                || (within 0x26 0x2A c
                    || ((c == 0x3B)
                        || ((c == 0x3C)
                            || ((c == 0x3E)
                                || ((c == 0x3F)
                                    || ((c == 0x5B)
                                        || ((c == 0x5D)
                                            || ((c == 0x60) || (within 0x7B 0x7E c))))))))))))

-- A word, none where the shell does more than to split into words and to remove quotes.
abbrev Reading : Type 0
Reading = Option (List (List ℕ))

with_word : List ℕ → Reading → Reading
with_word w none = none
with_word w (some ws) = some (w ∷ ws)

-- The words of a text. `w` is what has been read of the present one.
shell_words : Place → List ℕ → List ℕ → Reading
unfolding with_word is_special
shell_words between w [] = some []
shell_words unquoted w [] = some (w ∷ [])
shell_words escaped w [] = none
shell_words single w [] = none
shell_words double w [] = none
shell_words between w (c ∷ cs) =
    let blank = shell_words between [] cs in
    let quote = shell_words single [] cs in
    let backslash = shell_words escaped [] cs in
    let quotes = shell_words double [] cs in
    let byte = shell_words unquoted (c ∷ []) cs in
    if (c == 0x20) || (c == 0x09)
    then blank
    else if c == 0x27
    then quote
    else if c == 0x5C
    then backslash
    else if c == 0x22
    then quotes
    else if is_special c
    then none
    else byte
shell_words unquoted w (c ∷ cs) =
    let blank = with_word w (shell_words between [] cs) in
    let quote = shell_words single w cs in
    let backslash = shell_words escaped w cs in
    let quotes = shell_words double w cs in
    let byte = shell_words unquoted (w ++ (c ∷ [])) cs in
    if (c == 0x20) || (c == 0x09)
    then blank
    else if c == 0x27
    then quote
    else if c == 0x5C
    then backslash
    else if c == 0x22
    then quotes
    else if is_special c
    then none
    else byte
shell_words escaped w (c ∷ cs) =
    let byte = shell_words unquoted (w ++ (c ∷ [])) cs in if c == 0x0A then none else byte
shell_words single w (c ∷ cs) =
    let end = shell_words unquoted w cs in
    let byte = shell_words single (w ++ (c ∷ [])) cs in if c == 0x27 then end else byte
shell_words double w (c ∷ cs) =
    let end = shell_words unquoted w cs in
    let byte = shell_words double (w ++ (c ∷ [])) cs in
    if c == 0x22 then end else if is_double_safe c then byte else none

-- Within single quotes, up to the quote that ends them.
shell_words-escape_quotes :
    (w b rest : List ℕ)
    → shell_words single w (escape_quotes b ++ (0x27 ∷ rest)) ≡ shell_words unquoted (w ++ b) rest
unfolding shell_words escape_quotes
shell_words-escape_quotes w [] rest = ap (λ v. shell_words unquoted v rest) (sym (append-nil w))
shell_words-escape_quotes w (c ∷ b) rest =
    let begun : (w ++ (c ∷ [])) ++ b ≡ w ++ (c ∷ b) = append_assoc w (c ∷ []) b in
    let ih : shell_words single (w ++ (c ∷ [])) (escape_quotes b ++ (0x27 ∷ rest))
        ≡ shell_words unquoted (w ++ (c ∷ b)) rest =
      shell_words-escape_quotes (w ++ (c ∷ [])) b rest
      ∙ ap (λ v. shell_words unquoted v rest) begun in
    elim (Bool-cases (c == 0x27)) [
      | inl quote ↦ rw quote (
          subst
            (λ x.
              shell_words single (w ++ (x ∷ [])) (escape_quotes b ++ (0x27 ∷ rest))
              ≡ shell_words unquoted (w ++ (c ∷ b)) rest)
            ((==_iff c 0x27).0 quote) ih)
      | inr other ↦ rw other (rw other ih)
    ]

-- What a shell takes as it is.
is_word_safe-plain :
    (c : ℕ)
    → is_word_safe c ≡ true
    → (((c == 0x20) || (c == 0x09)) ≡ false)
      × ((c == 0x27) ≡ false)
      × ((c == 0x5C) ≡ false)
      × ((c == 0x22) ≡ false)
      × (is_special c ≡ false)
unfolding is_word_safe is_special
is_word_safe-plain c h = ground arith

shell_words-safe :
    (w b rest : List ℕ)
    → all_bytes is_word_safe b ≡ true
    → shell_words unquoted w (b ++ rest) ≡ shell_words unquoted (w ++ b) rest
unfolding shell_words all_bytes
shell_words-safe w [] rest h = ap (λ v. shell_words unquoted v rest) (sym (append-nil w))
shell_words-safe w (c ∷ b) rest h = elim (Bool-cases (is_word_safe c)) [
  | inl safe ↦
      let plain = is_word_safe-plain c safe in
      rw (plain.0, plain.1, plain.2, plain.3, plain.4)
        (shell_words-safe (w ++ (c ∷ [])) b rest (ground arith)
          ∙ ap (λ v. shell_words unquoted v rest) (append_assoc w (c ∷ []) b))
  | inr unsafe ↦ absurd (ground arith)
]

quoted-begun :
    (tok rest : List ℕ)
    → shell_words between [] ((0x27 ∷ (escape_quotes tok ++ (0x27 ∷ []))) ++ rest)
      ≡ shell_words unquoted tok rest
unfolding shell_words
quoted-begun tok rest =
    rw (append_assoc (escape_quotes tok) (0x27 ∷ []) rest) (shell_words-escape_quotes [] tok rest)

safe-begun :
    (tok rest : List ℕ)
    → is_empty tok ≡ false
    → all_bytes is_word_safe tok ≡ true
    → shell_words between [] (tok ++ rest) ≡ shell_words unquoted tok rest
unfolding shell_words is_empty all_bytes
safe-begun [] rest e h = absurd (ground arith)
safe-begun (c ∷ tok) rest e h = elim (Bool-cases (is_word_safe c)) [
  | inl safe ↦
      let plain = is_word_safe-plain c safe in
      rw (plain.0, plain.1, plain.2, plain.3, plain.4)
        (shell_words-safe (c ∷ []) tok rest (ground arith))
  | inr unsafe ↦ absurd (ground arith)
]

-- A token and what follows it.
quote_token-begun :
    (tok rest : List ℕ)
    → shell_words between [] (quote_token tok ++ rest) ≡ shell_words unquoted tok rest
unfolding quote_token
quote_token-begun tok rest =
    if_intro (λ (q : List ℕ). shell_words between [] (q ++ rest) ≡ shell_words unquoted tok rest)
      (not (is_empty tok) && all_bytes is_word_safe tok) _ _
      (λ e. safe-begun tok rest (ground arith) (ground arith)) (λ e. quoted-begun tok rest)

-- The tokens, quoted and joined by blanks, are read back.
shell_words-tokens :
    (tokens : List (List ℕ))
    → shell_words between [] (join 0x20 (map quote_token tokens)) ≡ some tokens
unfolding join shell_words
shell_words-tokens [] = refl
shell_words-tokens (t ∷ []) = rw (← append-nil (quote_token t)) (quote_token-begun t [])
shell_words-tokens (t ∷ u ∷ ts) =
    quote_token-begun t (0x20 ∷ join 0x20 (map quote_token (u ∷ ts)))
    ∙ ap (with_word t) (shell_words-tokens (u ∷ ts))
    ∙ unfold with_word in refl

-- Within double quotes, up to the quote that ends them.
shell_words-double :
    (w b : List ℕ)
    → all_bytes is_double_safe b ≡ true
    → shell_words double w (b ++ (0x22 ∷ [])) ≡ some ((w ++ b) ∷ [])
unfolding shell_words all_bytes
shell_words-double w [] h = ap (λ v. some (v ∷ [])) (sym (append-nil w))
shell_words-double w (c ∷ b) h = elim (Bool-cases (is_double_safe c)) [
  | inl safe ↦
      let inside : (c == 0x22) ≡ false = unfold is_double_safe in ground arith in
      rw (inside, safe)
        (shell_words-double (w ++ (c ∷ [])) b (ground arith)
          ∙ ap (λ v. some (v ∷ [])) (append_assoc w (c ∷ []) b))
  | inr unsafe ↦ absurd (ground arith)
]

-- The command that the shell hands over when it has read the hint, and the words of that command.
pub IsOneCommand : List (List ℕ) → List ℕ → Type 0
IsOneCommand tokens hint =
    (command : List ℕ) × (shell_words between [] hint ≡ some (command ∷ []))
    × (shell_words between [] command ≡ some tokens)

-- Whatever the words, a shell reads the hint as one word, and reads that word again as the words
-- themselves.
pub quoted_command_hint-IsOneCommand :
    (tokens : List (List ℕ)) → IsOneCommand tokens (quoted_command_hint tokens)
unfolding quoted_command_hint IsOneCommand
quoted_command_hint-IsOneCommand tokens =
    let joined : List ℕ = join 0x20 (map quote_token tokens) in
    (
      joined,
      if_intro (λ (q : List ℕ). shell_words between [] q ≡ some (joined ∷ []))
          (all_bytes is_double_safe joined) _ _
          (λ e. unfold shell_words in shell_words-double [] joined e)
          (λ e.
            rw (← append-nil (quote_token joined))
              (quote_token-begun joined [] ∙ unfold shell_words in refl)),
      shell_words-tokens tokens,
    )
