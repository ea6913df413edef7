-- ===== src/Cli/Quote.antt =====
-- Quoting for a shell: quoteToken and quotedCommandHint of internal/cli/commands.go.
pub mod Words
use pairmux.Prelude.{
  ℕ, List, [], ◌∷◌, ◌++◌, Bool, true, false, not, ◌&&◌, ◌||◌, ◌==◌, within, if◌then◌else◌, map,
}
use pairmux.Bytes.{codes, is_empty, all_bytes, join}

-- A byte of `shellWordSafe`.
unfoldable pub is_word_safe : ℕ → Bool
is_word_safe c =
    within b'A' b'Z' c
    || (within b'a' b'z' c
        || (within b'0' b'9' c
            || ((c == b'_')
                || ((c == b'@')
                    || ((c == b'%')
                        || ((c == b'+')
                            || ((c == b'=')
                                || ((c == b':')
                                    || ((c == b',')
                                        || ((c == b'.') || ((c == b'/') || (c == b'-'))))))))))))

-- `strings.ReplaceAll(tok, "'", "'\\''")`
unfoldable pub escape_quotes : List ℕ → List ℕ
escape_quotes [] = []
escape_quotes (c ∷ cs) =
    let rest = escape_quotes cs in if c == 0x27 then 0x27 ∷ 0x5C ∷ 0x27 ∷ 0x27 ∷ rest else c ∷ rest

unfoldable pub quote_token : List ℕ → List ℕ
unfolding is_empty all_bytes escape_quotes
quote_token tok =
    if not (is_empty tok) && all_bytes is_word_safe tok
    then tok
    else 0x27 ∷ (escape_quotes tok ++ (0x27 ∷ []))

-- `strings.ContainsAny(joined, "\"\\$`")`, negated for each byte.
unfoldable pub is_double_safe : ℕ → Bool
is_double_safe c = not ((c == 0x22) || ((c == 0x5C) || ((c == 0x24) || (c == 0x60))))

unfoldable pub quoted_command_hint : List (List ℕ) → List ℕ
unfolding quote_token join all_bytes
quoted_command_hint tokens =
    let joined = join 0x20 (map quote_token tokens) in
    if all_bytes is_double_safe joined then 0x22 ∷ (joined ++ (0x22 ∷ [])) else quote_token joined
