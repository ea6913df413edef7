-- ===== src/Shape/Echo.antt =====
-- Removing the echo of the command: DropEchoedCommand.
pub mod Dropped
pub mod Found
use pairmux.Prelude.{
  ℕ, zero, suc, ◌-◌, List, [], ◌∷◌, ◌++◌, Bool, ◌||◌, leb, if◌then◌else◌, length, map,
}
use pairmux.Bytes.{has_suffix, split, join, is_empty}
use pairmux.Bytes.Space.{is_blank, trim_padding}

abbrev max_echo_wrap_lines : ℕ
max_echo_wrap_lines = 6

-- `strings.Join(seg, "")`
unfoldable concat : List (List ℕ) → List ℕ
concat [] = []
concat (l ∷ ls) = l ++ concat ls

unfoldable pub wrap_join_ends_with : List (List ℕ) → List ℕ → Bool
unfolding has_suffix concat trim_padding
wrap_join_ends_with seg cmd =
    has_suffix (trim_padding (concat seg)) cmd || has_suffix (concat (map trim_padding seg)) cmd

-- The lines behind the leading blank ones.
unfoldable pub skip_blank : List (List ℕ) → List (List ℕ)
unfolding is_blank
skip_blank [] = []
skip_blank (l ∷ ls) = let rest = skip_blank ls in if is_blank l then rest else l ∷ ls

-- The loop over k, on as many rounds as k has values: `seg` holds the lines of the last round,
-- `rest` what follows them.
unfoldable pub drop_wrapped : ℕ → List (List ℕ) → List (List ℕ) → List ℕ → List ℕ → List ℕ
unfolding is_blank trim_padding wrap_join_ends_with join
drop_wrapped zero seg rest cmd text = text
drop_wrapped (suc rounds) seg [] cmd text = text
drop_wrapped (suc rounds) seg (last ∷ rest) cmd text =
    let longer = seg ++ (last ∷ []) in
    let next = drop_wrapped rounds longer rest cmd text in
    if is_blank last
    then text
    else if leb (length cmd) (length (trim_padding last))
    then next
    else if wrap_join_ends_with longer cmd
    then join 0x0A rest
    else next

-- `DropEchoedCommand` from the first line that is not blank.
unfoldable pub drop_echo : List (List ℕ) → List ℕ → List ℕ → List ℕ
unfolding has_suffix trim_padding drop_wrapped join
drop_echo [] cmd text = text
drop_echo (l ∷ ls) cmd text =
    if has_suffix (trim_padding l) cmd
    then join 0x0A ls
    else drop_wrapped (max_echo_wrap_lines - 1) (l ∷ []) ls cmd text

unfoldable pub drop_echoed_command : List ℕ → List ℕ → List ℕ
unfolding is_empty split skip_blank drop_echo
drop_echoed_command text cmd =
    if is_empty cmd then text else drop_echo (skip_blank (split 0x0A text)) cmd text
