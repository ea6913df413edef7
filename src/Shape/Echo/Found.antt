-- ===== src/Shape/Echo/Found.antt =====
-- The echo that DropEchoedCommand finds behind a prompt.
use pairmux.Prelude.{
  ℕ, ◌-◌, ◌≡◌, refl, ap, ◌∙◌, List, [], ◌∷◌, ◌++◌, true, false, length, drop, arith, length-append,
}
use pairmux.Bytes.{is_empty, trim_end, bytes_eq, has_suffix}
use pairmux.Bytes.Lines.{IsPart, split-append, join-split}
use pairmux.Bytes.Space.{is_blank, trim_padding}
use pairmux.Shape.Echo.{skip_blank, drop_echo, drop_echoed_command}

is_empty-append : (a b : List ℕ) → is_empty b ≡ false → is_empty (a ++ b) ≡ false
unfolding is_empty
is_empty-append [] b h = h
is_empty-append (x ∷ xs) b h = refl

-- A text ends in padding only if its last part does.
trim_padding-append :
    (a b : List ℕ) → is_empty b ≡ false → trim_padding b ≡ b → trim_padding (a ++ b) ≡ a ++ b
unfolding trim_padding trim_end
trim_padding-append [] b n h = h
trim_padding-append (x ∷ xs) b n h = rw (trim_padding-append xs b n h, is_empty-append xs b n) refl

bytes_eq_refl : (b : List ℕ) → bytes_eq b b ≡ true
unfolding bytes_eq
bytes_eq_refl [] = refl
bytes_eq_refl (x ∷ xs) = ground (arith, bytes_eq_refl xs)

drop-append : (a b : List ℕ) → drop (length a) (a ++ b) ≡ b
drop-append [] b = refl
drop-append (x ∷ xs) b = drop-append xs b

has_suffix-append : (a b : List ℕ) → has_suffix (a ++ b) b ≡ true
unfolding has_suffix
has_suffix-append a b =
    let sum = length-append a b in
    let behind : drop (length (a ++ b) - length b) (a ++ b) ≡ b =
      ap (λ k. drop k (a ++ b)) (omega (arith, sum)) ∙ drop-append a b in
    rw behind (ground (arith, sum, bytes_eq_refl b))

-- If the first line of a text is a prompt followed by the command, is not blank, and the command
-- is not empty and does not end in padding, dropping the echo leaves exactly the lines behind it.
pub drop_echoed_command-append :
    (prompt cmd output : List ℕ)
    → IsPart 0x0A (prompt ++ cmd)
    → is_blank (prompt ++ cmd) ≡ false
    → is_empty cmd ≡ false
    → trim_padding cmd ≡ cmd
    → drop_echoed_command ((prompt ++ cmd) ++ (0x0A ∷ output)) cmd ≡ output
unfolding drop_echoed_command drop_echo skip_blank
drop_echoed_command-append prompt cmd output line shown given trimmed =
    rw
      (
        given,
        split-append 0x0A (prompt ++ cmd) output line,
        shown,
        trim_padding-append prompt cmd given trimmed,
        has_suffix-append prompt cmd,
      )
      (join-split 0x0A output)
