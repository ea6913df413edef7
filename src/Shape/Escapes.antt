-- ===== src/Shape/Escapes.antt =====
-- Removing control sequences: StripANSI, dropEscapes and StripBoundary. A position in the buffer
-- is what is left of it from there.
pub mod Removed
pub mod Hidden
use pairmux.Prelude.{
  ℕ, zero, suc, List, [], ◌∷◌, Option, none, some, Bool, ◌||◌, ◌&&◌, ltb, ◌==◌, within,
  if◌then◌else◌, length, drop,
}
use pairmux.Bytes.{has_prefix}
use pairmux.Core.{sentinel_boundary}

abbrev pub string_payload_cap : ℕ
string_payload_cap = 4096

-- `skipCSI`, from behind `ESC [`: what follows the final byte, none when it is malformed.
unfoldable pub skip_csi : List ℕ → Option (List ℕ)
skip_csi [] = none
skip_csi (d ∷ ds) =
    let rest = skip_csi ds in
    if within 0x40 0x7E d then some ds else if within 0x20 0x3F d then rest else none

-- The loop of `skipStringSeq`, from behind the introducer: what follows the terminator, none
-- when there is none within `cap` bytes and more data behind them.
unfoldable pub skip_string : ℕ → List ℕ → Option (List ℕ)
skip_string cap [] = some []
skip_string zero (b ∷ bs) = none
skip_string (suc cap) (b ∷ []) = some []
skip_string (suc cap) (b ∷ c ∷ bs) =
    let rest = skip_string cap (c ∷ bs) in
    if b == 0x07 then some (c ∷ bs) else if (b == 0x1B) && (c == 0x5C) then some bs else rest

-- Where the scan goes on: behind the sequence, or behind its ESC alone.
unfoldable pub or_abandon : List ℕ → Option (List ℕ) → List ℕ
or_abandon b none = b
or_abandon b (some rest) = rest

abbrev pub is_string_introducer : ℕ → Bool
is_string_introducer c = c == b']' || (c == b'P' || (c == b'_' || (c == b'X' || c == b'^')))

-- What follows the escape sequence whose ESC is just passed.
unfoldable pub after_esc : List ℕ → List ℕ
unfolding skip_csi skip_string or_abandon
after_esc [] = []
after_esc (c ∷ cs) =
    if c == b'['
    then or_abandon (c ∷ cs) (skip_csi cs)
    else if is_string_introducer c
    then or_abandon (c ∷ cs) (skip_string string_payload_cap cs)
    else cs

-- The loop of `StripANSI`, on fuel: each round passes a byte at least.
unfoldable pub strip_loop : ℕ → List ℕ → List ℕ
unfolding has_prefix after_esc
strip_loop zero b = []
strip_loop (suc fuel) [] = []
strip_loop (suc fuel) (c ∷ cs) =
    let unbounded = strip_loop fuel (drop (length sentinel_boundary) (c ∷ cs)) in
    let unescaped = strip_loop fuel (after_esc cs) in
    let rest = strip_loop fuel cs in
    if has_prefix (c ∷ cs) sentinel_boundary
    then unbounded
    else if c == 0x1B
    then unescaped
    else if c == 0x0A || c == 0x09
    then c ∷ rest
    else if ltb c 0x20
    then rest
    else c ∷ rest

unfoldable pub strip_ansi : List ℕ → List ℕ
unfolding strip_loop
strip_ansi b = strip_loop (length b) b

-- The loop of `dropEscapes`, on fuel.
unfoldable pub drop_loop : ℕ → List ℕ → List ℕ
unfolding after_esc
drop_loop zero b = []
drop_loop (suc fuel) [] = []
drop_loop (suc fuel) (c ∷ cs) =
    let unescaped = drop_loop fuel (after_esc cs) in
    let rest = drop_loop fuel cs in if c == 0x1B then unescaped else c ∷ rest

unfoldable pub drop_escapes : List ℕ → List ℕ
unfolding drop_loop
drop_escapes b = drop_loop (length b) b

-- `strings.ReplaceAll(s, SentinelBoundary, "")`, on fuel.
unfoldable unbound_loop : ℕ → List ℕ → List ℕ
unfolding has_prefix
unbound_loop zero b = b
unbound_loop (suc fuel) [] = []
unbound_loop (suc fuel) (c ∷ cs) =
    let removed = unbound_loop fuel (drop (length sentinel_boundary) (c ∷ cs)) in
    let rest = unbound_loop fuel cs in
    if has_prefix (c ∷ cs) sentinel_boundary then removed else c ∷ rest

unfoldable strip_boundary : List ℕ → List ℕ
unfolding unbound_loop
strip_boundary b = unbound_loop (length b) b
