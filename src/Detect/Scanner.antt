-- ===== src/Detect/Scanner.antt =====
-- The incremental scanner of OSC marks, internal/detect/scanner.go.
pub mod Chunks
pub mod Places
pub mod Order
pub mod Emitted
pub mod Boundary
use pairmux.Prelude.{
  ℕ, zero, suc, ◌+◌, ◌-◌, List, [], ◌∷◌, ◌++◌, Option, none, some, Bool, true, false, not, ◌&&◌,
  ◌||◌, ltb, ◌==◌, if◌then◌else◌, length, get_or, take, drop,
}
use pairmux.Bytes.{codes, bytes_eq, has_prefix, split}
use pairmux.Bytes.Numbers.{ℤ, pos, negsuc, atoi}
use pairmux.Bytes.Space.{trim_space}
use pairmux.Core.{sentinel_boundary}

pub data MarkKind : Type 0 where
  mark_a : MarkKind
  mark_b : MarkKind
  mark_c : MarkKind
  mark_d : MarkKind
  mark_sentinel : MarkKind
  mark_boundary : MarkKind

pub record Mark : Type 0 where
  pub kind : MarkKind
  pub exit_code : ℤ
  pub start : ℕ
  pub end' : ℕ

pub data ScanState : Type 0 where
  in_ground : ScanState
  in_esc : ScanState
  in_osc : ScanState
  in_osc_esc : ScanState

pub record Scanner : Type 0 where
  pub state : ScanState
  pub offset : ℕ
  pub mark_start : ℕ
  pub payload : List ℕ
  pub bnd : ℕ

abbrev pub payload_cap : ℕ
payload_cap = 160

unfoldable pub new_scanner : ℕ → Scanner
new_scanner base = record {
  state = in_ground;
  offset = base;
  mark_start = 0;
  payload = [];
  bnd = 0;
}

-- The loop of `matchBoundary`: the longest end of `seen` of at most `n` bytes that begins the
-- boundary, 0 when there is none.
unfoldable pub fallback : List ℕ → ℕ → ℕ
unfolding has_prefix
fallback seen zero = 0
fallback seen (suc n) =
    let shorter = fallback seen n in
    if has_prefix sentinel_boundary (drop (length seen - suc n) seen) then suc n else shorter

-- How many bytes of the boundary are matched after one more.
unfoldable pub next_bnd : ℕ → ℕ → ℕ
unfolding fallback
next_bnd bnd b =
    let seen = take bnd sentinel_boundary ++ (b ∷ []) in
    if get_or sentinel_boundary bnd 0 == b
    then suc bnd
    else if ltb 0 bnd
    then fallback seen (length seen - 1)
    else bnd

-- The match after a byte, and whether it is complete.
unfoldable pub match_boundary : ℕ → ℕ → ℕ × Bool
unfolding next_bnd
match_boundary bnd b =
    let next = next_bnd bnd b in
    if next == length sentinel_boundary then (0, true) else (next, false)

unfoldable pub exit_value : Option ℤ → ℤ
exit_value none = negsuc 0
exit_value (some v) = v

unfoldable pub exit_from : List (List ℕ) → ℕ → ℤ
unfolding exit_value atoi trim_space
exit_from fields idx =
    if ltb idx (length fields)
    then exit_value (atoi (trim_space (get_or fields idx [])))
    else negsuc 0

-- The letter of an OSC 133 mark.
unfoldable pub letter_kind : List ℕ → Option MarkKind
unfolding bytes_eq
letter_kind f =
    if bytes_eq f (codes "A")
    then some mark_a
    else if bytes_eq f (codes "B")
    then some mark_b
    else if bytes_eq f (codes "C")
    then some mark_c
    else if bytes_eq f (codes "D")
    then some mark_d
    else none

unfoldable pub shell_mark : Option MarkKind → ℤ → ℕ → ℕ → Option Mark
shell_mark none code start stop = none
shell_mark (some k) code start stop =
    some (record { kind = k; exit_code = code; start = start; end' = stop })

unfoldable pub finish : ℕ → List ℕ → ℕ → Option Mark
unfolding split bytes_eq exit_from letter_kind shell_mark
finish mark_start payload stop =
    let fields = split b';' payload in
    let first = get_or fields 0 [] in
    let second = get_or fields 1 [] in
    let code = exit_from fields 2 in
    if bytes_eq first (codes "133")
    then (if ltb (length fields) 2 || not (length second == 1)
        then none
        else shell_mark (letter_kind second) code mark_start stop)
    else if bytes_eq first (codes "7779")
    then (if ltb (length fields) 3 || not (bytes_eq second (codes "p"))
        then none
        else shell_mark (some mark_sentinel) code mark_start stop)
    else none

unfoldable pub reported : Option Mark → List Mark
reported none = []
reported (some m) = m ∷ []

-- The case stGround of `Feed`: `s` has consumed the byte, which was at `off`.
unfoldable pub ground_byte : Scanner → ℕ → ℕ → Scanner × List Mark
unfolding match_boundary
ground_byte s off b =
    let (bnd, complete) = match_boundary s.bnd b in
    let boundary : Mark = record {
      kind = mark_boundary;
      exit_code = negsuc 0;
      start = s.offset - length sentinel_boundary;
      end' = s.offset;
    } in
    if b == 0x1B
    then (record s { state = in_esc; mark_start = off; bnd = 0 }, [])
    else (record s { bnd = bnd }, if complete then boundary ∷ [] else [])

unfoldable pub esc_byte : Scanner → ℕ → ℕ → Scanner × List Mark
esc_byte s off b =
    if b == b']'
    then (record s { state = in_osc; payload = [] }, [])
    else if b == 0x1B
    then (record s { mark_start = off }, [])
    else (record s { state = in_ground }, [])

unfoldable pub osc_byte : Scanner → ℕ → ℕ → Scanner × List Mark
unfolding finish reported
osc_byte s off b =
    let longer = s.payload ++ (b ∷ []) in
    if b == 0x07
    then (record s { state = in_ground }, reported (finish s.mark_start s.payload (off + 1)))
    else if b == 0x1B
    then (record s { state = in_osc_esc }, [])
    else if ltb payload_cap (length longer)
    then (record s { state = in_ground; payload = [] }, [])
    else (record s { payload = longer }, [])

unfoldable pub osc_esc_byte : Scanner → ℕ → ℕ → Scanner × List Mark
unfolding finish reported
osc_esc_byte s off b =
    if b == 0x5C
    then (record s { state = in_ground }, reported (finish s.mark_start s.payload (off + 1)))
    else if b == b']'
    then (record s { state = in_osc; mark_start = off - 1; payload = [] }, [])
    else if b == 0x1B
    then (record s { state = in_esc; mark_start = off }, [])
    else (record s { state = in_ground }, [])

-- One round of the loop of `Feed`.
unfoldable pub step : Scanner → ℕ → Scanner × List Mark
unfolding ground_byte esc_byte osc_byte osc_esc_byte
step s b =
    let off = s.offset in
    let s1 = record s { offset = s.offset + 1 } in
    elim s.state [
      | in_ground ↦ ground_byte s1 off b
      | in_esc ↦ esc_byte s1 off b
      | in_osc ↦ osc_byte s1 off b
      | in_osc_esc ↦ osc_esc_byte s1 off b
    ]

-- `Feed`: the scanner afterwards, and the marks that the chunk completes.
unfoldable pub feed : Scanner → List ℕ → Scanner × List Mark
unfolding step
feed s [] = (s, [])
feed s (b ∷ bs) = let (s1, marks) = step s b in let (s2, later) = feed s1 bs in (s2, marks ++ later)
