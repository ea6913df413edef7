-- ===== src/Vt/Parser.antt =====
-- The parser of internal/vt/parser.go: its states, one function for each handler, and `Feed`.
pub mod Chunks
pub mod Feed
pub mod Leftover
pub mod Loop
pub mod Moves
pub mod Safe
pub mod Total
use pairmux.Prelude.{
  ℕ, zero, suc, ◌+◌, ◌-◌, ◌*◌, ◌^◌, List, [], ◌∷◌, ◌++◌, Option, none, some, Bool, true, false, not,
  ◌&&◌, ◌||◌, ltb, leb, ◌==◌, within, if◌then◌else◌, length, get_or, set, take, drop,
}
use pairmux.Vt.Csi.{answer, da1_reply}
use pairmux.Vt.Cursor.{
  backspace, tab_forward, carriage_return, save_cursor, restore_cursor, alignment_test, full_reset,
}
use pairmux.Vt.Dispatch.{dispatch_csi}
use pairmux.Vt.Print.{print_rune, print_ascii}
use pairmux.Vt.Render.{render, esc}
use pairmux.Vt.Scroll.{index, reverse_index, unwrapped}
use pairmux.Vt.State.{Screen, Modes}
use pairmux.Vt.Strings.{osc, dcs, is_kitty_query}
use pairmux.Vt.Utf8.{full_rune, decode_rune}
use pairmux.Vt.Width.{Unicode}

-- `pstate`
pub data PState : Type 0 where
  in_ground in_esc in_esc_inter in_csi in_string in_string_esc : PState

-- `Screen` with the parser's fields; `ubuf` holds its first `un` bytes only.
pub record Term : Type 0 where
  pub screen : Screen
  pub state : PState
  pub seq : List ℕ
  pub str_kind : ℕ
  pub str_overflow : Bool
  pub csi_overflow : Bool
  pub ubuf : List ℕ

abbrev pub bel : ℕ
bel = 0x07

abbrev pub can : ℕ
can = 0x18

abbrev pub sub : ℕ
sub = 0x1A

abbrev pub max_string : ℕ
max_string = 65536

abbrev pub max_csi : ℕ
max_csi = 512

-- `s.out = append(s.out, b...)`
abbrev pub forward : Term → List ℕ → Term
forward t b = record t { screen = record (t.screen) { out = (t.screen).out ++ b } }

-- `abortSeq`
unfoldable pub abort_seq : Term → Term
abort_seq t = record t {
  screen = record (t.screen) {
    out = if t.csi_overflow || t.str_overflow then (t.screen).out else (t.screen).out ++ t.seq;
  };
  seq = [];
  csi_overflow = false;
  str_overflow = false;
  state = in_ground;
}

-- The effect of a control character on the screen, without its forwarding.
unfoldable pub control_effect : Screen → ℕ → Screen
control_effect s b =
    if b == 0x08
    then backspace s
    else if b == 0x09
    then tab_forward s 1
    else if b == 0x0A || b == 0x0B || b == 0x0C
    then index (unwrapped s)
    else if b == 0x0D
    then carriage_return s
    else if b == 0x0E
    then record s { gl = 1 }
    else if b == 0x0F
    then record s { gl = 0 }
    else s

-- `control`
unfoldable pub control : Term → ℕ → Term
unfolding control_effect
control t b =
    let s = record (t.screen) { last_rune = 0 } in
    if b == 0x05
    then record t { screen = s }
    else forward (record t { screen = control_effect s b }) (b ∷ [])

-- `commonC0`; `none` where the source reports false.
unfoldable pub common_c0 : Term → ℕ → Option Term
unfolding abort_seq control
common_c0 t b =
    if b == esc
    then some (record (abort_seq t) { seq = esc ∷ []; state = in_esc })
    else if b == can || b == sub
    then some (forward (abort_seq t) (b ∷ []))
    else if ltb b 0x20
    then some (control t b)
    else none

-- The effect of an escape sequence, and whether it is passed through.
unfoldable pub esc_effect : Screen → ℕ → Screen × Bool
esc_effect s final =
    let reset = full_reset s in
    if final == b'7'
    then (save_cursor s, true)
    else if final == b'8'
    then (restore_cursor s, true)
    else if final == b'D'
    then (index (unwrapped s), true)
    else if final == b'E'
    then (index (carriage_return s), true)
    else if final == b'M'
    then (reverse_index (unwrapped s), true)
    else if final == b'c'
    then (record reset { out = reset.out ++ render reset }, false)
    else if final == b'='
    then (record s { modes = record (s.modes) { app_keypad = true } }, true)
    else if final == b'>'
    then (record s { modes = record (s.modes) { app_keypad = false } }, true)
    else if final == b'H'
    then (record s { tabs = set s.tabs s.cx true }, true)
    else if final == b'n'
    then (record s { gl = 2 }, true)
    else if final == b'o'
    then (record s { gl = 3 }, true)
    else if final == b'Z'
    then (answer s da1_reply, false)
    else (s, true)

-- The effect of an escape sequence with intermediate bytes; they are all passed through.
unfoldable pub esc_inter_effect : Screen → List ℕ → ℕ → Screen
esc_inter_effect s inter final =
    let i = get_or inter 0 0 in
    if not (length inter == 1)
    then s
    else if within b'(' b'+' i
    then record s { g = set s.g (i - b'(') (if final == b'0' then b'0' else b'B') }
    else if within b'-' b'/' i
    then record s { g = set s.g (i - b',') b'B' }
    else if i == b'#'
    then (if final == b'8' then alignment_test s else s)
    else s

-- A sequence ends: its effect is taken over, its bytes are passed on or not, and it is forgotten.
abbrev pub finish_seq : Term → List ℕ → Screen × Bool → Term
finish_seq t seq (s, pass) = record t {
  screen = record s { out = if pass then s.out ++ seq else s.out };
  seq = [];
  state = in_ground;
}

-- `escByte`; the flag says whether the byte was consumed.
unfoldable pub esc_byte : Term → ℕ → Term × Bool
unfolding common_c0 abort_seq esc_effect
esc_byte t b = elim (common_c0 t b) [
  | some t' ↦ (t', true)
  | none ↦
      let seq = t.seq ++ (b ∷ []) in
      if b == 0x7F
      then (record t { seq = seq }, true)
      else if within 0x20 0x2F b
      then (record t { seq = seq; state = in_esc_inter }, true)
      else if b == b'['
      then (record t { seq = seq; state = in_csi; csi_overflow = false }, true)
      else if b == b']' || b == b'P' || b == b'X' || b == b'^' || b == b'_'
      then (record t { seq = seq; str_kind = b; str_overflow = false; state = in_string }, true)
      else if within 0x30 0x7E b
      then (finish_seq t seq (esc_effect (record (t.screen) { last_rune = 0 }) b), true)
      else (abort_seq t, false)
]

-- `escInterByte`
unfoldable pub esc_inter_byte : Term → ℕ → Term × Bool
unfolding common_c0 abort_seq esc_inter_effect
esc_inter_byte t b = elim (common_c0 t b) [
  | some t' ↦ (t', true)
  | none ↦
      let seq = t.seq ++ (b ∷ []) in
      let inter = take (length seq - 2) (drop 1 seq) in
      if b == 0x7F
      then (record t { seq = seq }, true)
      else if within 0x20 0x2F b
      then (if leb 16 (length t.seq) then (abort_seq t, false) else (record t { seq = seq }, true))
      else if within 0x30 0x7E b
      then (
        finish_seq t seq (esc_inter_effect (record (t.screen) { last_rune = 0 }) inter b, true),
        true,
      )
      else (abort_seq t, false)
]

-- `csiByte`
unfoldable pub csi_byte : Term → ℕ → Term × Bool
unfolding common_c0 abort_seq
csi_byte t b = elim (common_c0 t b) [
  | some t' ↦ (t', true)
  | none ↦
      let seq = t.seq ++ (b ∷ []) in
      let s = if b == b'b' then t.screen else record (t.screen) { last_rune = 0 } in
      if within 0x20 0x3F b || b == 0x7F
      then (
        if t.csi_overflow
            then forward t (b ∷ [])
            else if ltb max_csi (length seq)
            then record (forward t seq) { seq = []; csi_overflow = true }
            else record t { seq = seq },
        true,
      )
      else if within 0x40 0x7E b
      then (
        if t.csi_overflow
            then record (forward t (b ∷ [])) { csi_overflow = false; state = in_ground }
            else finish_seq t seq (dispatch_csi s seq),
        true,
      )
      else (abort_seq t, false)
]

-- `stringAppend`
unfoldable pub string_append : Term → List ℕ → Term
string_append t data' =
    if length data' == 0
    then t
    else if t.str_overflow
    then forward t data'
    else if ltb max_string (length t.seq + length data')
    then record (forward t (t.seq ++ data')) { seq = []; str_overflow = true }
    else record t { seq = t.seq ++ data' }

-- `endPassthroughString`
abbrev end_passthrough : Term → Term
end_passthrough t = record t { seq = []; str_overflow = false; state = in_ground }

-- The dispatch of `finishString` on the kind of the string.
unfoldable pub string_effect : Screen → ℕ → List ℕ → Bool → Screen × Bool
string_effect s kind payload st =
    if kind == b']'
    then osc s payload st
    else if kind == b'P'
    then dcs s payload
    else if kind == b'_'
    then (s, not (is_kitty_query payload))
    else (s, true)

-- `finishString` on the sequence `seq`, which ends with its terminator.
unfoldable pub finish_string : Term → List ℕ → Bool → Term
unfolding string_effect
finish_string t seq st =
    let term : ℕ = if st then 2 else 1 in
    let payload = take (length seq - term - 2) (drop 2 seq) in
    finish_seq t seq (string_effect (record (t.screen) { last_rune = 0 }) t.str_kind payload st)

-- `stringEscByte`
unfoldable pub string_esc_byte : Term → ℕ → Term × Bool
unfolding finish_string
string_esc_byte t b =
    let kept = take (length t.seq - 1) t.seq in
    let aborted = if t.str_overflow then t else forward t kept in
    if b == b'\\'
    then (
      if t.str_overflow
          then end_passthrough (forward t (esc ∷ b'\\' ∷ []))
          else finish_string t (t.seq ++ (b ∷ [])) true,
      true,
    )
    else (record aborted { seq = esc ∷ []; str_overflow = false; state = in_esc }, false)

-- The byte that ends or interrupts the string content.
unfoldable pub string_end : Term → ℕ → Term
unfolding string_append finish_string abort_seq
string_end t c =
    if c == bel
    then (if not (t.str_kind == b']')
        then string_append t (bel ∷ [])
        else if t.str_overflow
        then end_passthrough (forward t (bel ∷ []))
        else finish_string t (t.seq ++ (bel ∷ [])) false)
    else if c == can || c == sub
    then forward (abort_seq t) (c ∷ [])
    else record t {
      seq = if t.str_overflow then esc ∷ [] else t.seq ++ (esc ∷ []);
      state = in_string_esc;
    }
