-- ===== src/Vt/Parser/Loop.antt =====
-- The loops of `Feed`: text in the ground state, string content, and one byte in the other states.
-- Each takes the bytes that are left and returns those that it leaves.
use pairmux.Prelude.{
  ℕ, zero, suc, ◌+◌, ◌-◌, ◌*◌, List, [], ◌∷◌, ◌++◌, Bool, false, not, ◌||◌, ltb, leb, ◌==◌, within,
  if◌then◌else◌, length, take, drop,
}
use pairmux.Vt.Dispatch.{span_length}
use pairmux.Vt.Parser.{
  in_ground, in_esc, in_esc_inter, in_csi, in_string, in_string_esc, Term, bel, can, sub, forward,
  control, esc_byte, esc_inter_byte, csi_byte, string_append, string_end, string_esc_byte,
}
use pairmux.Vt.Print.{print_rune, print_ascii}
use pairmux.Vt.Render.{esc}
use pairmux.Vt.Utf8.{full_rune, decode_rune}
use pairmux.Vt.Width.{Unicode}

-- `step`; the ground and string states do not reach it.
unfoldable pub step : Term → ℕ → Term × Bool
unfolding esc_byte esc_inter_byte csi_byte string_esc_byte
step t b = elim t.state [
  | in_esc ↦ esc_byte t b
  | in_esc_inter ↦ esc_inter_byte t b
  | in_csi ↦ csi_byte t b
  | in_string_esc ↦ string_esc_byte t b
  | _ ↦ (record t { state = in_ground }, false)
]

abbrev pub is_content : ℕ → Bool
is_content c = not (c == esc || c == bel || c == can || c == sub)

-- The byte behind the content, if the input holds it.
unfoldable pub end_of_content : Term → List ℕ → Term × List ℕ
unfolding string_end
end_of_content t [] = (t, [])
end_of_content t (c ∷ rest) = (string_end t c, rest)

-- `stringBytes`
unfoldable pub string_bytes : Term → List ℕ → Term × List ℕ
unfolding end_of_content span_length string_append
string_bytes t p =
    let j = span_length is_content p in end_of_content (string_append t (take j p)) (drop j p)

abbrev pub is_printable : ℕ → Bool
is_printable c = within 0x20 0x7E c

module _ (u : Unicode) where
  -- A decoded rune is printed, and the bytes that it was decoded from are forwarded.
  unfoldable pub put_rune : Term → ℕ → List ℕ → Term
  put_rune t r bytes = forward (record t { screen = print_rune u (t.screen) r }) bytes

  -- `finishRune`, on fuel: each round but the last shortens `ubuf`.
  unfoldable pub finish_rune : ℕ → Term → List ℕ → Term × List ℕ
  finish_rune zero t p = (t, p)
  finish_rune (suc fuel) t p =
      let n = length t.ubuf in
      let bytes = t.ubuf ++ take (4 - n) p in
      let (r, size) = decode_rune bytes in
      let t' = put_rune t r (take size bytes) in
      let again = finish_rune fuel (record t' { ubuf = drop size t.ubuf }) p in
      if n == 0
      then (t, p)
      else if not (full_rune bytes)
      then (record t { ubuf = bytes }, drop (4 - n) p)
      else if leb n size
      then (record t' { ubuf = [] }, drop (size - n) p)
      else again

  -- The loop of `in_ground`, on fuel: each round consumes a byte at least.
  unfoldable pub ground_loop : ℕ → Term → List ℕ → Term × List ℕ
  unfolding put_rune span_length control
  ground_loop zero t p = (t, p)
  ground_loop (suc fuel) t [] = (t, [])
  ground_loop (suc fuel) t (b ∷ rest) =
      let p = b ∷ rest in
      let j = span_length is_printable p in
      let run = take j p in
      let printed = forward (record t { screen = print_ascii (t.screen) run }) run in
      let (r, n) = decode_rune p in
      let after_run = ground_loop fuel printed (drop j p) in
      let after_control = ground_loop fuel (control t b) rest in
      let after_del = ground_loop fuel (forward t (b ∷ [])) rest in
      let after_rune = ground_loop fuel (put_rune t r (take n p)) (drop n p) in
      if is_printable b
      then after_run
      else if b == esc
      then (record t { seq = esc ∷ []; state = in_esc }, rest)
      else if ltb b 0x20
      then after_control
      else if b == 0x7F
      then after_del
      else if not (full_rune p)
      then (record t { ubuf = p }, [])
      else after_rune

  -- `in_ground`
  unfoldable pub ground_bytes : Term → List ℕ → Term × List ℕ
  unfolding finish_rune ground_loop
  ground_bytes t p =
      let (t', p') = finish_rune (suc (length t.ubuf)) t p in
      if ltb 0 (length t'.ubuf) then (t', p') else ground_loop (length p') t' p'

  -- One round of the loop of `Feed`.
  unfoldable pub feed_round : Term → List ℕ → Term × List ℕ
  unfolding ground_bytes string_bytes step
  feed_round t [] = (t, [])
  feed_round t (b ∷ rest) = elim t.state [
    | in_ground ↦ ground_bytes t (b ∷ rest)
    | in_string ↦ string_bytes t (b ∷ rest)
    | _ ↦ let (t', consumed) = step t b in (t', if consumed then rest else b ∷ rest)
  ]

  -- The loop of `Feed`, on fuel, with the bytes that are left when it runs out.
  unfoldable pub feed_loop : ℕ → Term → List ℕ → Term × List ℕ
  unfolding feed_round
  feed_loop zero t p = (t, p)
  feed_loop (suc fuel) t [] = (t, [])
  feed_loop (suc fuel) t (b ∷ rest) = let (t', p') = feed_round t (b ∷ rest) in feed_loop fuel t' p'

  -- `Feed`: the terminal afterwards holds the forwarded bytes and the replies in its screen. A
  -- byte that aborts a string or a sequence is looked at up to three times.
  unfoldable pub feed : Term → List ℕ → Term
  unfolding feed_loop
  feed t p =
      let start = record t { screen = record (t.screen) { out = []; reply = [] } } in
      (feed_loop (3 * length p + 3) start p).0
