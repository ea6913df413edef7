-- ===== src/Vt/Parser/Feed.antt =====
-- The loops of `Feed` keep the screen well formed.
use pairmux.Prelude.{
  ℕ, zero, suc, ◌+◌, ◌-◌, ◌*◌, ◌≡◌, List, [], ◌∷◌, ◌++◌, Bool, true, false, not, ltb, leb, ◌==◌,
  if◌then◌else◌, if_intro, length, take, drop,
}
use pairmux.Vt.Dispatch.{span_length}
use pairmux.Vt.Parser.{
  PState, in_ground, in_esc, in_esc_inter, in_csi, in_string, in_string_esc, Term, control,
  esc_byte, esc_inter_byte, csi_byte, string_esc_byte, forward,
}
use pairmux.Vt.Parser.Loop.{
  step, is_content, end_of_content, string_bytes, is_printable, put_rune, finish_rune, ground_loop,
  ground_bytes, feed_round, feed_loop, feed,
}
use pairmux.Vt.Parser.Safe.{
  IsTerm, IsStep, forward-IsTerm, control-IsTerm, esc_byte-IsStep, esc_inter_byte-IsStep,
  csi_byte-IsStep, string_append-IsTerm, string_end-IsTerm, string_esc_byte-IsStep,
}
use pairmux.Vt.Csi.Safe.{written-IsScreen}
use pairmux.Vt.Print.Ascii.{print_ascii-IsScreen}
use pairmux.Vt.Print.Combine.{print_rune-IsScreen}
use pairmux.Vt.Print.{print_ascii, print_rune}
use pairmux.Vt.Render.{esc}
use pairmux.Vt.Utf8.{full_rune, decode_rune}
use pairmux.Vt.Width.{Unicode}
use pairmux.Vt.Wf.{IsScreen}

-- The terminal of a loop's result is well formed.
abbrev IsRest : Term × List ℕ → Type 0
IsRest r = IsTerm r.0

if-IsRest :
    (b : Bool) (p q : Term × List ℕ)
    → (b ≡ true → IsRest p)
    → (b ≡ false → IsRest q)
    → IsRest (if b then p else q)
if-IsRest = if_intro IsRest

-- A step from each state.
branch-IsStep :
    (st : PState) (t : Term) (b : ℕ)
    → IsTerm t
    → IsStep (elim st [
      | in_esc ↦ esc_byte t b
      | in_esc_inter ↦ esc_inter_byte t b
      | in_csi ↦ csi_byte t b
      | in_string_esc ↦ string_esc_byte t b
      | _ ↦ (record t { state = in_ground }, false)
    ])
branch-IsStep in_ground t b w = w
branch-IsStep in_esc t b w = esc_byte-IsStep t b w
branch-IsStep in_esc_inter t b w = esc_inter_byte-IsStep t b w
branch-IsStep in_csi t b w = csi_byte-IsStep t b w
branch-IsStep in_string t b w = w
branch-IsStep in_string_esc t b w = string_esc_byte-IsStep t b w

step-IsStep : (t : Term) (b : ℕ) → IsTerm t → IsStep (step t b)
unfolding step
step-IsStep t b w = branch-IsStep t.state t b w

end_of_content-IsRest : (t : Term) (p : List ℕ) → IsTerm t → IsRest (end_of_content t p)
unfolding end_of_content
end_of_content-IsRest t [] w = w
end_of_content-IsRest t (c ∷ rest) w = string_end-IsTerm t c w

string_bytes-IsRest : (t : Term) (p : List ℕ) → IsTerm t → IsRest (string_bytes t p)
unfolding string_bytes
string_bytes-IsRest t p w =
    let j = span_length is_content p in
    end_of_content-IsRest _ (drop j p) (string_append-IsTerm t (take j p) w)

module _ (u : Unicode) where
  put_rune-IsTerm : (t : Term) (r : ℕ) (bytes : List ℕ) → IsTerm t → IsTerm (put_rune u t r bytes)
  unfolding put_rune
  put_rune-IsTerm t r bytes w =
      forward-IsTerm (record t { screen = print_rune u (t.screen) r }) bytes
        (print_rune-IsScreen u t.screen r w)

  finish_rune-IsRest :
      (fuel : ℕ) (t : Term) (p : List ℕ) → IsTerm t → IsRest (finish_rune u fuel t p)
  unfolding finish_rune
  finish_rune-IsRest zero t p w = w
  finish_rune-IsRest (suc fuel) t p w =
      let n = length t.ubuf in
      let bytes = t.ubuf ++ take (4 - n) p in
      let d = decode_rune bytes in
      let t' = put_rune u t d.0 (take d.1 bytes) in
      let v = put_rune-IsTerm t d.0 (take d.1 bytes) w in
      if-IsRest (n == 0) _ _ (λ _. w)
        λ _.
          if-IsRest (not (full_rune bytes)) _ _ (λ _. w)
            λ _.
              if-IsRest (leb n d.1) _ _ (λ _. v)
                (λ _. finish_rune-IsRest fuel (record t' { ubuf = drop d.1 t.ubuf }) p v)

  ground_loop-IsRest :
      (fuel : ℕ) (t : Term) (p : List ℕ) → IsTerm t → IsRest (ground_loop u fuel t p)
  unfolding ground_loop
  ground_loop-IsRest zero t p w = w
  ground_loop-IsRest (suc fuel) t [] w = w
  ground_loop-IsRest (suc fuel) t (b ∷ rest) w =
      let p = b ∷ rest in
      let j = span_length is_printable p in
      let run = take j p in
      let d = decode_rune p in
      if-IsRest (is_printable b) _ _
        (λ _.
          ground_loop-IsRest fuel (forward (record t { screen = print_ascii (t.screen) run }) run)
            (drop j p)
            (forward-IsTerm (record t { screen = print_ascii (t.screen) run }) run
              (print_ascii-IsScreen t.screen run w)))
        λ _.
          if-IsRest (b == esc) _ _ (λ _. w)
            λ _.
              if-IsRest (ltb b 0x20) _ _
                (λ _. ground_loop-IsRest fuel (control t b) rest (control-IsTerm t b w))
                λ _.
                  if-IsRest (b == 0x7F) _ _
                    (λ _.
                      ground_loop-IsRest fuel (forward t (b ∷ [])) rest
                        (forward-IsTerm t (b ∷ []) w))
                    λ _.
                      if-IsRest (not (full_rune p)) _ _ (λ _. w)
                        (λ _.
                          ground_loop-IsRest fuel (put_rune u t d.0 (take d.1 p)) (drop d.1 p)
                            (put_rune-IsTerm t d.0 (take d.1 p) w))

  ground_bytes-IsRest : (t : Term) (p : List ℕ) → IsTerm t → IsRest (ground_bytes u t p)
  unfolding ground_bytes
  ground_bytes-IsRest t p w =
      let r = finish_rune u (suc (length t.ubuf)) t p in
      let v = finish_rune-IsRest (suc (length t.ubuf)) t p w in
      if-IsRest (ltb 0 (length (r.0).ubuf)) _ _ (λ _. v)
        (λ _. ground_loop-IsRest (length r.1) r.0 r.1 v)

  round_from-IsRest :
      (st : PState) (t : Term) (b : ℕ) (rest : List ℕ)
      → IsTerm t
      → IsRest (elim st [
        | in_ground ↦ ground_bytes u t (b ∷ rest)
        | in_string ↦ string_bytes t (b ∷ rest)
        | _ ↦ let (t', consumed) = step t b in (t', if consumed then rest else b ∷ rest)
      ])
  round_from-IsRest in_ground t b rest w = ground_bytes-IsRest t (b ∷ rest) w
  round_from-IsRest in_esc t b rest w = step-IsStep t b w
  round_from-IsRest in_esc_inter t b rest w = step-IsStep t b w
  round_from-IsRest in_csi t b rest w = step-IsStep t b w
  round_from-IsRest in_string t b rest w = string_bytes-IsRest t (b ∷ rest) w
  round_from-IsRest in_string_esc t b rest w = step-IsStep t b w

  feed_round-IsRest : (t : Term) (p : List ℕ) → IsTerm t → IsRest (feed_round u t p)
  unfolding feed_round
  feed_round-IsRest t [] w = w
  feed_round-IsRest t (b ∷ rest) w = round_from-IsRest t.state t b rest w

  feed_loop-IsRest : (fuel : ℕ) (t : Term) (p : List ℕ) → IsTerm t → IsRest (feed_loop u fuel t p)
  unfolding feed_loop
  feed_loop-IsRest zero t p w = w
  feed_loop-IsRest (suc fuel) t [] w = w
  feed_loop-IsRest (suc fuel) t (b ∷ rest) w =
      let r = feed_round u t (b ∷ rest) in
      feed_loop-IsRest fuel r.0 r.1 (feed_round-IsRest t (b ∷ rest) w)

  -- On a well-formed screen, whatever the state of the parser and whatever its buffers hold, any
  -- bytes that are fed leave a well-formed screen: both buffers have the size of the screen, no
  -- row holds half of a wide glyph, the cursor and the scroll region lie inside the screen, a wrap
  -- is pending in the last column only, the tab stops match the columns, the invoked character set
  -- exists, and the history is a ring within its limit.
  pub feed-IsScreen : (t : Term) (p : List ℕ) → IsScreen t.screen → IsScreen (feed u t p).screen
  unfolding feed
  feed-IsScreen t p w =
      feed_loop-IsRest (3 * length p + 3) _ p (written-IsScreen t.screen _ [] [] _ _ w)
