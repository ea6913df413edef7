-- ===== src/Vt/Parser/Leftover.antt =====
-- What the ground state and the string content leave of the input.
use pairmux.Prelude.{
  ℕ, zero, suc, ◌-◌, ◌≤◌, ◌<◌, ◌≡◌, refl, sym, List, [], ◌∷◌, ◌++◌, Bool, true, false, not, ltb,
  leb, ◌==◌, if_intro, arith, ◌⊎◌, inl, inr, length, take, drop, length-drop, length-append,
  length-take,
}
use pairmux.Vt.Dispatch.{span_length}
use pairmux.Vt.Parser.{Term, control, string_append, forward}
use pairmux.Vt.Parser.Loop.{
  is_content, end_of_content, string_bytes, is_printable, put_rune, finish_rune, ground_loop,
  ground_bytes,
}
use pairmux.Vt.Print.{print_ascii}
use pairmux.Vt.Render.{esc}
use pairmux.Vt.Utf8.{full_rune, decode_rune}
use pairmux.Vt.Utf8.Sizes.{decode_rune_size, full_rune-false}
use pairmux.Vt.Width.{Unicode}

end_of_content_lt : (t : Term) (p : List ℕ) → length (end_of_content t p).1 ≤ length p - 1
unfolding end_of_content
end_of_content_lt t [] = omega arith
end_of_content_lt t (c ∷ rest) = omega arith

pub string_bytes_lt :
    (t : Term) (b : ℕ) (rest : List ℕ) → length (string_bytes t (b ∷ rest)).1 < suc (length rest)
unfolding string_bytes
string_bytes_lt t b rest =
    let j = span_length is_content (b ∷ rest) in
    let h = end_of_content_lt (string_append t (take j (b ∷ rest))) (drop j (b ∷ rest)) in
    let l = length-drop j (b ∷ rest) in omega (arith, h, l)

span_length_pos :
    (ok : ℕ → Bool) (b : ℕ) (rest : List ℕ) → ok b ≡ true → 1 ≤ span_length ok (b ∷ rest)
unfolding span_length
span_length_pos ok b rest e = rw e (omega arith)

drop_lt : (n b : ℕ) (rest : List ℕ) → 1 ≤ n → length (drop n (b ∷ rest)) ≤ length rest
drop_lt n b rest pos = let h = length-drop n (b ∷ rest) in omega (arith, h, pos)

not-true : (b : Bool) → not b ≡ true → b ≡ false
not-true true e = sym e
not-true false e = refl

module _ (u : Unicode) where
  -- What `finish_rune` leaves: no more than it got, and nothing if the rune is still incomplete.
  IsFinished : List ℕ → Term × List ℕ → Type 0
  IsFinished p r = (length r.1 ≤ length p) × ((length (r.0).ubuf ≡ 0) ⊎ (length r.1 ≡ 0))

  incomplete_empty :
      (ubuf p : List ℕ)
      → full_rune (ubuf ++ take (4 - length ubuf) p) ≡ false
      → length (drop (4 - length ubuf) p) ≡ 0
  incomplete_empty ubuf p e =
      let short = full_rune-false _ e in
      let a = length-append ubuf (take (4 - length ubuf) p) in
      let k = length-take (4 - length ubuf) p in
      let d = length-drop (4 - length ubuf) p in omega (arith, short, a, k, d)

  decoded_pos : (p : List ℕ) → 0 < length p → 1 ≤ (decode_rune p).1
  decoded_pos [] lt = absurd (omega (arith, lt))
  decoded_pos (b ∷ rest) lt = (decode_rune_size b rest).0

  finish_rune-IsFinished :
      (fuel : ℕ) (t : Term) (p : List ℕ)
      → length t.ubuf < fuel
      → IsFinished p (finish_rune u fuel t p)
  unfolding finish_rune IsFinished
  finish_rune-IsFinished zero t p lt = absurd (omega (arith, lt))
  finish_rune-IsFinished (suc fuel) t p lt =
      let n = length t.ubuf in
      let bytes = t.ubuf ++ take (4 - n) p in
      let d = decode_rune bytes in
      let t' = put_rune u t d.0 (take d.1 bytes) in
      let shorter = length-drop d.1 t.ubuf in
      let grown = length-append t.ubuf (take (4 - n) p) in
      if_intro (IsFinished p) (n == 0) _ _ (λ e. (omega arith, inl (ground (arith, e))))
        λ ne.
          if_intro (IsFinished p) (not (full_rune bytes)) _ _
            (λ e. (
              let h = length-drop (4 - n) p in omega (arith, h),
              inr (incomplete_empty t.ubuf p (not-true _ e)),
            ))
            λ _.
              if_intro (IsFinished p) (leb n d.1) _ _
                (λ _. (let h = length-drop (d.1 - n) p in omega (arith, h), inl refl))
                (λ _.
                  let some_left : 0 < length t.ubuf = ground (arith, ne) in
                  let pos = decoded_pos bytes (omega (arith, grown, some_left)) in
                  finish_rune-IsFinished fuel (record t' { ubuf = drop d.1 t.ubuf }) p
                    (omega (arith, lt, pos, shorter, some_left)))

  ground_loop_lt :
      (fuel : ℕ) (t : Term) (p : List ℕ)
      → length p ≤ fuel
      → length (ground_loop u fuel t p).1 ≤ length p - 1
  unfolding ground_loop
  ground_loop_lt zero t p le = omega (arith, le)
  ground_loop_lt (suc fuel) t [] le = omega arith
  ground_loop_lt (suc fuel) t (b ∷ rest) le =
      let p = b ∷ rest in
      let j = span_length is_printable p in
      let run = take j p in
      let d = decode_rune p in
      let short : (r : Term × List ℕ) → Type 0 = λ r. length r.1 ≤ length p - 1 in
      let size = decode_rune_size b rest in
      let again : (t' : Term) (n : ℕ) → 1 ≤ n → short (ground_loop u fuel t' (drop n p)) =
        λ t' n pos.
          let l = drop_lt n b rest pos in
          let h = ground_loop_lt fuel t' (drop n p) (omega (arith, le, l)) in omega (arith, h, l) in
      if_intro short (is_printable b) _ _
        (λ e.
          again (forward (record t { screen = print_ascii (t.screen) run }) run) j
            (span_length_pos is_printable b rest e))
        λ _.
          if_intro short (b == esc) _ _ (λ _. omega arith)
            λ _.
              if_intro short (ltb b 0x20) _ _ (λ _. again (control t b) 1 (omega arith))
                λ _.
                  if_intro short (b == 0x7F) _ _ (λ _. again (forward t (b ∷ [])) 1 (omega arith))
                    λ _.
                      if_intro short (not (full_rune p)) _ _ (λ _. omega arith)
                        (λ _. again (put_rune u t d.0 (take d.1 p)) d.1 size.0)

  pub ground_bytes_lt :
      (t : Term) (b : ℕ) (rest : List ℕ)
      → (length (ground_bytes u t (b ∷ rest)).1 ≡ 0)
        ⊎ (length (ground_bytes u t (b ∷ rest)).1 < suc (length rest))
  unfolding ground_bytes IsFinished
  ground_bytes_lt t b rest =
      let r = finish_rune u (suc (length t.ubuf)) t (b ∷ rest) in
      let h = finish_rune-IsFinished (suc (length t.ubuf)) t (b ∷ rest) (omega arith) in
      let left : (q : Term × List ℕ) → Type 0 =
        λ q. (length q.1 ≡ 0) ⊎ (length q.1 < suc (length rest)) in
      if_intro left (ltb 0 (length (r.0).ubuf)) _ _
        (λ e. elim h.1 [ inl none_left ↦ absurd (ground (arith, e, none_left)) | inr z ↦ inl z ])
        (λ _.
          let k = ground_loop_lt (length r.1) r.0 r.1 (omega arith) in inr (omega (arith, k, h.0)))
