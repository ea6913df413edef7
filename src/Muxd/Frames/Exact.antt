-- ===== src/Muxd/Frames/Exact.antt =====
-- What is written on the socket is read back, and a frame that is cut off is none.
use pairmux.Prelude.{
  ℕ, ◌^◌, ◌≤◌, ◌<◌, ◌≡◌, ◌∙◌, refl, ap, List, [], ◌∷◌, ◌++◌, some, false, ltb, length, take, drop,
  arith, length-append, take-append_length, drop-append_length, Bool-cases, inl, inr,
}
use pairmux.Muxd.Frames.{
  max_message, max_frame, put32, get32, read_full, ended, got, with_read, read_body, write_msg,
  read_msg, encode_frame, read_frame, put16, get16, resize_payload, parse_resize,
}

get32-put32 : (n : ℕ) → n < 2 ^ 32 → get32 (put32 n) ≡ n
unfolding get32 put32
get32-put32 n h = omega arith

-- Reading what stands at the front.
read_full-append : (xs ys : List ℕ) → read_full (length xs) (xs ++ ys) ≡ some (xs, ys)
unfolding read_full
read_full-append xs ys =
    let long : ltb (length (xs ++ ys)) (length xs) ≡ false = ground (arith, length-append xs ys) in
    rw (long, take-append_length xs ys, drop-append_length xs ys) refl

-- A length that is within the limit, in front of its bytes and more.
read_body-append {ℓ} :
    {A : Type ℓ} (limit : ℕ) (f : List ℕ → A) (b rest : List ℕ)
    → length b ≤ limit
    → read_body (length b) limit f (b ++ rest) ≡ got (f b) rest
unfolding read_body with_read
read_body-append limit f b rest h =
    let small : ltb limit (length b) ≡ false = ground arith in
    rw (small, read_full-append b rest) refl

-- If a payload has at most 16 MiB, the frame of it followed by any bytes is read as its type and
-- its payload, with those bytes left in the stream.
pub read_frame-encode_frame :
    (typ : ℕ) (payload rest : List ℕ)
    → length payload ≤ max_frame
    → read_frame (encode_frame typ payload ++ rest) ≡ got (typ, payload) rest
unfolding read_frame encode_frame put32
read_frame-encode_frame typ payload rest h =
    let hdr : List ℕ = typ ∷ put32 (length payload) in
    rw (read_full-append hdr (payload ++ rest)) (
      unfold with_read in
      rw (get32-put32 (length payload) (omega arith))
        (read_body-append max_frame (λ b. (typ, b)) payload rest h))

-- A message that can be written is read as it was, with the bytes behind it left in the stream.
read_msg-write_msg :
    (body written rest : List ℕ)
    → write_msg body ≡ some written
    → read_msg (written ++ rest) ≡ got body rest
unfolding read_msg write_msg put32
read_msg-write_msg body written rest h = elim (Bool-cases (ltb max_message (length body))) [
  | inl large ↦ absurd (ground arith)
  | inr small ↦
      let sent : put32 (length body) ++ body ≡ written = ground arith in
      rw (← sent) (
        rw (read_full-append (put32 (length body)) (body ++ rest)) (
          unfold with_read in
          rw (get32-put32 (length body) (ground arith))
            (read_body-append max_message (λ b. b) body rest (ground arith))))
]

-- A part of a payload is not read in its place.
read_body_cut :
    {A : Type 0} (n limit : ℕ) (f : List ℕ → A) (b : List ℕ)
    → length b < n
    → n ≤ limit
    → read_body n limit f b ≡ ended
unfolding read_body read_full with_read
read_body_cut n limit f b h k = ground arith

put32_parts : (n : ℕ) (p : List ℕ) → (take 4 (put32 n ++ p) ≡ put32 n) × (drop 4 (put32 n ++ p) ≡ p)
unfolding put32
put32_parts n p = (refl, refl)

-- A stream that ends within the header.
read_frame_short : (r : List ℕ) → length r < 5 → read_frame r ≡ ended
unfolding read_frame read_full with_read
read_frame_short r h = ground arith

-- If a payload has at most 16 MiB, a stream that ends anywhere before the end of its frame gives
-- the end of the stream, and never a frame.
pub read_frame_cut :
    (typ : ℕ) (payload cut missing : List ℕ)
    → length payload ≤ max_frame
    → cut ++ missing ≡ encode_frame typ payload
    → 0 < length missing
    → read_frame cut ≡ ended
unfolding read_frame encode_frame
read_frame_cut typ payload (a ∷ b ∷ c ∷ d ∷ e ∷ cut) missing h same p =
    let n : ℕ = length payload in
    let len : b ∷ c ∷ d ∷ e ∷ [] ≡ put32 n =
      ap (λ (l : List ℕ). take 4 (drop 1 l)) same ∙ (put32_parts n payload).0 in
    let rest : cut ++ missing ≡ payload = ap (drop 5) same ∙ (put32_parts n payload).1 in
    let short : length cut < n = omega (arith, ap length rest, length-append cut missing) in
    rw (read_full-append (a ∷ b ∷ c ∷ d ∷ e ∷ []) cut) (
      unfold with_read in
      rw (ap get32 len ∙ get32-put32 n (omega arith))
        (read_body_cut n max_frame (λ p. (a, p)) cut short h))
read_frame_cut typ payload [] missing h same p = read_frame_short _ (omega arith)
read_frame_cut typ payload (a ∷ []) missing h same p = read_frame_short _ (omega arith)
read_frame_cut typ payload (a ∷ b ∷ []) missing h same p = read_frame_short _ (omega arith)
read_frame_cut typ payload (a ∷ b ∷ c ∷ []) missing h same p = read_frame_short _ (omega arith)
read_frame_cut typ payload (a ∷ b ∷ c ∷ d ∷ []) missing h same p = read_frame_short _ (omega arith)

-- If both sizes are below 2^16, they are read as they were written.
parse_resize-resize_payload :
    (cols rows : ℕ)
    → cols < 2 ^ 16
    → rows < 2 ^ 16
    → parse_resize (resize_payload cols rows) ≡ some (cols, rows)
unfolding parse_resize resize_payload get16 put16
parse_resize-resize_payload cols rows h k = ground arith
