-- ===== src/Muxd/Frames.antt =====
-- The messages and frames on the socket of the server, internal/muxd/proto.go: writeMsg, readMsg,
-- encodeFrame, readFrame, resizePayload and parseResize. The text of a message is the encoding that
-- encoding/json gives of it; a stream is the bytes that it still yields before its end.
pub mod Exact
use pairmux.Prelude.{
  ℕ, zero, suc, ◌+◌, ◌-◌, ◌*◌, ◌/◌, ◌%◌, ◌^◌, List, [], ◌∷◌, ◌++◌, Option, none, some, Bool, ltb,
  ◌==◌, if◌then◌else◌, length, get_or, take, drop,
}

abbrev pub max_message : ℕ
max_message = 64 * 2 ^ 20

abbrev pub max_frame : ℕ
max_frame = 16 * 2 ^ 20

-- `binary.BigEndian.PutUint16` and `PutUint32`; a larger number wraps.
unfoldable pub put16 : ℕ → List ℕ
put16 n = (n / 2 ^ 8 % 2 ^ 8) ∷ (n % 2 ^ 8) ∷ []

unfoldable pub put32 : ℕ → List ℕ
put32 n = (n / 2 ^ 24 % 2 ^ 8) ∷ (n / 2 ^ 16 % 2 ^ 8) ∷ (n / 2 ^ 8 % 2 ^ 8) ∷ (n % 2 ^ 8) ∷ []

-- `binary.BigEndian.Uint16` and `Uint32`
unfoldable pub get16 : List ℕ → ℕ
get16 b = get_or b 0 0 * 2 ^ 8 + get_or b 1 0

unfoldable pub get32 : List ℕ → ℕ
get32 b = get_or b 0 0 * 2 ^ 24 + get_or b 1 0 * 2 ^ 16 + get_or b 2 0 * 2 ^ 8 + get_or b 3 0

-- `io.ReadFull`: so many bytes and what follows them, or none when the stream ends before.
unfoldable pub read_full : ℕ → List ℕ → Option (List ℕ × List ℕ)
read_full n r = if ltb (length r) n then none else some (take n r, drop n r)

-- The outcome of a read, with the stream behind it.
pub data Read {ℓ} (A : Type ℓ) : Type ℓ where
  ended : Read A
  too_large : Read A
  got : A → List ℕ → Read A

-- What `io.ReadFull` gives, handed on.
unfoldable pub with_read {ℓ} :
    {A : Type ℓ} → Option (List ℕ × List ℕ) → (List ℕ → List ℕ → Read A) → Read A
with_read none f = ended
with_read (some (b, rest)) f = f b rest

-- The bytes of a length that has been read.
unfoldable pub read_body {ℓ} : {A : Type ℓ} → ℕ → ℕ → (List ℕ → A) → List ℕ → Read A
read_body n limit f r =
    if ltb limit n then too_large else with_read (read_full n r) (λ b rest. got (f b) rest)

-- `writeMsg`, none when the message is too large.
unfoldable pub write_msg : List ℕ → Option (List ℕ)
write_msg body = if ltb max_message (length body) then none else some (put32 (length body) ++ body)

unfoldable pub read_msg : List ℕ → Read (List ℕ)
read_msg r = with_read (read_full 4 r) (λ hdr rest. read_body (get32 hdr) max_message (λ b. b) rest)

unfoldable pub encode_frame : ℕ → List ℕ → List ℕ
encode_frame typ payload = typ ∷ (put32 (length payload) ++ payload)

unfoldable pub read_frame : List ℕ → Read (ℕ × List ℕ)
read_frame r =
    with_read (read_full 5 r)
      (λ hdr rest. read_body (get32 (drop 1 hdr)) max_frame (λ b. (get_or hdr 0 0, b)) rest)

unfoldable pub resize_payload : ℕ → ℕ → List ℕ
unfolding put16
resize_payload cols rows = put16 cols ++ put16 rows

unfoldable pub parse_resize : List ℕ → Option (ℕ × ℕ)
unfolding get16
parse_resize p = if length p == 4 then some (get16 (take 2 p), get16 (drop 2 p)) else none
