-- ===== src/Tests/Muxd.antt =====
-- Runs of the frames on the socket: the properties at concrete inputs.
use pairmux.Prelude.{◌≡◌, refl, [], ◌∷◌, ◌++◌, arith}
use pairmux.Bytes.{codes}
use pairmux.Muxd.Frames.{encode_frame, read_frame, got, ended, put32}
use pairmux.Muxd.Frames.Exact.{read_frame-encode_frame, read_frame_cut}

read_frame-encode_frame_example :
    read_frame (encode_frame b'o' (codes "hello") ++ encode_frame b'd' [])
    ≡ got (b'o', codes "hello") (encode_frame b'd' [])
read_frame-encode_frame_example =
    read_frame-encode_frame b'o' (codes "hello") (encode_frame b'd' []) (omega arith)

-- The stream ends in the middle of the payload.
read_frame_cut_example : read_frame (b'o' ∷ 0 ∷ 0 ∷ 0 ∷ 5 ∷ codes "he") ≡ ended
unfolding encode_frame put32
read_frame_cut_example =
    read_frame_cut b'o' (codes "hello") (b'o' ∷ 0 ∷ 0 ∷ 0 ∷ 5 ∷ codes "he") (codes "llo")
      (omega arith) refl (omega arith)
