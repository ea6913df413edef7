-- ===== src/Vt/Parser/Chunks.antt =====
-- String content that arrives in chunks.
use mathlib.Core.List.{append-nil, append_assoc}
use pairmux.Prelude.{ℕ, ◌≡◌, refl, List, [], ◌∷◌, ◌++◌, arith, length-append}
use pairmux.Vt.Parser.{Term, string_append}

-- From any state, appending two pieces of string content one after the other is appending them at
-- once: the same bytes are held or forwarded, whether or not they outgrow the limit.
pub string_append-append :
    (t : Term) (a b : List ℕ) → string_append t (a ++ b) ≡ string_append (string_append t a) b
unfolding string_append
string_append-append t [] b = refl
string_append-append t (c ∷ a) [] = rw (append-nil a) refl
string_append-append t (c ∷ a) (d ∷ b) =
    let out = (t.screen).out in
    ground (
      arith,
      append_assoc out (c ∷ a) (d ∷ b),
      append_assoc t.seq (c ∷ a) (d ∷ b),
      append_assoc out t.seq ((c ∷ a) ++ (d ∷ b)),
      append_assoc out (t.seq ++ (c ∷ a)) (d ∷ b),
      length-append t.seq (c ∷ a),
      length-append (c ∷ a) (d ∷ b),
    )
