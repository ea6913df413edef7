-- ===== src/Shape/Escapes/Hidden.antt =====
-- Sequences that leave nothing in the shaped text.
use pairmux.Prelude.{
  ℕ, zero, suc, ◌<◌, ◌≡◌, refl, ap, ◌∙◌, List, [], ◌∷◌, ◌++◌, some, Bool, true, within, length,
  arith, ◌==◌, ◌||◌, ltb, if_intro,
}
use pairmux.Bytes.{all_bytes, has_prefix}
use pairmux.Core.{sentinel_boundary}
use pairmux.Detect.Scanner.Emitted.{is_payload}
use pairmux.Shape.Escapes.{
  skip_csi, skip_string, string_payload_cap, or_abandon, after_esc, strip_ansi,
}
use pairmux.Shape.Escapes.Removed.{strip_ansi-cons}

skip_string-payload :
    (cap : ℕ) (p rest : List ℕ)
    → all_bytes is_payload p ≡ true
    → length p < cap
    → skip_string cap (p ++ (0x07 ∷ rest)) ≡ some rest
unfolding skip_string all_bytes
skip_string-payload zero p rest h k = absurd (omega arith)
skip_string-payload (suc cap) [] [] h k = refl
skip_string-payload (suc cap) [] (c ∷ cs) h k = refl
skip_string-payload (suc cap) (x ∷ []) rest h k =
    let later = skip_string-payload cap [] rest refl (omega arith) in ground (arith, later)
skip_string-payload (suc cap) (x ∷ y ∷ ys) rest h k =
    let later = skip_string-payload cap (y ∷ ys) rest (ground arith) (omega arith) in
    ground (arith, later)

-- An OSC whose payload holds neither BEL nor ESC and fewer than 4096 bytes, ended by BEL, leaves
-- nothing in the text, whatever follows it.
strip_ansi-osc :
    (p rest : List ℕ)
    → all_bytes is_payload p ≡ true
    → length p < string_payload_cap
    → strip_ansi (0x1B ∷ b']' ∷ (p ++ (0x07 ∷ rest))) ≡ strip_ansi rest
unfolding after_esc or_abandon has_prefix
strip_ansi-osc p rest h k =
    strip_ansi-cons 0x1B (b']' ∷ (p ++ (0x07 ∷ rest)))
    ∙ rw (skip_string-payload string_payload_cap p rest h k) refl

-- A parameter or intermediate byte of a control sequence.
abbrev is_param : ℕ → Bool
is_param c = within 0x20 0x3F c

skip_csi-params :
    (p : List ℕ) (final : ℕ) (rest : List ℕ)
    → all_bytes is_param p ≡ true
    → within 0x40 0x7E final ≡ true
    → skip_csi (p ++ (final ∷ rest)) ≡ some rest
unfolding skip_csi all_bytes
skip_csi-params [] final rest h k = ground arith
skip_csi-params (x ∷ xs) final rest h k =
    let later = skip_csi-params xs final rest (ground arith) k in ground (arith, later)

-- A complete control sequence leaves nothing in the text.
strip_ansi-csi :
    (p : List ℕ) (final : ℕ) (rest : List ℕ)
    → all_bytes is_param p ≡ true
    → within 0x40 0x7E final ≡ true
    → strip_ansi (0x1B ∷ b'[' ∷ (p ++ (final ∷ rest))) ≡ strip_ansi rest
unfolding after_esc or_abandon has_prefix
strip_ansi-csi p final rest h k =
    strip_ansi-cons 0x1B (b'[' ∷ (p ++ (final ∷ rest))) ∙ rw (skip_csi-params p final rest h k) refl

-- A byte of text that is kept.
abbrev pub is_kept : ℕ → Bool
is_kept c = within 0x20 0x7E c || ((c == 0x0A) || (c == 0x09))

strip_ansi-kept :
    (front b : List ℕ)
    → all_bytes is_kept front ≡ true
    → strip_ansi (front ++ b) ≡ front ++ strip_ansi b
unfolding all_bytes has_prefix
strip_ansi-kept [] b h = refl
strip_ansi-kept (c ∷ cs) b h =
    strip_ansi-cons c (cs ++ b)
    ∙ if_intro (λ r. r ≡ c ∷ (cs ++ strip_ansi b)) (has_prefix (c ∷ (cs ++ b)) sentinel_boundary) _
        _ (λ e. absurd (ground (arith, e)))
        (λ _.
          if_intro (λ r. r ≡ c ∷ (cs ++ strip_ansi b)) (c == 0x1B) _ _
            (λ e. absurd (ground (arith, e)))
            (λ _.
              if_intro (λ r. r ≡ c ∷ (cs ++ strip_ansi b)) (c == 0x0A || c == 0x09) _ _
                (λ _. ap (◌∷◌ c) (strip_ansi-kept cs b (ground arith)))
                (λ n.
                  if_intro (λ r. r ≡ c ∷ (cs ++ strip_ansi b)) (ltb c 0x20) _ _
                    (λ e. absurd (ground (arith, e, n)))
                    (λ _. ap (◌∷◌ c) (strip_ansi-kept cs b (ground arith))))))

skip_string-st :
    (cap : ℕ) (p rest : List ℕ)
    → all_bytes is_payload p ≡ true
    → length p < cap
    → skip_string cap (p ++ (0x1B ∷ 0x5C ∷ rest)) ≡ some rest
unfolding skip_string all_bytes
skip_string-st zero p rest h k = absurd (omega arith)
skip_string-st (suc cap) [] rest h k = refl
skip_string-st (suc cap) (x ∷ []) rest h k =
    let later = skip_string-st cap [] rest refl (omega arith) in ground (arith, later)
skip_string-st (suc cap) (x ∷ y ∷ ys) rest h k =
    let later = skip_string-st cap (y ∷ ys) rest (ground arith) (omega arith) in
    ground (arith, later)

strip_ansi-st :
    (p rest : List ℕ)
    → all_bytes is_payload p ≡ true
    → length p < string_payload_cap
    → strip_ansi (0x1B ∷ b']' ∷ (p ++ (0x1B ∷ 0x5C ∷ rest))) ≡ strip_ansi rest
unfolding after_esc or_abandon has_prefix
strip_ansi-st p rest h k =
    strip_ansi-cons 0x1B (b']' ∷ (p ++ (0x1B ∷ 0x5C ∷ rest)))
    ∙ rw (skip_string-st string_payload_cap p rest h k) refl

strip_ansi-boundary : (rest : List ℕ) → strip_ansi (sentinel_boundary ++ rest) ≡ strip_ansi rest
unfolding has_prefix
strip_ansi-boundary rest =
    strip_ansi-cons 0xE2 (0x80 ∷ 0x8B ∷ 0xE2 ∷ 0x80 ∷ 0x8B ∷ 0xE2 ∷ 0x80 ∷ 0x8B ∷ rest) ∙ refl

-- Behind any printable ASCII text with line feeds and tabs, an OSC whose payload holds neither BEL
-- nor ESC and fewer than 4096 bytes, ended by BEL or by ST, and the text of a boundary leave
-- nothing: what is left is that text and what is left of the rest.
pub strip_ansi-mark :
    (front p rest : List ℕ)
    → all_bytes is_kept front ≡ true
    → all_bytes is_payload p ≡ true
    → length p < string_payload_cap
    → (strip_ansi (front ++ (0x1B ∷ b']' ∷ (p ++ (0x07 ∷ rest)))) ≡ front ++ strip_ansi rest)
      × ((strip_ansi (front ++ (0x1B ∷ b']' ∷ (p ++ (0x1B ∷ 0x5C ∷ rest))))
            ≡ front ++ strip_ansi rest)
          × (strip_ansi (front ++ (sentinel_boundary ++ rest)) ≡ front ++ strip_ansi rest))
strip_ansi-mark front p rest f h k = (
  strip_ansi-kept front _ f ∙ ap (λ x. front ++ x) (strip_ansi-osc p rest h k),
  (
    strip_ansi-kept front _ f ∙ ap (λ x. front ++ x) (strip_ansi-st p rest h k),
    strip_ansi-kept front _ f ∙ ap (λ x. front ++ x) (strip_ansi-boundary rest),
  ),
)
