-- ===== src/Detect/Prompt/Evidence.antt =====
-- What each verdict on a terminal rests on.
use pairmux.Prelude.{
  ℕ, ◌≤◌, ◌≡◌, ◌⊎◌, inl, inr, refl, List, Bool, true, false, not, ◌&&◌, leb, if◌then◌else◌, arith,
  if_intro,
}
use pairmux.Detect.Prompt.{
  TtyState, FgWait, Wording, Prompt, PromptKind, kind_none, kind_secret, kind_open, kind_inferred,
  is_secret, raw_input, line_oriented, is_parked, is_working, looks_secret, classify, raw_quiet,
  infer_quiet,
}

-- The evidence for an inference: two seconds of silence, keys read one by one and a terminal that
-- waits, or ten seconds of silence behind a line that is not ended, whole lines read and a terminal
-- not found to work.
abbrev Inferred : TtyState → ℕ → Bool → FgWait → Bool → Type 0
Inferred disc quiet unterminated fg true =
    (disc.known ≡ true) × ((disc.canonical ≡ false) × ((2000 ≤ quiet) × (is_parked fg ≡ true)))
Inferred disc quiet unterminated fg false =
    (disc.known ≡ true)
    × ((disc.canonical ≡ true)
        × ((10000 ≤ quiet) × ((unterminated ≡ true) × (is_working fg ≡ false))))

-- The evidence for a kind of prompt.
abbrev Evidence :
    Wording → TtyState → List ℕ → Bool → ℕ → Bool → FgWait → PromptKind → Bool → Type 0
Evidence words disc line recognized quiet unterminated fg kind_none raw =
    (is_secret disc ≡ false) × (recognized ≡ false)
Evidence words disc line recognized quiet unterminated fg kind_secret raw =
    (is_secret disc ≡ true) ⊎ ((recognized ≡ true) × (looks_secret words line ≡ true))
Evidence words disc line recognized quiet unterminated fg kind_open raw =
    (is_secret disc ≡ false) × ((recognized ≡ true) × (looks_secret words line ≡ false))
Evidence words disc line recognized quiet unterminated fg kind_inferred raw =
    (is_secret disc ≡ false) × ((recognized ≡ false) × Inferred disc quiet unterminated fg raw)

abbrev pub IsJustified : Wording → TtyState → List ℕ → Bool → ℕ → Bool → FgWait → Prompt → Type 0
IsJustified words disc line recognized quiet unterminated fg p =
    Evidence words disc line recognized quiet unterminated fg p.kind p.raw

recognized-Evidence :
    (words : Wording) (disc : TtyState) (line : List ℕ) (recognized : Bool) (quiet : ℕ)
    (unterminated : Bool) (fg : FgWait) (secret : Bool)
    → is_secret disc ≡ false
    → recognized ≡ true
    → looks_secret words line ≡ secret
    → Evidence words disc line recognized quiet unterminated fg
        (if secret then kind_secret else kind_open)
        false
recognized-Evidence words disc line recognized quiet unterminated fg true d r e = inr (r, e)
recognized-Evidence words disc line recognized quiet unterminated fg false d r e = (d, (r, e))

-- Whatever the evidence, a verdict rests on it: a secret on the discipline or on a recognized line
-- that looks secret, an open question on a recognized line that does not while the discipline
-- shows no secret, an inference marked as raw on two seconds of silence, a terminal known to read
-- keys one by one and a program found parked, any other inference on ten seconds of silence, a
-- terminal known to read whole lines, a line that is not ended and a program not found to work,
-- and no verdict on neither a secret discipline nor a recognized line.
pub classify-IsJustified :
    (words : Wording) (disc : TtyState) (line : List ℕ) (recognized : Bool) (quiet : ℕ)
    (unterminated : Bool) (fg : FgWait)
    → IsJustified words disc line recognized quiet unterminated fg
        (classify words disc line recognized quiet unterminated fg)
unfolding classify raw_input line_oriented
classify-IsJustified words disc line recognized quiet unterminated fg =
    if_intro P (is_secret disc) _ _ (λ e. inl e)
      (λ d.
        if_intro P recognized _ _
          (λ r.
            recognized-Evidence words disc line recognized quiet unterminated fg
              (looks_secret words line) d r refl)
          (λ r.
            if_intro P (raw_input disc && (leb raw_quiet quiet && is_parked fg)) _ _
              (λ e. (d, (r, (ground arith, (ground arith, (ground arith, ground arith))))))
              (λ _.
                if_intro P
                  (line_oriented disc
                    && (leb infer_quiet quiet && (unterminated && not (is_working fg))))
                  _ _
                  (λ e. (
                    d,
                    (
                      r,
                      (ground arith, (ground arith, (ground arith, (ground arith, ground arith)))),
                    ),
                  ))
                  (λ _. (d, r)))))
  where
    P : Prompt → Type 0
    P p = IsJustified words disc line recognized quiet unterminated fg p
