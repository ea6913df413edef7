-- ===== src/Detect/Watch/Correlated.antt =====
-- In hooks mode, the marks of a poll complete a command by the first D behind the first C.
use pairmux.Prelude.{
  ℕ, ◌≡◌, refl, ap, ◌∙◌, List, [], ◌∷◌, Option, none, some, Bool, true, false, not, ◌&&◌, ltb,
  if◌then◌else◌, arith, if_intro,
}
use pairmux.Detect.Outcome.{RunResult, done_result}
use pairmux.Detect.Scanner.{
  Mark, MarkKind, mark_a, mark_b, mark_c, mark_d, mark_sentinel, mark_boundary,
}
use pairmux.Detect.Watch.{
  Watcher, BoundedSentinel, is_kind, hold, correlate, watch_behind, watch_mark, watch_next,
  watch_marks,
}

-- The first D at or behind an offset.
unfoldable pub first_d : ℕ → List Mark → Option Mark
first_d from [] = none
first_d from (m ∷ ms) =
    let rest = first_d from ms in
    if not (ltb m.start from) && is_kind m.kind mark_d then some m else rest

-- The first D behind the first C, both at or behind an offset.
unfoldable pub first_correlated : ℕ → List Mark → Option Mark
first_correlated from [] = none
first_correlated from (m ∷ ms) =
    let later = first_d from ms in
    let rest = first_correlated from ms in
    if not (ltb m.start from) && is_kind m.kind mark_c then later else rest

unfoldable pub done_of : Option Mark → Option RunResult
done_of none = none
done_of (some m) = some (done_result m)

-- A watcher of a terminal with hooks.
pub record IsHooks (w : Watcher) : Type 0 where
  pub requires : w.require_c ≡ true
  pub unbounded : w.bounded ≡ none

watch_behind-hooks :
    (w : Watcher) (b : Option BoundedSentinel) (m : Mark) (now : ℕ)
    → b ≡ none
    → w.require_c ≡ true
    → watch_behind w b m now ≡ correlate m.kind w m now
unfolding watch_behind
watch_behind-hooks w (some b) m now e h = cc
watch_behind-hooks w none m now e h =
    if_intro (λ r. r ≡ correlate m.kind w m now) (not w.require_c) _ _ (λ t. absurd (ground arith))
      (λ _. refl)

watch_mark-hooks :
    (w : Watcher) (m : Mark) (now : ℕ)
    → IsHooks w
    → watch_mark w m now ≡ (if ltb m.start w.from then (w, none) else correlate m.kind w m now)
unfolding watch_mark
watch_mark-hooks w m now h =
    ap (λ (r : Watcher × Option RunResult). if ltb m.start w.from then (w, none) else r)
      (watch_behind-hooks w w.bounded m now h.unbounded h.requires)

-- Behind a C, the first D is the completion.
correlate-seen :
    (k : MarkKind) (w : Watcher) (m : Mark) (now : ℕ)
    → w.seen_c ≡ true
    → correlate k w m now ≡ (w, if is_kind k mark_d then some (done_result m) else none)
unfolding correlate is_kind
correlate-seen mark_a w m now s = refl
correlate-seen mark_b w m now s = refl
correlate-seen mark_c w m now s =
    let same : (if w.seen_c then w else record w { seen_c = true; held_d = none }) ≡ w =
      if_intro (λ (x : Watcher). x ≡ w) w.seen_c _ _ (λ _. refl) (λ e. absurd (ground arith)) in
    ap {B = Watcher × Option RunResult} (λ (x : Watcher). (x, none)) same
correlate-seen mark_d w m now s =
    if_intro (λ (r : Watcher × Option RunResult). r ≡ (w, some (done_result m))) w.seen_c _ _
      (λ _. refl) (λ e. absurd (ground arith))
correlate-seen mark_sentinel w m now s = refl
correlate-seen mark_boundary w m now s = refl

watch_mark-seen :
    (w : Watcher) (m : Mark) (now : ℕ)
    → IsHooks w
    → w.seen_c ≡ true
    → watch_mark w m now ≡ (
      w,
      if not (ltb m.start w.from) && is_kind m.kind mark_d then some (done_result m) else none,
    )
watch_mark-seen w m now h s =
    watch_mark-hooks w m now h
    ∙ if_intro
        (λ (r : Watcher × Option RunResult). r ≡ (
          w,
          if not (ltb m.start w.from) && is_kind m.kind mark_d then some (done_result m) else none,
        ))
        (ltb m.start w.from) _ _ (λ e. rw e refl) (λ e. rw e (correlate-seen m.kind w m now s))

seen :
    (w : Watcher) (ms : List Mark) (now : ℕ)
    → IsHooks w
    → w.seen_c ≡ true
    → (watch_marks w ms now).1 ≡ done_of (first_d w.from ms)
unfolding watch_marks watch_next first_d done_of
seen w [] now h s = refl
seen w (m ∷ ms) now h s =
    let ih = seen w ms now h s in
    rw (watch_mark-seen w m now h s) (
      if_intro
        (λ (r : Option RunResult).
          (watch_next r w (watch_marks w ms now)).1
          ≡ done_of (
              if not (ltb m.start w.from) && is_kind m.kind mark_d
              then some m
              else first_d w.from ms))
        (not (ltb m.start w.from) && is_kind m.kind mark_d) _ _ (λ e. rw e refl) (λ e. rw e ih))

-- Before a C, no mark completes the command, and a C alone is remembered as one.
record Unseen (w : Watcher) (is_c : Bool) (r : Watcher × Option RunResult) : Type 0 where
  pub goes_on : r.1 ≡ none
  pub same_kind : IsHooks r.0
  pub same_from : r.0.from ≡ w.from
  pub remembers : r.0.seen_c ≡ is_c

unchanged : (w : Watcher) → IsHooks w → w.seen_c ≡ false → Unseen w false (w, none)
unchanged w h s = record { goes_on = refl; same_kind = h; same_from = refl; remembers = s }

held-Unseen :
    (w : Watcher) (o : Option Mark) (m : Mark) (now : ℕ)
    → IsHooks w
    → w.seen_c ≡ false
    → Unseen w false (hold w o m now, none)
unfolding hold
held-Unseen w none m now h s = record {
  goes_on = refl;
  same_kind = record { requires = h.requires; unbounded = h.unbounded };
  same_from = refl;
  remembers = s;
}
held-Unseen w (some d) m now h s = unchanged w h s

correlate-Unseen :
    (k : MarkKind) (w : Watcher) (m : Mark) (now : ℕ)
    → IsHooks w
    → w.seen_c ≡ false
    → Unseen w (is_kind k mark_c) (correlate k w m now)
unfolding correlate is_kind
correlate-Unseen mark_a w m now h s = unchanged w h s
correlate-Unseen mark_b w m now h s = unchanged w h s
correlate-Unseen mark_c w m now h s =
    if_intro (λ (x : Watcher). Unseen w true (x, none)) w.seen_c _ _ (λ e. absurd (ground arith))
      (λ _. record {
        goes_on = refl;
        same_kind = record { requires = h.requires; unbounded = h.unbounded };
        same_from = refl;
        remembers = refl;
      })
correlate-Unseen mark_d w m now h s =
    if_intro (Unseen w false) w.seen_c _ _ (λ e. absurd (ground arith))
      (λ _. held-Unseen w w.held_d m now h s)
correlate-Unseen mark_sentinel w m now h s = unchanged w h s
correlate-Unseen mark_boundary w m now h s = unchanged w h s

watch_mark-Unseen :
    (w : Watcher) (m : Mark) (now : ℕ)
    → IsHooks w
    → w.seen_c ≡ false
    → Unseen w (not (ltb m.start w.from) && is_kind m.kind mark_c) (watch_mark w m now)
watch_mark-Unseen w m now h s = rw (watch_mark-hooks w m now h) (
    if_intro (Unseen w (not (ltb m.start w.from) && is_kind m.kind mark_c)) (ltb m.start w.from) _ _
      (λ e. rw e (unchanged w h s)) (λ e. rw e (correlate-Unseen m.kind w m now h s)))

-- For a watcher in hooks mode that has not seen a C, the marks of a poll complete the command
-- exactly if a D follows the first C, both at or behind the baseline, and the result is that of
-- the first such D.
pub watch_marks-correlated :
    (w : Watcher) (ms : List Mark) (now : ℕ)
    → IsHooks w
    → w.seen_c ≡ false
    → (watch_marks w ms now).1 ≡ done_of (first_correlated w.from ms)
unfolding watch_marks watch_next first_correlated done_of
watch_marks-correlated w [] now h s = refl
watch_marks-correlated w (m ∷ ms) now h s =
    let step = watch_mark-Unseen w m now h s in
    let next : Watcher = (watch_mark w m now).0 in
    rw step.goes_on (
      by_test (not (ltb m.start w.from) && is_kind m.kind mark_c) next step.same_from
        (λ e. seen next ms now step.same_kind (step.remembers ∙ e))
        (λ e. watch_marks-correlated next ms now step.same_kind (step.remembers ∙ e)))
  where
    by_test :
        (b : Bool) (next : Watcher)
        → next.from ≡ w.from
        → (b ≡ true → (watch_marks next ms now).1 ≡ done_of (first_d next.from ms))
        → (b ≡ false → (watch_marks next ms now).1 ≡ done_of (first_correlated next.from ms))
        → (watch_marks next ms now).1
          ≡ done_of (if b then first_d w.from ms else first_correlated w.from ms)
    by_test true next f h k = h refl ∙ ap (λ n. done_of (first_d n ms)) f
    by_test false next f h k = k refl ∙ ap (λ n. done_of (first_correlated n ms)) f
