-- ===== src/Detect/Watch/Bounded.antt =====
-- A sentinel whose shell prints the boundary behind it: the marks of a poll complete a command by
-- the first boundary behind the first sentinel, with the exit code of the sentinel.
use pairmux.Prelude.{
  ℕ, ◌+◌, ◌≡◌, refl, ap, ◌∙◌, List, [], ◌∷◌, Option, none, some, Bool, true, false, not, ◌&&◌, ltb,
  leb, if◌then◌else◌, if_intro,
}
use pairmux.Detect.Outcome.{RunResult, done_at}
use pairmux.Detect.Scanner.{Mark, mark_sentinel, mark_boundary}
use pairmux.Detect.Watch.{
  Watcher, BoundedSentinel, is_kind, observe_held, observe, take_bounded, watch_behind, watch_mark,
  watch_next, watch_marks, grace_boundary,
}

-- The first boundary at or behind the offset at which the sentinel `s` ends.
unfoldable pub boundary_behind : ℕ → Mark → List Mark → Option RunResult
boundary_behind from s [] = none
boundary_behind from s (m ∷ ms) =
    let rest = boundary_behind from s ms in
    if not (ltb m.start from) && (is_kind m.kind mark_boundary && leb s.end' m.start)
    then some (done_at m s.exit_code)
    else rest

unfoldable pub bounded_done : ℕ → List Mark → Option RunResult
bounded_done from [] = none
bounded_done from (m ∷ ms) =
    let behind = boundary_behind from m ms in
    let rest = bounded_done from ms in
    if not (ltb m.start from) && is_kind m.kind mark_sentinel then behind else rest

-- The watcher holds a sentinel, or none.
pub record Holds (o : Option Mark) (w : Watcher) : Type 0 where
  pub bound : BoundedSentinel
  pub is_bounded : w.bounded ≡ some bound
  pub holds : bound.held ≡ o

watch_mark-bounded :
    (w : Watcher) (b : BoundedSentinel) (o : Option Mark) (m : Mark) (now : ℕ)
    → w.bounded ≡ some b
    → b.held ≡ o
    → watch_mark w m now
      ≡ (if ltb m.start w.from then (w, none) else take_bounded w (observe_held b o m now))
unfolding watch_mark watch_behind observe
watch_mark-bounded w b o m now e h =
    ap (λ (r : Watcher × Option RunResult). if ltb m.start w.from then (w, none) else r)
      (ap (λ (x : Option BoundedSentinel). watch_behind w x m now) e ∙ behind)
  where
    behind : watch_behind w (some b) m now ≡ take_bounded w (observe_held b o m now)
    behind = ap (λ x. take_bounded w (observe_held b x m now)) h

-- What a mark does to a watcher that holds `o`: it holds `o'` afterwards, or reports `r`.
record Observes (w : Watcher) (o : Option Mark) (res : Option RunResult)
    (out : Watcher × Option RunResult) : Type 0 where
  pub reports : out.1 ≡ res
  pub same_from : out.0.from ≡ w.from
  pub now_holds : Holds o out.0

unchanged : (w : Watcher) (o : Option Mark) → Holds o w → Observes w o none (w, none)
unchanged w o h = record { reports = refl; same_from = refl; now_holds = h }

-- The test that a mark is a sentinel at or behind the baseline, and that it ends the command.
abbrev is_first : ℕ → Mark → Bool
is_first from m = not (ltb m.start from) && is_kind m.kind mark_sentinel

abbrev is_last : ℕ → Mark → Mark → Bool
is_last from s m = not (ltb m.start from) && (is_kind m.kind mark_boundary && leb s.end' m.start)

watch_mark-none :
    (w : Watcher) (m : Mark) (now : ℕ)
    → Holds none w
    → Observes w (if is_first w.from m then some m else none) none (watch_mark w m now)
unfolding observe_held take_bounded
watch_mark-none w m now h = rw (watch_mark-bounded w h.bound none m now h.is_bounded h.holds) (
    if_intro (Observes w (if is_first w.from m then some m else none) none) (ltb m.start w.from) _ _
      (λ e. rw e (unchanged w none h)) (λ e. rw e (behind (is_kind m.kind mark_sentinel))))
  where
    behind :
        (b : Bool)
        → Observes w (if b then some m else none) none (
            take_bounded w (
              if b
              then (record { held = some m; grace_until = now + grace_boundary }, none)
              else (h.bound, none)))
    behind true = record {
      reports = refl;
      same_from = refl;
      now_holds = record { bound = _; is_bounded = refl; holds = refl };
    }
    behind false = record {
      reports = refl;
      same_from = refl;
      now_holds = record { bound = _; is_bounded = refl; holds = h.holds };
    }

watch_mark-some :
    (w : Watcher) (s m : Mark) (now : ℕ)
    → Holds (some s) w
    → Observes w
        (some s)
        (if is_last w.from s m then some (done_at m s.exit_code) else none)
        (watch_mark w m now)
unfolding observe_held take_bounded
watch_mark-some w s m now h =
    rw (watch_mark-bounded w h.bound (some s) m now h.is_bounded h.holds) (
      if_intro
        (Observes w (some s) (if is_last w.from s m then some (done_at m s.exit_code) else none))
        (ltb m.start w.from) _ _ (λ e. rw e (unchanged w (some s) h))
        (λ e. rw e (behind (is_kind m.kind mark_boundary && leb s.end' m.start))))
  where
    kept : (r : Option RunResult) → Observes w (some s) r (take_bounded w (h.bound, r))
    kept r = record {
      reports = refl;
      same_from = refl;
      now_holds = record { bound = _; is_bounded = refl; holds = h.holds };
    }

    behind :
        (b : Bool)
        → Observes w (some s) (if b then some (done_at m s.exit_code) else none) (
            take_bounded w (if b then (h.bound, some (done_at m s.exit_code)) else (h.bound, none)))
    behind true = kept (some (done_at m s.exit_code))
    behind false = kept none

watch_marks-held :
    (w : Watcher) (s : Mark) (ms : List Mark) (now : ℕ)
    → Holds (some s) w
    → (watch_marks w ms now).1 ≡ boundary_behind w.from s ms
unfolding watch_marks watch_next boundary_behind
watch_marks-held w s [] now h = refl
watch_marks-held w s (m ∷ ms) now h =
    let step = watch_mark-some w s m now h in
    let next : Watcher = (watch_mark w m now).0 in
    rw step.reports (
      by_test (is_last w.from s m) next (
        watch_marks-held next s ms now step.now_holds
        ∙ ap (λ n. boundary_behind n s ms) step.same_from))
  where
    by_test :
        (b : Bool) (next : Watcher)
        → (watch_marks next ms now).1 ≡ boundary_behind w.from s ms
        → (watch_next
            (if b then some (done_at m s.exit_code) else none)
            next
            (watch_marks next ms now)).1
          ≡ (if b then some (done_at m s.exit_code) else boundary_behind w.from s ms)
    by_test true next e = refl
    by_test false next e = e

-- For a watcher of a bounded sentinel that holds none, the marks of a poll complete the command
-- exactly if a boundary follows the first sentinel that is at or behind the baseline, and the
-- result is that of the first such boundary with the exit code of that sentinel.
pub watch_marks-bounded :
    (w : Watcher) (ms : List Mark) (now : ℕ)
    → Holds none w
    → (watch_marks w ms now).1 ≡ bounded_done w.from ms
unfolding watch_marks watch_next bounded_done
watch_marks-bounded w [] now h = refl
watch_marks-bounded w (m ∷ ms) now h =
    let step = watch_mark-none w m now h in
    let next : Watcher = (watch_mark w m now).0 in
    rw step.reports (
      by_test (is_first w.from m) next step.now_holds step.same_from
        (λ k. watch_marks-bounded next ms now k))
  where
    by_test :
        (b : Bool) (next : Watcher)
        → Holds (if b then some m else none) next
        → next.from ≡ w.from
        → (Holds none next → (watch_marks next ms now).1 ≡ bounded_done next.from ms)
        → (watch_marks next ms now).1
          ≡ (if b then boundary_behind w.from m ms else bounded_done w.from ms)
    by_test true next k f ih = watch_marks-held next m ms now k ∙ ap (λ n. boundary_behind n m ms) f
    by_test false next k f ih = ih k ∙ ap (λ n. bounded_done n ms) f
