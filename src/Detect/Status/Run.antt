-- ===== src/Detect/Status/Run.antt =====
-- The status of a terminal while a command runs and behind it.
use pairmux.Prelude.{
  ℕ, ◌+◌, ◌-◌, ◌||◌, ltb, subst, ◌<◌, ◌^◌, ◌≡◌, refl, sym, ap, ◌∙◌, List, [], ◌∷◌, ◌++◌, Option,
  some, true, false, length, arith,
}
use pairmux.Prelude.All.{All}
use pairmux.Bytes.{codes}
use pairmux.Core.{Event, hooks, idle, running}
use pairmux.Detect.Outcome.{completion_kind}
use pairmux.Detect.Scanner.{Mark, Scanner, mark_d, new_scanner, feed}
use pairmux.Detect.Scanner.Chunks.{feed-append}
use pairmux.Detect.Scanner.Emitted.{printed, feed-done}
use pairmux.Detect.Scanner.Order.{feed-offset}
use pairmux.Detect.Status.{any_mark, scan_bytes, scan_for_mark, pending_status, derive_status}
use pairmux.Detect.Watch.{is_kind}
use pairmux.Journal.Events.Ids.{AtMost}
use pairmux.Journal.Events.Pending.{IsRun, pending_cmd-run}
use pairmux.Journal.Raw.{present}
use pairmux.Journal.Raw.Ranges.{read_range-end}

scan_for_mark-behind :
    (b rest : List ℕ) (from : ℕ)
    → from ≡ length b
    → scan_for_mark (present (b ++ rest)) from mark_d
      ≡ any_mark from mark_d (feed (new_scanner from) rest).1
unfolding scan_for_mark scan_bytes
scan_for_mark-behind b rest from e = ap (scan_bytes from mark_d) (read_range-end b rest from e)

any_mark-none :
    (from : ℕ) (ms : List Mark)
    → All (λ (m : Mark). is_kind m.kind mark_d ≡ false) ms
    → any_mark from mark_d ms ≡ false
unfolding any_mark
any_mark-none from [] h = refl
any_mark-none from (m ∷ ms) h = ground (arith, h.0, any_mark-none from ms h.1)

any_mark-append :
    (from : ℕ) (xs ys : List Mark)
    → any_mark from mark_d (xs ++ ys) ≡ (any_mark from mark_d xs || any_mark from mark_d ys)
unfolding any_mark
any_mark-append from [] ys = refl
any_mark-append from (m ∷ xs) ys = ground (arith, any_mark-append from xs ys)

scan_for_mark-none :
    (b out : List ℕ) (from : ℕ)
    → from ≡ length b
    → All (λ (m : Mark). is_kind m.kind mark_d ≡ false) (feed (new_scanner from) out).1
    → scan_for_mark (present (b ++ out)) from mark_d ≡ false
scan_for_mark-none b out from e h = scan_for_mark-behind b out from e ∙ any_mark-none from _ h

-- A D behind any output, whatever follows it.
scan_for_mark-done :
    (b out rest : List ℕ) (from code : ℕ)
    → from ≡ length b
    → code < 2 ^ 63
    → scan_for_mark (present (b ++ (out ++ (printed (codes "133;D;") code ++ rest)))) from mark_d
      ≡ true
unfolding any_mark is_kind new_scanner
scan_for_mark-done b out rest from code e h =
    let done : List ℕ = printed (codes "133;D;") code in
    let s1 : Scanner = (feed (new_scanner from) out).0 in
    let behind : s1.offset ≡ from + length out = feed-offset (new_scanner from) out in
    let near : ltb s1.offset from ≡ false = ground (arith, behind) in
    let marks : (feed (new_scanner from) (out ++ (done ++ rest))).1
        ≡ (feed (new_scanner from) out).1 ++ ((feed s1 done).1 ++ (feed (feed s1 done).0 rest).1) =
      ap (λ r. r.1) (feed-append (new_scanner from) out (done ++ rest))
      ∙ ap (λ r. (feed (new_scanner from) out).1 ++ r.1) (feed-append s1 done rest) in
    scan_for_mark-behind b (out ++ (done ++ rest)) from e
    ∙ rw (marks, any_mark-append from (feed (new_scanner from) out).1 _, feed-done s1 code h, near)
        (ground arith)

-- If the ids of a log leave room for another, a command is logged with the next id and with the
-- length of the raw log as offset: in hooks mode the terminal is running as long as the output
-- behind that offset holds no D mark, idle once the D mark of an exit code below 2^63 follows any
-- such output, whatever follows the mark, and what it was before once the end of the command is
-- logged.
pub derive_status-run :
    (evs : List Event) (start stop : Event) (b out rest : List ℕ) (code : ℕ) (age : Option ℕ)
    → All (λ (ev : Event). AtMost (2 ^ 63 - 2) ev.cmd_id) evs
    → IsRun evs start stop
    → start.offset ≡ length b
    → code < 2 ^ 63
    → All (λ (m : Mark). is_kind m.kind mark_d ≡ false) (feed (new_scanner (length b)) out).1
    → (derive_status true (present (b ++ out)) (some (evs ++ (start ∷ []))) hooks age ≡ running)
      × ((derive_status true
              (present (b ++ (out ++ (printed (codes "133;D;") code ++ rest))))
              (some (evs ++ (start ∷ [])))
              hooks
              age
            ≡ idle)
          × (derive_status true (present (b ++ out)) (some (evs ++ (start ∷ stop ∷ []))) hooks age
              ≡ derive_status true (present (b ++ out)) (some evs) hooks age))
unfolding derive_status pending_status completion_kind
derive_status-run evs start stop b out rest code age h run off c quiet =
    let settled = pending_cmd-run evs start stop h run in
    let silent =
      subst (λ n. All (λ (m : Mark). is_kind m.kind mark_d ≡ false) (feed (new_scanner n) out).1)
        (sym off) quiet in
    (
      rw (settled.0, scan_for_mark-none b out start.offset off silent) refl,
      (
        rw (settled.0, scan_for_mark-done b out rest start.offset code off c) refl,
        ap (pending_status (present (b ++ out)) hooks age) settled.1,
      ),
    )
