-- ===== src/Tests/Detect.antt =====
-- Runs of the completion signals: the properties at concrete inputs.
use pairmux.Prelude.{ℕ, ◌+◌, ◌≡◌, refl, List, [], ◌∷◌, ◌++◌, none, some, true, false, arith, length}
use pairmux.Prelude.All.{All}
use pairmux.Bytes.{codes}
use pairmux.Bytes.Numbers.{pos}
use pairmux.Core.{
  Event, cmd_start, cmd_end, note, hooks, sentinel, idle, running, sentinel_boundary,
}
use pairmux.Detect.Prompt.{Wording, TtyState, fg_parked, classify}
use pairmux.Detect.Prompt.Evidence.{IsJustified, classify-IsJustified}
use pairmux.Detect.Ready.{wait_ready, wait_prompt_cycle}
use pairmux.Detect.Ready.Ends.{wait_ready-Returns}
use pairmux.Detect.Scanner.{
  Scanner, Mark, mark_c, mark_d, mark_sentinel, mark_boundary, in_osc, new_scanner, feed,
}
use pairmux.Detect.Scanner.Emitted.{printed, feed-sentinel}
use pairmux.Detect.Scanner.Order.{InOrder, feed-InOrder}
use pairmux.Detect.Status.{derive_status}
use pairmux.Detect.Status.Run.{derive_status-run}
use pairmux.Detect.Wait.{Round, wait_correlated, wait_completion}
use pairmux.Detect.Wait.Deadline.{Returns, wait_correlated-Returns}
use pairmux.Detect.Watch.{is_kind, new_watcher, watch_marks}
use pairmux.Detect.Watch.Bounded.{bounded_done, watch_marks-bounded}
use pairmux.Detect.Watch.Correlated.{first_correlated, done_of, watch_marks-correlated}
use pairmux.Journal.Events.{next_cmd_id}
use pairmux.Journal.Raw.{RawLog, present}

-- A scanner in the middle of a sequence that is never ended.
abbrev torn : Scanner
torn = record { state = in_osc; offset = 40; mark_start = 30; payload = codes "133;"; bnd = 0 }

feed-sentinel_example :
    (feed torn (printed (codes "7779;p;") 130)).1
    ≡ record {
      kind = mark_sentinel;
      exit_code = pos 130;
      start = 40;
      end' = 40 + length (printed (codes "7779;p;") 130);
    }
      ∷ []
feed-sentinel_example = feed-sentinel torn 130 (omega arith)

-- Output, a mark, a boundary and a mark that is torn by the next.
abbrev stream : List ℕ
stream =
    codes "out"
    ++ printed (codes "133;D;") 1
    ++ sentinel_boundary
    ++ (0x1B ∷ codes "]133;")
    ++ printed (codes "7779;p;") 0

feed-InOrder_example : InOrder 100 (100 + length stream) (feed (new_scanner 100) stream).1
feed-InOrder_example = feed-InOrder 100 stream

abbrev mark : Mark
mark = record { kind = mark_d; exit_code = pos 0; start = 0; end' = 8 }

-- A stray D, then the command's own C and D.
abbrev marks : List Mark
marks =
    record mark { start = 12; end' = 20 }
    ∷ record mark { kind = mark_c; start = 30; end' = 38 }
    ∷ record mark { exit_code = pos 7; start = 50; end' = 60 }
    ∷ []

watch_marks-correlated_example :
    (watch_marks (new_watcher 10 hooks false) marks 0).1 ≡ done_of (first_correlated 10 marks)
unfolding new_watcher
watch_marks-correlated_example =
    watch_marks-correlated (new_watcher 10 hooks false) marks 0
      (record { requires = refl; unbounded = refl }) refl

-- A boundary of the command's own text, then the sentinel and its boundary.
abbrev bounded_marks : List Mark
bounded_marks =
    record mark { kind = mark_boundary; start = 11; end' = 20 }
    ∷ record mark { kind = mark_sentinel; exit_code = pos 7; start = 30; end' = 42 }
    ∷ record mark { kind = mark_boundary; start = 50; end' = 59 }
    ∷ []

watch_marks-bounded_example :
    (watch_marks (new_watcher 10 sentinel true) bounded_marks 0).1 ≡ bounded_done 10 bounded_marks
unfolding new_watcher
watch_marks-bounded_example =
    watch_marks-bounded (new_watcher 10 sentinel true) bounded_marks 0
      (record { bound = _; is_bounded = refl; holds = refl })

abbrev bare_log : RawLog
bare_log = present (codes "hello" ++ (codes "ok" ++ printed (codes "133;D;") 3))

abbrev rounds : ℕ → Round
rounds n = record { log = present (codes "hello"); seen = 50 + n; now = 50 + n; asked = none }

wait_correlated-Returns_example :
    Returns (wait_correlated rounds 5 true 50 200 true)
    × Returns (wait_completion rounds 5 sentinel true 50 200 true)
wait_correlated-Returns_example =
    wait_correlated-Returns rounds 5 sentinel true true 50 200 true (λ n. omega arith) (omega arith)

abbrev words : Wording
words = record { secret_prompt = λ line. false; extra_secret = none; other_prompt = λ line. false }

-- A terminal whose program has taken the keyboard.
abbrev raw_tty : TtyState
raw_tty = record { echo = false; canonical = false; known = true }

classify-IsJustified_example :
    IsJustified words raw_tty
      (codes ":")
      false
      2500
      true
      fg_parked
      (classify words raw_tty (codes ":") false 2500 true fg_parked)
classify-IsJustified_example =
    classify-IsJustified words raw_tty (codes ":") false 2500 true fg_parked

abbrev event : Event
event = record {
  ts = 0;
  event_type = note;
  cmd_id = pos 0;
  offset = 5;
  exit_code = none;
  body = codes "hi";
}

abbrev notes : List Event
notes = event ∷ []

abbrev start : Event
start = record event { event_type = cmd_start; cmd_id = next_cmd_id notes }

abbrev stop : Event
stop = record event { event_type = cmd_end; cmd_id = next_cmd_id notes }

-- A sentinel, which is no completion in hooks mode.
abbrev other_mark : List ℕ
other_mark = printed (codes "7779;p;") 0

other_mark-quiet :
    All (λ (m : Mark). is_kind m.kind mark_d ≡ false) (feed (new_scanner 5) other_mark).1
unfolding is_kind
other_mark-quiet = rw (feed-sentinel (new_scanner 5) 0 (omega arith)) (refl, tt)

derive_status-run_example :
    (derive_status true
        (present (codes "hello" ++ other_mark))
        (some (notes ++ (start ∷ [])))
        hooks
        none
      ≡ running)
    × ((derive_status true
            (present (codes "hello" ++ (other_mark ++ (printed (codes "133;D;") 2 ++ codes "$ "))))
            (some (notes ++ (start ∷ [])))
            hooks
            none
          ≡ idle)
        × (derive_status true
              (present (codes "hello" ++ other_mark))
              (some (notes ++ (start ∷ stop ∷ [])))
              hooks
              none
            ≡ derive_status true (present (codes "hello" ++ other_mark)) (some notes) hooks none))
derive_status-run_example =
    derive_status-run notes start stop (codes "hello") other_mark (codes "$ ") 2 none
      (omega arith, tt) ((refl, refl), (refl, refl)) refl (omega arith) other_mark-quiet

wait_ready-Returns_example :
    Returns (wait_ready rounds hooks 50 200 0) × Returns (wait_prompt_cycle rounds 50 200)
wait_ready-Returns_example =
    wait_ready-Returns rounds hooks 50 200 0 (λ n. omega arith) (omega arith)
