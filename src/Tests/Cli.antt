-- ===== src/Tests/Cli.antt =====
-- Runs of the command line: the properties at concrete inputs.
use pairmux.Prelude.{
  ℕ, ◌+◌, ◌-◌, ◌≡◌, ◌≢◌, refl, List, [], ◌∷◌, ◌++◌, none, some, true, false, arith, inl, inr, inr,
  take, drop,
}
use pairmux.Bytes.{codes, split, bytes_eq, all_bytes, cut_at, span_length}
use pairmux.Bytes.Numbers.{pos, decimal}
use pairmux.Core.{Event, EventType, note, sent, cmd_start, hooks}
use pairmux.Cli.Flags.{
  FlagSpec, parsed, parse_flags, strip_globals, flag_kind, split_flag, trim_dashes,
}
use pairmux.Cli.Flags.Printed.{
  bool_item, joined_item, next_item, pos_item, Item, print_all, parse_flags-print_all,
}
use pairmux.Cli.Flags.Stripped.{
  Arg, other_arg, json_arg, joined_arg, next_arg, print_args, strip_globals-print_args,
}
use pairmux.Cli.Keys.{valid_key, is_listed, is_f_key, is_modified, plain_keys}
use pairmux.Cli.Keys.Known.{valid_key-ne-none}
use pairmux.Cli.Log.{parse_range}
use pairmux.Cli.Log.Range.{lines_of, log_range-parse_range}
use pairmux.Cli.Notes.{unseen_notes}
use pairmux.Cli.Notes.Once.{last_of, latest_unseen_note-eq-last_of}
use pairmux.Cli.Poll.{poll_target}
use pairmux.Cli.Poll.Handoff.{IsDiscreet, poll_target-IsDiscreet}
use pairmux.Cli.Quote.{quoted_command_hint}
use pairmux.Cli.Quote.Words.{IsOneCommand, quoted_command_hint-IsOneCommand}
use pairmux.Cli.Run.{World, Request, settle, proceed, end_event, zero_result, cmd_run}
use pairmux.Cli.Run.Orderly.{Leaves, cmd_run-Leaves}
use pairmux.Cli.Run.Unreadable.{settle_unreadable}
use pairmux.Cli.Send.{append_event}
use pairmux.Cli.Wait.{latest_unseen_note}
use pairmux.Cli.Target.{Target, Spec, Tick, alive}
use pairmux.Detect.Prompt.{fg_parked}
use pairmux.Detect.Wait.{Round}
use pairmux.Detect.Watch.{new_watcher}
use pairmux.Journal.Events.{pending_cmd, or_first, is_ended, is_start, is_end}
use pairmux.Journal.Raw.{RawLog, present, unreadable}
use pairmux.Muxd.Keys.{key_bytes}

abbrev event : EventType → ℕ → Event
event t time = record {
  ts = time;
  event_type = t;
  cmd_id = pos 1;
  offset = 5;
  exit_code = none;
  body = codes "done";
}

-- A note at 10, answered at 20.
abbrev noted : List Event
noted = event note 10 ∷ event sent 20 ∷ []

latest_unseen_note-eq-last_of_example : latest_unseen_note noted ≡ last_of none (unseen_notes noted)
latest_unseen_note-eq-last_of_example = latest_unseen_note-eq-last_of noted

-- A command that was started and has not ended.
abbrev opened : List Event
opened = event cmd_start 10 ∷ []

abbrev rounds : RawLog → ℕ → Round
rounds log n = record { log = log; seen = 50 + n; now = 50 + n; asked = none }

abbrev world : RawLog → World
world log = record {
  mode = hooks;
  bounded = false;
  settle_rounds = rounds log;
  settle_start = 50;
  settle_ts = 60;
  settled = true;
  log_size = 40;
  start_ts = 70;
  sends = record { recorded = true; literal = true; enter = true; closed = true };
  abort_size = 40;
  run_rounds = rounds log;
  run_start = 70;
  arrived = event note 75 ∷ [];
  end_ts = 80;
  ended = true;
  log = log;
}

abbrev request : Request
request = record {
  cmd = codes "make";
  sent = codes "make";
  timeout = 200;
  head = pos 10;
  tail = pos 10;
}

cmd_run-Leaves_example :
    Leaves
      (world (present (codes "hello")))
      request
      opened
      (cmd_run (world (present (codes "hello"))) request opened)
unfolding pending_cmd or_first is_ended is_start is_end
cmd_run-Leaves_example =
    cmd_run-Leaves (world (present (codes "hello"))) request opened
      (inr (event cmd_start 10, ([], ([], (0, (refl, (refl, (refl, (refl, (tt, tt))))))))))
      (omega arith, tt) ((refl, refl), tt) refl

settle_unreadable_example :
    settle (world (unreadable 90)) opened (pending_cmd opened)
    ≡ proceed (append_event true opened (end_event (pos 1) zero_result 60))
unfolding pending_cmd or_first is_ended is_start
settle_unreadable_example =
    settle_unreadable (world (unreadable 90)) opened (event cmd_start 10) 90 refl refl (omega arith)

quoted_command_hint-IsOneCommand_example :
    IsOneCommand
      (codes "echo" ∷ codes "it's" ∷ [])
      (quoted_command_hint (codes "echo" ∷ codes "it's" ∷ []))
quoted_command_hint-IsOneCommand_example =
    quoted_command_hint-IsOneCommand (codes "echo" ∷ codes "it's" ∷ [])

valid_key-ne-none_example : key_bytes (codes "M-x") true ≢ none
unfolding valid_key is_listed is_f_key is_modified plain_keys bytes_eq
valid_key-ne-none_example = valid_key-ne-none (codes "M-x") true refl

abbrev spec : FlagSpec
spec = record { bools = codes "all" ∷ []; vals = codes "tail" ∷ []; lists = codes "key" ∷ [] }

-- `--all --tail=5 build --key C-c`
abbrev items : List Item
items =
    bool_item (codes "all")
    ∷ joined_item (codes "tail") (codes "5")
    ∷ pos_item (codes "build")
    ∷ next_item (codes "key") (codes "C-c")
    ∷ []

parse_flags-print_all_example :
    parse_flags spec (print_all items ++ (codes "--" ∷ codes "--all" ∷ []))
    ≡ parsed
        ((codes "all", none)
          ∷ (codes "tail", some (codes "5"))
          ∷ (codes "key", some (codes "C-c"))
          ∷ [])
        (codes "build" ∷ codes "--all" ∷ [])
unfolding flag_kind is_listed bytes_eq all_bytes
parse_flags-print_all_example =
    parse_flags-print_all spec items (codes "--all" ∷ [])
      ((refl, refl), ((refl, refl), (refl, ((refl, refl), tt))))

-- `run --json -socket=s --all --socket t -- --json`
abbrev args : List Arg
args =
    other_arg (codes "run")
    ∷ json_arg true
    ∷ joined_arg false (codes "s")
    ∷ other_arg (codes "--all")
    ∷ next_arg true (codes "t")
    ∷ []

strip_globals-print_args_example :
    strip_globals (print_args args ++ (codes "--" ∷ codes "--json" ∷ [])) false [] ≡ record {
      rest = codes "run" ∷ codes "--all" ∷ codes "--" ∷ codes "--json" ∷ [];
      json = true;
      sock = codes "t";
    }
unfolding bytes_eq split_flag trim_dashes cut_at span_length
strip_globals-print_args_example =
    strip_globals-print_args args (codes "--json" ∷ []) false []
      ((refl, inl refl), (tt, (tt, ((refl, inr (refl, refl)), (tt, tt)))))

abbrev four_lines : List ℕ
four_lines = codes "a" ++ (0x0A ∷ codes "b" ++ (0x0A ∷ codes "c" ++ (0x0A ∷ codes "d")))

log_range-parse_range_example :
    lines_of (parse_range (decimal 2 ++ (b':' ∷ decimal 3))) four_lines
    ≡ take (3 + 1 - 2) (drop (2 - 1) (split 0x0A four_lines))
unfolding split
log_range-parse_range_example =
    log_range-parse_range four_lines 2 3 (omega arith) (omega arith) (omega arith) (omega arith)

abbrev target : Target
target = record {
  mode = hooks;
  program = false;
  base_size = 0;
  base_events = 0;
  completion = some (new_watcher 5 hooks false);
  completion_from = 5;
  completion_echo = [];
  watch_answered = false;
  answer_scan = 0;
  answer_submitted = false;
  answered_at = 0;
  last_state_check = 0;
}

-- A handoff at a question that hides what is typed.
abbrev handoff : Spec
handoff = record {
  pattern = none;
  wait_note = true;
  human = true;
  wait_idle = false;
  idle_for = 800;
}

abbrev tick : Tick
tick = record {
  words = record {
    secret_prompt = λ line. true;
    extra_secret = none;
    other_prompt = λ line. false;
  };
  log = present (codes "Password: ");
  events = some opened;
  now = 5000;
  age = some 3000;
  found = alive true false;
  disc = record { echo = false; canonical = true; known = true };
  fg = fg_parked;
}

poll_target-IsDiscreet_example : IsDiscreet tick (poll_target handoff tick target).1
poll_target-IsDiscreet_example = poll_target-IsDiscreet handoff tick target refl refl
