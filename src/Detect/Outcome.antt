-- ===== src/Detect/Outcome.antt =====
-- The result of a wait, and the mark that ends a command, from internal/detect/wait.go.
use pairmux.Prelude.{ℕ}
use pairmux.Bytes.Numbers.{ℤ, pos, negsuc}
use pairmux.Core.{Mode, hooks, sentinel}
use pairmux.Detect.Prompt.{Prompt, no_prompt}
use pairmux.Detect.Scanner.{Mark, MarkKind, mark_d, mark_sentinel}

pub data WaitOutcome : Type 0 where
  outcome_done : WaitOutcome
  outcome_timeout : WaitOutcome
  outcome_awaiting_input : WaitOutcome

pub record RunResult : Type 0 where
  pub outcome : WaitOutcome
  pub exit_code : ℤ
  pub mark_start : ℤ
  pub end_offset : ℕ
  pub prompt : Prompt

unfoldable pub completion_kind : Mode → MarkKind
completion_kind hooks = mark_d
completion_kind sentinel = mark_sentinel

-- A command that is done with an exit code, its output ending where `m` starts.
unfoldable pub done_at : Mark → ℤ → RunResult
done_at m code = record {
  outcome = outcome_done;
  exit_code = code;
  mark_start = pos m.start;
  end_offset = m.end';
  prompt = no_prompt;
}

unfoldable pub done_result : Mark → RunResult
unfolding done_at
done_result m = done_at m m.exit_code

unfoldable pub timed_out : ℕ → RunResult
timed_out off = record {
  outcome = outcome_timeout;
  exit_code = negsuc 0;
  mark_start = negsuc 0;
  end_offset = off;
  prompt = no_prompt;
}

unfoldable pub asks : ℕ → Prompt → RunResult
asks off p = record {
  outcome = outcome_awaiting_input;
  exit_code = negsuc 0;
  mark_start = negsuc 0;
  end_offset = off;
  prompt = p;
}
