-- ===== src/Core.antt =====
-- The types that the packages share, internal/core/core.go.
use pairmux.Prelude.{ℕ, List, [], ◌∷◌, Option}
use pairmux.Bytes.Numbers.{ℤ}

abbrev pub sentinel_boundary : List ℕ
sentinel_boundary = 0xE2 ∷ 0x80 ∷ 0x8B ∷ 0xE2 ∷ 0x80 ∷ 0x8B ∷ 0xE2 ∷ 0x80 ∷ 0x8B ∷ []

pub data Mode : Type 0 where
  hooks : Mode
  sentinel : Mode

pub data Status : Type 0 where
  idle : Status
  running : Status
  dead : Status
  unknown : Status
  awaiting_input : Status

pub data EventType : Type 0 where
  created : EventType
  cmd_start : EventType
  cmd_end : EventType
  note : EventType
  sent : EventType

-- One line of index.jsonl; the time is a number of nanoseconds.
pub record Event : Type 0 where
  pub ts : ℕ
  pub event_type : EventType
  pub cmd_id : ℤ
  pub offset : ℕ
  pub exit_code : Option ℤ
  pub body : List ℕ
