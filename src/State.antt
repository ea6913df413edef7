-- ===== src/State.antt =====
-- The terminals of a state directory, internal/state.
pub mod Names
