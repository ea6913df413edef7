-- ===== src/Journal.antt =====
-- The files of a terminal, internal/journal/journal.go.
pub mod Raw
pub mod Events
pub mod Locks
