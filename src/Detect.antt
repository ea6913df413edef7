-- ===== src/Detect.antt =====
-- Completion signals from the raw log, internal/detect.
pub mod Ready
pub mod Scanner
pub mod Prompt
pub mod Outcome
pub mod Watch
pub mod Wait
pub mod Status
