-- ===== src/Shape.antt =====
-- From the raw log to readable text, internal/shape/shape.go.
pub mod Escapes
pub mod Overwrites
pub mod Echo
pub mod Truncate
pub mod Render
