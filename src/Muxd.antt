-- ===== src/Muxd.antt =====
-- The multiplexer's own server, internal/muxd.
pub mod Keys
pub mod Frames
