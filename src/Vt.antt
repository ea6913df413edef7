-- ===== src/Vt.antt =====
-- The virtual terminal, internal/vt.
pub mod Cell
pub mod Row
pub mod History
pub mod Text
pub mod State
pub mod Scroll
pub mod Cursor
pub mod Wf
pub mod Width
pub mod Print
pub mod Params
pub mod Sgr
pub mod Render
pub mod Csi
pub mod Dispatch
pub mod Utf8
pub mod Strings
pub mod Parser
pub mod Resize
