-- ===== src/Cli.antt =====
-- The command line of internal/cli.
pub mod Log
pub mod Poll
pub mod Flags
pub mod Output
pub mod Send
pub mod Target
pub mod Run
pub mod Notes
pub mod Keys
pub mod Quote
pub mod Wait
