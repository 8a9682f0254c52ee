-- ===== src/Cmd.antt =====
-- The package cmd: the commands.
pub mod Run
pub mod Init
pub mod Status
