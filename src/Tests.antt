-- ===== src/Tests.antt =====
-- Tests of the model, and the theorems at concrete inputs.
pub mod Rsync
pub mod Schedules
pub mod States
pub mod Backups
pub mod Queues
pub mod Settings
pub mod Rounds
pub mod Files
pub mod Commands
pub mod Trees
pub mod Pages
pub mod Logs
pub mod Stops
pub mod Starts
pub mod Processes
pub mod Restarts
