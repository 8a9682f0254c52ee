-- ===== src/App.antt =====
-- The package app.
pub mod Metrics
pub mod Zprops
pub mod State
pub mod Server
pub mod Prometheus
pub mod Ssh
pub mod Runner
pub mod Queue
pub mod Scheduler
