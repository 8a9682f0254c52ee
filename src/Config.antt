-- ===== src/Config.antt =====
-- The package config.
pub mod Script
pub mod Rsync
pub mod Blacklist
pub mod Job
pub mod Argv
pub mod Service
pub mod Hosts
pub mod Tree
