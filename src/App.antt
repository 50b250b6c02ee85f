-- ===== src/App.antt =====
-- The package app: applications, and the registry that starts them.
pub mod Flags
pub mod Tasks
pub mod Services
pub mod Registry
mod Examples
mod Runs
