-- ===== src/Kcp.antt =====
-- The package kcp: a reliable transport over datagrams, after the C library of that name.
pub mod Define
pub mod Parse
pub mod Send
pub mod Seg
pub mod Input
pub mod Due
pub mod Flush
pub mod Counts
pub mod Transfer
mod Examples
mod Runs
