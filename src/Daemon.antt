-- ===== src/Daemon.antt =====
-- The sync daemon (daemon/src): its sweeps, what it uploads, and the renames that it passes on.
pub mod Synced
pub mod Recorded
pub mod Kept
pub mod Reconciled
pub mod Walked
pub mod Cooldown
pub mod Followed
pub mod Refresh
pub mod Sync
pub mod Watch
pub mod Notices
pub mod Config
pub mod Versions
pub mod Loop
pub mod Due
pub mod Keyed
pub mod Main
pub mod State
pub mod Control
pub mod Requests
