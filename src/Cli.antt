-- ===== src/Cli.antt =====
-- core/src/cli.rs: running `proton-drive`, and reading its answers. The children model the commands.
pub mod SplitJoin
pub mod Globs
pub mod Attempts
pub mod Answer
pub mod Runner
pub mod Commands
pub mod Moves
pub mod Chain
pub mod Sharing
pub mod Errors
pub mod Binary
pub mod Photos
