-- ===== src/Bridge.antt =====
-- core/src/bridge.rs: what the KIO worker calls. Errors stay `DriveError`s, where the source hands
-- their text to C++. The index is opened again by every call, as `open_cache` does.
pub mod Trashed
pub mod Served
pub mod Entries
pub mod Reads
pub mod Writes
pub mod Shares
pub mod Gallery
pub mod Badge
pub mod Transfers
pub mod Uploaded
