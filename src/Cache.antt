-- ===== src/Cache.antt =====
-- core/src/cache.rs: the SQLite index and the local files it speaks of. A statement is a function on
-- the tables; SQLite may fail it, and then it changes nothing. The children model the operations.
pub mod Guarded
pub mod Confined
pub mod Spec
pub mod Settled
pub mod Client
pub mod Thinned
pub mod Effects
pub mod Refines
pub mod Paths
pub mod Pins
pub mod Files
pub mod Nodes
pub mod Index
pub mod Renamed
pub mod Keyed
pub mod Moved
pub mod Trees
pub mod Under
pub mod Cleared
pub mod Stored
pub mod Evicted
pub mod Pinned
pub mod Measured
pub mod Unpin
pub mod Untouched
