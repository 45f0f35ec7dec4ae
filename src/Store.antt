-- ===== src/Store.antt =====
-- The tables of core/src/cache.rs's database beside the rest of the world, and how a statement runs.
pub mod Ends
pub mod Keeps
use kio_protondrive.Base.{ℕ, Text, Option, none, some, Result, ok, err, Action}
use kio_protondrive.Table.{Table}
use kio_protondrive.Outside.{Outside, DriveError, Io, done, missing, failed, io, sqlite}

-- A row of `pins`, behind its key `remote_path`. An i64 is kept as its bits.
pub record Pin : Type 0 where
  pub local_path : Text
  pub local_mtime : ℕ
  pub local_size : ℕ
  pub last_synced_at : ℕ

-- A row of `cached_files`, behind its key `remote_path`.
pub record CachedFile : Type 0 where
  pub local_path : Text
  pub remote_modification_time : Text
  pub last_accessed_at : ℕ

-- A row of `fs_stat_cache`, `fs_listing_cache` or `photo_timeline_cache`.
pub record Payload : Type 0 where
  pub json : Text
  pub fetched_at : ℕ

pub record Db : Type 0 where
  pub pins : Table Pin
  pub cached_files : Table CachedFile
  pub stats : Table Payload
  pub listings : Table Payload
  pub timeline : Option Payload
  pub user_version : ℕ

-- `root` is the cache root that the index was opened with.
pub record Store (W : Type 0) : Type 0 where
  pub db : Db
  pub world : W
  pub root : Text

module _ (o : Outside) where
  open o use {World, db_error}

  abbrev pub Op : Type 0 → Type 0
  Op A = Action (Store World) A DriveError

  -- A statement that reads. SQLite is asked first whether it runs.
  unfoldable pub query : {A : Type 0} → (Db → A) → Op A
  query f s =
      let (e, w) = db_error s.world in
      elim e [
        | none ↦ (ok (f s.db), record s { world = w })
        | some m ↦ (err (sqlite m), record s { world = w })
      ]

  -- A statement that writes.
  unfoldable pub execute : (Db → Db) → Op (Unit {0})
  execute f s =
      let (e, w) = db_error s.world in
      elim e [
        | none ↦ (ok tt, record s { db = f s.db; world = w })
        | some m ↦ (err (sqlite m), record s { world = w })
      ]

  -- An action on the world alone, such as a CLI command.
  unfoldable pub outside : {A : Type 0} → Action World A DriveError → Op A
  outside m s = let (r, w) = m s.world in (r, record s { world = w })

  -- What the world shows without being changed.
  unfoldable pub look : {A : Type 0} → (World → A) → Op A
  look f s = (ok (f s.world), s)

  unfoldable pub root_of : Op Text
  root_of s = (ok s.root, s)

  -- `map_err(|e| DriveError::Io(e.to_string()))`
  abbrev pub io_result : {A : Type 0} → Io A → Result A DriveError
  io_result (done a) = ok a
  io_result (missing m) = err (io m)
  io_result (failed m) = err (io m)

  -- As `io_result`, but a file that is gone is no error.
  abbrev pub io_unless_missing : Io (Unit {0}) → Result (Unit {0}) DriveError
  io_unless_missing (done _) = ok tt
  io_unless_missing (missing _) = ok tt
  io_unless_missing (failed m) = err (io m)
