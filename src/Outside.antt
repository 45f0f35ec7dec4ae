-- ===== src/Outside.antt =====
-- What the program calls and does not implement: the `proton-drive` process, the file system, the
-- clock, SQLite's own failures, serde's JSON, and the processes and sockets that carry notifications.
use kio_protondrive.Base.{ℕ, Text, Bool, Option, List, Result}
use kio_protondrive.Entry.{
  NodeEntry, ListItem, TransferSummary, TrashOutcome, CopyOutcome, SharingStatus,
}

-- `DriveError` of core/src/cli.rs. A duration is a number of seconds.
pub data DriveError : Type 0 where
  not_found : Text → DriveError
  not_authenticated : DriveError
  already_exists : Text → DriveError
  unsupported : Text → DriveError
  cli : Text → DriveError
  parse : Text → DriveError
  spawn : Text → DriveError
  timeout : ℕ → DriveError
  io : Text → DriveError
  sqlite : Text → DriveError

-- `CommandOutput` of core/src/cli.rs
pub record CommandOutput : Type 0 where
  pub stdout : Text
  pub stderr : Text
  pub success : Bool

-- How a spawned process ends, as seen through the channel of its waiting thread.
pub data Ending : Type 0 where
  not_spawned : Text → Ending
  exited : CommandOutput → Ending
  wait_failed : Text → Ending
  timed_out : Ending
  disconnected : Ending

-- The outcome of a file system call. `std::io::ErrorKind::NotFound` stands apart.
pub data Io (A : Type 0) : Type 0 where
  done : A → Io A
  missing : Text → Io A
  failed : Text → Io A

-- Modification time in seconds, and length.
pub record Metadata : Type 0 where
  pub mtime : ℕ
  pub len : ℕ

-- What `file_type` says of an entry of a folder; a link is `special`.
pub data Kind : Type 0 where
  directory regular special : Kind

-- An entry, by its path, as a folder's iterator gives it with its type, or the error of either.
pub data Entry : Type 0 where
  entry : Text → Kind → Entry
  unreadable : Text → Entry

pub record Json (A : Type 0) : Type 0 where
  pub read : Text → Result A Text
  pub write : A → Result Text Text

pub record Outside : Type 1 where
  pub World : Type 0
  -- Spawns `proton-drive` with arguments and waits for it so many seconds.
  pub process : List Text → ℕ → World → Ending × World
  -- `kill -9`, and `thread::sleep` for so many milliseconds.
  pub kill : World → World
  pub sleep : ℕ → World → World
  -- Any other process or request that is started and not waited for, by its arguments.
  pub launch : List Text → World → World
  -- Seconds since the epoch, 0 where the clock stands before it.
  pub now : World → ℕ
  -- An error of SQLite, or `none` where the statement runs.
  pub db_error : World → Option Text × World
  pub is_file : Text → World → Bool
  pub metadata : Text → World → Io Metadata
  pub read_dir : Text → World → Io (List Entry)
  pub remove_file : Text → World → Io (Unit {0}) × World
  pub rename_file : Text → Text → World → Io (Unit {0}) × World
  pub create_dir_all : Text → World → Io (Unit {0}) × World
  pub node_json : Json NodeEntry
  pub nodes_json : Json (List NodeEntry)
  pub read_items : Text → Result (List ListItem) Text
  pub read_summary : Text → Result TransferSummary Text
  pub read_trash : Text → Result (List TrashOutcome) Text
  pub read_copy : Text → Result (List CopyOutcome) Text
  pub read_sharing : Text → Result SharingStatus Text
