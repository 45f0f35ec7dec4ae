-- ===== src/Daemon/State.antt =====
-- What the threads of the daemon share: the index behind the cache, the folders that views show, and
-- the times of the last revalidations. The two tables are statics behind a mutex each.
use kio_protondrive.Base.{ℕ, Action}
use kio_protondrive.Table.{Table}
use kio_protondrive.Outside.{Outside, DriveError}
use kio_protondrive.Store.{Store, Op}
use kio_protondrive.OpenFolders.{OpenFolders}

pub record Running (W : Type 0) : Type 0 where
  pub store : Store W
  pub folders : OpenFolders
  pub revalidated : Table ℕ

module _ (o : Outside) where
  open o use {World}

  abbrev pub Act : Type 0 → Type 0
  Act A = Action (Running World) A DriveError

  -- An action on the index or the world alone.
  abbrev pub on_store : {A : Type 0} → Op o A → Act A
  on_store m r = let (a, s) = m r.store in (a, record r { store = s })
