-- ===== src/Daemon/Keyed.antt =====
-- What `go_on`, between the files of the walk in daemon/src/sync.rs, keeps: the database as it is.
use kio_protondrive.Base.{Result, ok, err, Bool, true, false, if◌then◌else◌, fail, pure}
use kio_protondrive.Outside.{Outside, DriveError}
use kio_protondrive.Store.{Db}
use kio_protondrive.Store.Keeps.{Keeps, keeps_rules}
use kio_protondrive.Daemon.Sync

module _ {o : Outside} {I : Db → Type 0} where
  stop_or_go-Keeps :
      (e : DriveError) (b : Bool) → Keeps o I {A = Unit {0}} (if b then fail e else pure tt)
  stop_or_go-Keeps e true = search keeps_rules
  stop_or_go-Keeps e false = search keeps_rules

  pub go_on-Keeps : (r : Result (Unit {0}) DriveError) → Keeps o I (Sync.go_on o r)
  go_on-Keeps (ok _) = search keeps_rules
  go_on-Keeps (err e) = stop_or_go-Keeps e (Sync.is_authentication_error o e)
