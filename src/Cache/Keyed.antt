-- ===== src/Cache/Keyed.antt =====
-- One row for each remote path, through the operations on pins of core/src/cache.rs.
use kio_protondrive.Base.{◌≡◌, ℕ, Text, [], ◌∷◌, List, Result, ok, err, Bool}
use kio_protondrive.Table.{update, UniqueKeys}
use kio_protondrive.Table.Laws.{upsert-UniqueKeys, delete-UniqueKeys, update-UniqueKeys}
use kio_protondrive.Outside.{Outside, DriveError}
use kio_protondrive.Store.{Db, Pin}
use kio_protondrive.Store.Keeps.{Keeps, keeps_rules, Keeps-execute, Keeps-bind, Keeps-look}
use kio_protondrive.Cache.Pins
use kio_protondrive.Cache.Renamed.{rename-UniqueKeys}
use kio_protondrive.Cache.Pinned.{pin_lem, Pinned}
use kio_protondrive.Cache.Unpin.{unpin-db, unpinned}

abbrev pub IsKeyed : Db → Type 0
IsKeyed db = UniqueKeys db.pins

abbrev pub synced_row : ℕ → ℕ → ℕ → Pin → Pin
synced_row m n t p = record p { local_mtime = m; local_size = n; last_synced_at = t }

abbrev pub synced_at : Text → ℕ → ℕ → ℕ → Db → Db
synced_at path m n t db = record db { pins = update path (synced_row m n t) db.pins }

module _ {o : Outside} where
  pub pin-Keeps : (path : Text) (force : Bool) → Keeps o IsKeyed (Pins.pin o path force)
  pin-Keeps path force = record {
    holds = λ s h. go path (Pins.pin o path force s).0 s.db _ (pin_lem o path force s) h;
  }
    where
      go :
          (path : Text) (r : Result Text DriveError) (db db' : Db)
          → Pinned path r db db'
          → IsKeyed db
          → IsKeyed db'
      go path (ok local) db db' (m, t, e) h = rw e (upsert-UniqueKeys path _ db.pins h)
      go path (err _) db db' e h = rw e h

  pub unpin-Keeps : (path : Text) (force : Bool) → Keeps o IsKeyed (Pins.unpin o path force)
  unpin-Keeps path force = record {
    holds = λ s h. go path (Pins.unpin o path force s).0 s.db _ (unpin-db o path force s) h;
  }
    where
      go :
          (path : Text) (r : Result (Unit {0}) DriveError) (db db' : Db)
          → db' ≡ unpinned path r db
          → IsKeyed db
          → IsKeyed db'
      go path (ok _) db db' e h = rw e (delete-UniqueKeys path db.pins h)
      go path (err _) db db' e h = rw e h

  unpin_each-Keeps :
      (force : Bool) (rows : List (Text × Text)) → Keeps o IsKeyed (Pins.unpin_each o force rows)
  unfolding Pins.unpin_each
  unpin_each-Keeps force [] = search keeps_rules
  unpin_each-Keeps force ((k, l) ∷ rows) =
      Keeps-bind (unpin-Keeps k force) λ _. unpin_each-Keeps force rows

  pub unpin_tree-Keeps :
      (path : Text) (force : Bool) → Keeps o IsKeyed (Pins.unpin_tree o path force)
  unfolding Pins.unpin_tree
  unpin_tree-Keeps path force = search (keeps_rules, unpin_each-Keeps)

  pub rename-Keeps : (old new local : Text) → Keeps o IsKeyed (Pins.rename o old new local)
  rename-Keeps old new local = record { holds = rename-UniqueKeys o old new local }

  pub mark_synced-Keeps : (path : Text) (m n : ℕ) → Keeps o IsKeyed (Pins.mark_synced o path m n)
  unfolding Pins.mark_synced
  mark_synced-Keeps path m n =
      Keeps-bind (Keeps-look o.now)
        λ t. Keeps-execute (synced_at path m n t) λ db h. update-UniqueKeys path _ db.pins h
