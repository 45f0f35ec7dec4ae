-- ===== src/Daemon/Followed.antt =====
-- `handle_rename` of daemon/src/sync.rs and the row of the file.
use mathlib.Core.Path.{subst}
use kio_protondrive.Base.{
  ◌≡◌, ◌⊎◌, inl, inr, refl, sym, ◌∙◌, arith, Text, Option, some, [], ◌∷◌, Result, ok, err, true,
  resume,
}
use kio_protondrive.Table.{Table, find, UniqueKeys}
use kio_protondrive.Outside.{Outside, DriveError}
use kio_protondrive.Store.{Store, Pin, Op, outside, query, root_of}
use kio_protondrive.Store.Keeps.{query-db, query-value, query-root}
use kio_protondrive.Cache.Pins.{lookup_by_local_path, remote_of, is_some, rename}
use kio_protondrive.Cache.Renamed.{rename_lem}
use kio_protondrive.Cache.Spec.{moved}
use kio_protondrive.Daemon.Sync.{
  handle_rename, rename_pinned, remote_path_for_local, rename_remotely, rekey_after,
}

is_some-remote_of :
    (local old : Text) (t : Table Pin) → remote_of local t ≡ some old → is_some (find old t) ≡ true
unfolding remote_of find
is_some-remote_of local old [] h = absurd (cc)
is_some-remote_of local old ((k, p) ∷ t) h = ground (arith, is_some-remote_of local old t)

-- The row of `old` stands, with the local path `to`, under one of two keys.
abbrev pub IsFollowed : Text → Text → Text → Table Pin → Table Pin → Type 0
IsFollowed old new to before after =
    (find new after ≡ moved to (find old before)) ⊎ (find old after ≡ moved to (find old before))

module _ (o : Outside) where
  rename-IsFollowed :
      (old new to : Text) (s : Store (o.World))
      → UniqueKeys s.db.pins
      → is_some (find old s.db.pins) ≡ true
      → (rename o old new to s).0 ≡ ok tt
      → find new (rename o old new to s).1.db.pins ≡ moved to (find old s.db.pins)
  rename-IsFollowed old new to s u p h = ground (arith, rename_lem o old new to new s)

  rename_pinned-IsFollowed :
      (from to old new : Text) (s : Store (o.World))
      → UniqueKeys s.db.pins
      → is_some (find old s.db.pins) ≡ true
      → (rename_pinned o from to (some old) (some new) s).0 ≡ ok tt
      → IsFollowed old new to s.db.pins (rename_pinned o from to (some old) (some new) s).1.db.pins
  unfolding outside rename_remotely
  rename_pinned-IsFollowed from to old new s u p h =
      go (rename_remotely o old new from to s).0 (rename_remotely o old new from to s).1 refl h
    where
      go :
          (r : Result (Unit {0}) DriveError) (s' : Store (o.World))
          → s'.db ≡ s.db
          → (rekey_after o old new to r s').0 ≡ ok tt
          → IsFollowed old new to s.db.pins (rekey_after o old new to r s').1.db.pins
      go (ok _) s' e k = rw (sym e) (inl (rename-IsFollowed old new to s' (rw e u) (rw e p) k))
      go (err _) s' e k = rw (sym e) (inr (rename-IsFollowed old old to s' (rw e u) (rw e p) k))

  -- Where a pinned file is renamed to another place under the cache root and the handler succeeds, its
  -- pin stands with the new local path, under the new remote path or, as after a failure of the
  -- CLI, under the old one: the file is never dropped from the record.
  pub handle_rename-IsFollowed :
      (from to old new : Text) (s : Store (o.World))
      → UniqueKeys s.db.pins
      → remote_of from s.db.pins ≡ some old
      → remote_path_for_local s.root to ≡ some new
      → (handle_rename o from to s).0 ≡ ok tt
      → IsFollowed old new to s.db.pins (handle_rename o from to s).1.db.pins
  unfolding handle_rename lookup_by_local_path root_of
  handle_rename-IsFollowed from to old new s u found place h =
      go (query o (λ db. remote_of from db.pins) s) (query-db o (λ db. remote_of from db.pins) s)
        (query-value o (λ db. remote_of from db.pins) s)
        (query-root o (λ db. remote_of from db.pins) s) h
    where
      finish :
          (a r : Option Text) (s1 : Store (o.World))
          → a ≡ some old
          → r ≡ some new
          → s1.db ≡ s.db
          → (rename_pinned o from to a r s1).0 ≡ ok tt
          → IsFollowed old new to s.db.pins (rename_pinned o from to a r s1).1.db.pins
      finish a r s1 ea er e k =
          rw (ea, er, sym e)
            (rename_pinned-IsFollowed from to old new s1 (rw e u)
              (rw e (is_some-remote_of from old s.db.pins found))
              (subst (λ x. (rename_pinned o from to x (some new) s1).0 ≡ ok tt) ea
                (subst (λ x. (rename_pinned o from to a x s1).0 ≡ ok tt) er k)))

      next : Option Text → Op o (Unit {0})
      next r s1 = rename_pinned o from to r (remote_path_for_local s1.root to) s1

      go :
          (r : Result (Option Text) DriveError × Store (o.World))
          → r.1.db ≡ s.db
          → ((a : Option Text) → r.0 ≡ ok a → a ≡ remote_of from s.db.pins)
          → r.1.root ≡ s.root
          → (resume r next).0 ≡ ok tt
          → IsFollowed old new to s.db.pins (resume r next).1.db.pins
      go (ok a, s1) e v q k =
          finish a (remote_path_for_local s1.root to) s1 (v a refl ∙ found) (rw q place) e k
      go (err m, s1) e v q k = absurd (cc)
