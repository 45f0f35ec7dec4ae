-- ===== src/Cache/Refines.antt =====
-- The tables of core/src/cache.rs as an index of pins in the sense of Cache/Spec.antt.
use kio_protondrive.Base.{ℕ, Text, Option, Result, ok, err, ◌≡◌, refl, ap, arith}
use kio_protondrive.Table.{UniqueKeys}
use kio_protondrive.Outside.{Outside, DriveError}
use kio_protondrive.Store.{Store, Db, look}
use kio_protondrive.Store.Keeps.{Keeps, keeps_rules, query-db, query-value, execute-db}
use kio_protondrive.Cache.Pins
use kio_protondrive.Cache.Pins.{in_tree, tree_prefix, rekey, remote_of, rows_in_tree, is_some}
use kio_protondrive.Cache.Pinned.{pin_lem}
use kio_protondrive.Cache.Measured.{pin-IsMeasuredAt}
use kio_protondrive.Cache.Unpin.{KeepsFiles, unpin-db, unpin_tree_clears}
use kio_protondrive.Cache.Renamed.{rename-rekey}
use kio_protondrive.Cache.Keyed.{
  IsKeyed, synced_at, pin-Keeps, unpin-Keeps, unpin_tree-Keeps, rename-Keeps, mark_synced-Keeps,
}
use kio_protondrive.Cache.Thinned.{view, unpin_tree-Thinned}
use kio_protondrive.Cache.Effects.{
  pin-Does, unpin-Does, renamed-Does, synced-Does, unpinned_tree-Does, remote_of-FoundBy,
}
use kio_protondrive.Cache.Spec
use kio_protondrive.Cache.Spec.{
  PinMap, Seen, Call, Answer, Does, Succeeds, Fails, FoundBy, changed, rekeyed, synced, PinIndex,
}

module _ (o : Outside) where
  -- The files of a store.
  abbrev pub seen_in : Store (o.World) → Seen
  seen_in s = record { is_file = λ p. o.is_file p s.world; metadata = λ p. o.metadata p s.world }

  pub rename-Does :
      (old new local : Text) (s : Store (o.World))
      → UniqueKeys s.db.pins
      → Does
          (Spec.rename old new local)
          (Pins.rename o old new local s).0
          (seen_in (Pins.rename o old new local s).1)
          (view s.db)
          (view (Pins.rename o old new local s).1.db)
  rename-Does old new local s u =
      renamed-Does old new local _ _ s.db _ u (rename-rekey o old new local s)

  mark_synced-Does :
      (path : Text) (m n : ℕ) (s : Store (o.World))
      → Does
          (Spec.mark_synced path m n)
          (Pins.mark_synced o path m n s).0
          (seen_in (Pins.mark_synced o path m n s).1)
          (view s.db)
          (view (Pins.mark_synced o path m n s).1.db)
  unfolding Pins.mark_synced look
  mark_synced-Does path m n s =
      let t = o.now s.world in
      synced-Does path m n t _ _ s.db _ (execute-db o (synced_at path m n t) s)

  lookup-Does :
      (path : Text) (s : Store (o.World))
      → Does
          (Spec.lookup path)
          (Pins.lookup o path s).0
          (seen_in (Pins.lookup o path s).1)
          (view s.db)
          (view (Pins.lookup o path s).1.db)
  unfolding Pins.lookup
  lookup-Does path s = ground arith

  needs_upload-Does :
      (path : Text) (m n : ℕ) (s : Store (o.World))
      → Does
          (Spec.needs_upload path m n)
          (Pins.needs_upload o path m n s).0
          (seen_in (Pins.needs_upload o path m n s).1)
          (view s.db)
          (view (Pins.needs_upload o path m n s).1.db)
  unfolding Pins.needs_upload
  needs_upload-Does path m n s = ground arith

  found-Does :
      (local : Text) (seen : Seen) (r : Result (Option Text) DriveError) (db db' : Db)
      → UniqueKeys db.pins
      → db' ≡ db
      → ((a : Option Text) → r ≡ ok a → a ≡ remote_of local db.pins)
      → Does (Spec.lookup_by_local_path local) r seen (view db) (view db')
  found-Does local seen (ok a) db db' u e v =
      (rw (v a refl) (remote_of-FoundBy local db.pins u), ap view e)
  found-Does local seen (err _) db db' u e v = ap view e

  lookup_by_local_path-Does :
      (local : Text) (s : Store (o.World))
      → UniqueKeys s.db.pins
      → Does
          (Spec.lookup_by_local_path local)
          (Pins.lookup_by_local_path o local s).0
          (seen_in (Pins.lookup_by_local_path o local s).1)
          (view s.db)
          (view (Pins.lookup_by_local_path o local s).1.db)
  unfolding Pins.lookup_by_local_path
  lookup_by_local_path-Does local s u =
      found-Does local _ _ s.db _ u (query-db o (λ db. remote_of local db.pins) s)
        (query-value o (λ db. remote_of local db.pins) s)

module _ (o : Outside) where
  -- The operation of a call.
  unfoldable pub performed :
      (c : Call) → Store (o.World) → Result (Answer c) DriveError × Store (o.World)
  performed (Spec.pin path force) = Pins.pin o path force
  performed (Spec.unpin path force) = Pins.unpin o path force
  performed (Spec.unpin_tree path force) = Pins.unpin_tree o path force
  performed (Spec.rename old new local) = Pins.rename o old new local
  performed (Spec.mark_synced path m n) = Pins.mark_synced o path m n
  performed (Spec.lookup path) = Pins.lookup o path
  performed (Spec.lookup_by_local_path local) = Pins.lookup_by_local_path o local
  performed (Spec.needs_upload path m n) = Pins.needs_upload o path m n

  -- On a database with one row for each remote path, and where statements do not change the files, `pin`,
  -- `unpin`, `unpin_tree`, `rename` of one row, `mark_synced` and the look-ups do to the map of pins what
  -- the description of the call says: on success with the answer, of which `pin` records the time and
  -- size that the copy has behind it and `lookup` tells whether the file is there, and on failure, where
  -- the map stays as it was, save that `unpin_tree` may have taken out some of the pins of its tree.
  pub performed-Does :
      (c : Call) (s : Store (o.World))
      → KeepsFiles o
      → UniqueKeys s.db.pins
      → Does c
          (performed c s).0
          (seen_in o (performed c s).1)
          (view s.db)
          (view (performed c s).1.db)
  unfolding performed
  performed-Does (Spec.pin path force) s k u =
      pin-Does path force _ _ s.db _ (pin_lem o path force s)
        (λ local h. pin-IsMeasuredAt o path k force local s h)
  performed-Does (Spec.unpin path force) s k u =
      unpin-Does path force _ _ s.db _ (unpin-db o path force s)
  performed-Does (Spec.unpin_tree path force) s k u =
      unpinned_tree-Does path force _ _ s.db (Pins.unpin_tree o path force s).1.db
        (λ h j. (unpin_tree_clears o path force s h j).0) (unpin_tree-Thinned o path force s)
  performed-Does (Spec.rename old new local) s k u = rename-Does o old new local s u
  performed-Does (Spec.mark_synced path m n) s k u = mark_synced-Does o path m n s
  performed-Does (Spec.lookup path) s k u = lookup-Does o path s
  performed-Does (Spec.lookup_by_local_path local) s k u = lookup_by_local_path-Does o local s u
  performed-Does (Spec.needs_upload path m n) s k u = needs_upload-Does o path m n s

  pub performed-Keeps : (c : Call) → Keeps o IsKeyed (performed c)
  unfolding performed Pins.lookup Pins.lookup_by_local_path Pins.needs_upload
  performed-Keeps (Spec.pin path force) = pin-Keeps path force
  performed-Keeps (Spec.unpin path force) = unpin-Keeps path force
  performed-Keeps (Spec.unpin_tree path force) = unpin_tree-Keeps path force
  performed-Keeps (Spec.rename old new local) = rename-Keeps old new local
  performed-Keeps (Spec.mark_synced path m n) = mark_synced-Keeps path m n
  performed-Keeps (Spec.lookup path) = search keeps_rules
  performed-Keeps (Spec.lookup_by_local_path local) = search keeps_rules
  performed-Keeps (Spec.needs_upload path m n) = search keeps_rules

  abbrev pub Keyed : Type 0
  Keyed = (s : Store (o.World)) × IsKeyed s.db

  -- The tables as an index of pins.
  abbrev pub pin_index : KeepsFiles o → PinIndex
  pin_index k = record {
    State = Keyed;
    pins = λ s. view s.0.db;
    seen = λ s. seen_in o s.0;
    perform = λ c s. let (r, s') = performed c s.0 in (r, (s', (performed-Keeps c).holds s.0 s.1));
    does = λ c s. performed-Does c s.0 k s.1;
  }
