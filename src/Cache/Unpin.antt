-- ===== src/Cache/Unpin.antt =====
-- `unpin` and `unpin_tree`: what they take out of the record, and what stops them.
use kio_protondrive.Base.{
  ◌≡◌, ◌≢◌, refl, sym, arith, ap, ◌∙◌, Text, same, Option, none, some, [], ◌∷◌, List, Result, ok,
  err, Bool, true, false, ◌&&◌, ◌||◌, if◌then◌else◌, resume,
}
use kio_protondrive.Table.{Table, find, delete}
use kio_protondrive.Table.Laws.{find-delete}
use kio_protondrive.Outside.{Outside, DriveError, Metadata, done}
use kio_protondrive.Store.{Store, Db, Pin, query}
use kio_protondrive.Store.Keeps.{query-db, query-value}
use kio_protondrive.Cache.Pins.{
  unpin, unpin_tree, unpin_each, lookup, drop_local, guard_edits, is_dirty, rows_in_tree, in_tree,
  tree_prefix, differs_from, is_some,
}

abbrev pub without_pin : Text → Db → Db
without_pin path db = record db { pins = delete path db.pins }

-- What a result of `unpin` says of the database.
abbrev pub unpinned : Text → Result (Unit {0}) DriveError → Db → Db
unpinned path (ok _) db = without_pin path db
unpinned path (err _) db = db

only_found :
    (b : Bool) (r : Option Pin) → (if b && is_some r then none else r) ≡ (if b then none else r)
only_found true none = refl
only_found true (some p) = refl
only_found false r = refl

module _ (o : Outside) where
  -- `unpin` either takes out the row of its path, or fails and leaves the database as it was.
  pub unpin-db :
      (path : Text) (force : Bool) (s : Store (o.World))
      → (unpin o path force s).1.db ≡ unpinned path (unpin o path force s).0 s.db
  unfolding unpin lookup drop_local guard_edits is_dirty
  unpin-db path force s = ground arith

  -- Pins of the rows, one after the other.
  abbrev delete_rows : List (Text × Text) → Table Pin → Table Pin
  delete_rows [] t = t
  delete_rows ((k, _) ∷ rows) t = delete_rows rows (delete k t)

  abbrev without_pins : List (Text × Text) → Db → Db
  without_pins rows db = record db { pins = delete_rows rows db.pins }

  abbrev has_key : Text → List (Text × Text) → Bool
  has_key k [] = false
  has_key k ((j, _) ∷ rows) = same j k || has_key k rows

  find-delete_rows :
      (k : Text) (rows : List (Text × Text)) (t : Table Pin)
      → find k (delete_rows rows t) ≡ (if has_key k rows then none else find k t)
  find-delete_rows k [] t = refl
  find-delete_rows k ((j, l) ∷ rows) t =
      ground (arith, find-delete_rows k rows (delete j t), find-delete j k t)

  has_key-rows_in_tree :
      (p : Text → Bool) (k : Text) (t : Table Pin)
      → has_key k (rows_in_tree p t) ≡ (p k && is_some (find k t))
  unfolding rows_in_tree find
  has_key-rows_in_tree p k [] = ground arith
  has_key-rows_in_tree p k ((j, r) ∷ t) = ground (arith, has_key-rows_in_tree p k t)

  unpin_each-step :
      (path : Text) (force : Bool) (rows : List (Text × Text)) (s : Store (o.World))
      → (r : Result (Unit {0}) DriveError × Store (o.World)) → r.1.db ≡ unpinned path r.0 s.db
      → ((s' : Store (o.World))
          → (unpin_each o force rows s').0 ≡ ok tt
          → (unpin_each o force rows s').1.db ≡ without_pins rows s'.db)
      → (resume r (λ _. unpin_each o force rows)).0 ≡ ok tt
      → (resume r (λ _. unpin_each o force rows)).1.db ≡ without_pins rows (without_pin path s.db)
  unpin_each-step path force rows s (ok _, s') e ih h = ih s' h ∙ ap (without_pins rows) e
  unpin_each-step path force rows s (err m, s') e ih h = absurd (cc)

  unpin_each-db :
      (force : Bool) (rows : List (Text × Text)) (s : Store (o.World))
      → (unpin_each o force rows s).0 ≡ ok tt
      → (unpin_each o force rows s).1.db ≡ without_pins rows s.db
  unfolding unpin_each
  unpin_each-db force [] s h = refl
  unpin_each-db force ((k, l) ∷ rows) s h =
      unpin_each-step k force rows s (unpin o k force s) (unpin-db k force s)
        (λ s'. unpin_each-db force rows s') h

  abbrev rows_under : Text → Db → List (Text × Text)
  rows_under path db = rows_in_tree (in_tree path (tree_prefix path)) db.pins

  unpin_tree-db :
      (path : Text) (force : Bool) (s : Store (o.World))
      → (unpin_tree o path force s).0 ≡ ok tt
      → (unpin_tree o path force s).1.db
        ≡ without_pins (rows_in_tree (in_tree path (tree_prefix path)) s.db.pins) s.db
  unfolding unpin_tree
  unpin_tree-db path force s h =
      go (query o (rows_under path) s) (query-db o (rows_under path) s)
        (query-value o (rows_under path) s) h
    where
      go :
          (r : Result (List (Text × Text)) DriveError × Store (o.World))
          → r.1.db ≡ s.db
          → ((a : List (Text × Text)) → r.0 ≡ ok a → a ≡ rows_under path s.db)
          → (resume r (unpin_each o force)).0 ≡ ok tt
          → (resume r (unpin_each o force)).1.db ≡ without_pins (rows_under path s.db) s.db
      go (ok a, s') same_db v k = rw (sym (v a refl), sym same_db) (unpin_each-db force a s' k)
      go (err m, s') same_db v k = absurd (cc)

  -- A successful `unpin_tree` leaves no pin that `in_tree` finds at the path or below it, and every
  -- other pin, the cached files and the node caches as they were.
  pub unpin_tree_clears :
      (path : Text) (force : Bool) (s : Store (o.World))
      → (unpin_tree o path force s).0 ≡ ok tt
      → (key : Text)
      → (find key (unpin_tree o path force s).1.db.pins
          ≡ (if in_tree path (tree_prefix path) key then none else find key s.db.pins))
        × ((unpin_tree o path force s).1.db.cached_files ≡ s.db.cached_files)
        × ((unpin_tree o path force s).1.db.stats ≡ s.db.stats)
        × ((unpin_tree o path force s).1.db.listings ≡ s.db.listings)
  unpin_tree_clears path force s h key = rw (unpin_tree-db path force s h) (
      rw
        (
          find-delete_rows key (rows_in_tree (in_tree path (tree_prefix path)) s.db.pins) s.db.pins,
          has_key-rows_in_tree (in_tree path (tree_prefix path)) key s.db.pins,
        )
        (only_found (in_tree path (tree_prefix path) key) (find key s.db.pins), refl, refl, refl))

  -- Running a statement, or failing to, does not change the files.
  abbrev pub KeepsFiles : Type 0
  KeepsFiles =
      (w : o.World) (p : Text)
      → (o.is_file p (o.db_error w).1 ≡ o.is_file p w)
        × (o.metadata p (o.db_error w).1 ≡ o.metadata p w)

  -- An unforced `unpin` of a pinned file whose local copy was edited since it was synced fails; the
  -- record and the file are as they were. (No statement changes the files.)
  pub unpin_refuses_edits :
      KeepsFiles
      → (path : Text) (p : Pin) (m : Metadata) (s : Store (o.World)) → find path s.db.pins ≡ some p
      → o.is_file p.local_path s.world ≡ true
      → o.metadata p.local_path s.world ≡ done m
      → differs_from (some p) m.mtime m.len ≡ true
      → ((unpin o path false s).0 ≢ ok tt)
        × ((unpin o path false s).1.db ≡ s.db)
        × (o.is_file p.local_path (unpin o path false s).1.world ≡ true)
        × (o.metadata p.local_path (unpin o path false s).1.world ≡ done m)
  unfolding unpin lookup drop_local guard_edits is_dirty
  unpin_refuses_edits k path p m s found file meta edited =
      ground (arith, k s.world p.local_path, k (o.db_error s.world).1 p.local_path)
