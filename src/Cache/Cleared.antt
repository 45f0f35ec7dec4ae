-- ===== src/Cache/Cleared.antt =====
-- What `unpin_tree` and `invalidate_tree` of core/src/cache.rs take out, by Cache/Under.antt's account
-- of what is at and below a path.
use kio_protondrive.Base.{Text, Bool, ok, ◌≡◌}
use kio_protondrive.Table.{find}
use kio_protondrive.Outside.{Outside}
use kio_protondrive.Store.{Store}
use kio_protondrive.Cache.Pins.{unpin_tree}
use kio_protondrive.Cache.Nodes.{invalidate_tree}
use kio_protondrive.Cache.Unpin.{unpin_tree_clears}
use kio_protondrive.Cache.Trees.{invalidate_tree_clears}
use kio_protondrive.Cache.Under.{Cleared, in_tree-Cleared}

module _ (o : Outside) where
  -- A successful `unpin_tree` leaves no pin at the path or below it, and every other pin, the cached
  -- files and the node caches as they were. (At and below a path are the path, what continues it behind
  -- a slash, and where it ends in a slash whatever continues it.)
  pub unpin_tree-Cleared :
      (path : Text) (force : Bool) (s : Store (o.World))
      → (unpin_tree o path force s).0 ≡ ok tt
      → (key : Text)
      → Cleared path key (find key s.db.pins) (find key (unpin_tree o path force s).1.db.pins)
        × ((unpin_tree o path force s).1.db.cached_files ≡ s.db.cached_files)
        × ((unpin_tree o path force s).1.db.stats ≡ s.db.stats)
        × ((unpin_tree o path force s).1.db.listings ≡ s.db.listings)
  unpin_tree-Cleared path force s h key =
      let (pins, files, stats, listings) = unpin_tree_clears o path force s h key in
      (in_tree-Cleared path key _ _ pins, files, stats, listings)

  -- A successful `invalidate_tree` leaves no stat and no listing at the path or below it, and every
  -- other one, the pins, the cached files and the photo timeline as they were. (At and below a path are
  -- the path, what continues it behind a slash, and where it ends in a slash whatever continues it.)
  pub invalidate_tree-Cleared :
      (path key : Text) (s : Store (o.World))
      → (invalidate_tree o path s).0 ≡ ok tt
      → Cleared path key (find key s.db.stats) (find key (invalidate_tree o path s).1.db.stats)
        × Cleared path key
            (find key s.db.listings)
            (find key (invalidate_tree o path s).1.db.listings)
        × ((invalidate_tree o path s).1.db.pins ≡ s.db.pins)
        × ((invalidate_tree o path s).1.db.cached_files ≡ s.db.cached_files)
        × ((invalidate_tree o path s).1.db.timeline ≡ s.db.timeline)
  invalidate_tree-Cleared path key s h =
      let (stats, listings, pins, files, timeline) = invalidate_tree_clears o path s h key in
      (
        in_tree-Cleared path key _ _ stats,
        in_tree-Cleared path key _ _ listings,
        pins,
        files,
        timeline,
      )
