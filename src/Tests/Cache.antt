-- ===== src/Tests/Cache.antt =====
-- The theorems on the cache, on the small world.
use kio_protondrive.Base.{
  Text, str, text_dec, true, false, none, some, [], ◌∷◌, List, ok, ◌≡◌, ◌≢◌, refl, ◌⊎◌, starts_with,
  ends_with, arith, trim_start_matches, trim_end_matches, split,
}
use kio_protondrive.Table
use kio_protondrive.Table.{find, UniqueKeys}
use kio_protondrive.Cache.Pins
use kio_protondrive.Cache.Paths
use kio_protondrive.Cache.Files
use kio_protondrive.Cache.Nodes
use kio_protondrive.Cache.Guarded.{pin_refuses_edits, Refused}
use kio_protondrive.Cache.Unpin.{unpin_refuses_edits}
use kio_protondrive.Cache.Under.{Cleared, not_below}
use kio_protondrive.Cache.Moved.{rename_tree_leaves}
use kio_protondrive.Cache.Cleared.{unpin_tree-Cleared, invalidate_tree-Cleared}
use kio_protondrive.Cache.Pinned.{pin_lem, Pinned}
use kio_protondrive.Cache.Confined.{target_dir-IsConfined, all_confined}
use kio_protondrive.Cache.Evicted.{evict_stale_keeps}
use kio_protondrive.Cache.Stored.{cached_listing-store_listing}
use kio_protondrive.Store
use kio_protondrive.Outside
use kio_protondrive.Tests.World.{
  sample, cached, database, store, empty, photo, pin_before, one_text-IsFaithful,
  NodeEntry-discrete, NodeEntries-discrete,
}

find_pin : find (str "/a/b.txt") database.pins ≡ some pin_before
unfolding find text_dec str
find_pin = refl

unpin_refuses_edits_example :
    ((Pins.unpin sample (str "/a/b.txt") false store).0 ≢ ok tt)
    × ((Pins.unpin sample (str "/a/b.txt") false store).1.db ≡ database)
    × (sample.is_file (str "/root/a/b.txt") (Pins.unpin sample (str "/a/b.txt") false store).1.world
        ≡ true)
    × (sample.metadata
          (str "/root/a/b.txt")
          (Pins.unpin sample (str "/a/b.txt") false store).1.world
        ≡ Outside.done (record { mtime = 7; len = 3 }))
unfolding find text_dec str
unpin_refuses_edits_example =
    unpin_refuses_edits sample (λ w p. (refl, refl)) (str "/a/b.txt") pin_before
      (record { mtime = 7; len = 3 }) store refl refl refl refl

unpin_tree-Cleared_example :
    Cleared
      (str "/a")
      (str "/a/b.txt")
      (find (str "/a/b.txt") database.pins)
      (find (str "/a/b.txt") (Pins.unpin_tree sample (str "/a") true store).1.db.pins)
    × ((Pins.unpin_tree sample (str "/a") true store).1.db.cached_files ≡ database.cached_files)
    × ((Pins.unpin_tree sample (str "/a") true store).1.db.stats ≡ database.stats)
    × ((Pins.unpin_tree sample (str "/a") true store).1.db.listings ≡ database.listings)
unfolding Pins.unpin_tree Pins.unpin_each Pins.unpin Store.query Store.execute find text_dec str
    Pins.rows_in_tree Pins.tree_prefix Pins.in_tree starts_with ends_with
unpin_tree-Cleared_example = unpin_tree-Cleared sample (str "/a") true store refl (str "/a/b.txt")

abbrev b_txt : Text
b_txt = str "/a/b.txt"

invalidate_tree-Cleared_example :
    Cleared
      (str "/a")
      b_txt
      (find b_txt database.stats)
      (find b_txt (Nodes.invalidate_tree sample (str "/a") store).1.db.stats)
    × Cleared
        (str "/a")
        b_txt
        (find b_txt database.listings)
        (find b_txt (Nodes.invalidate_tree sample (str "/a") store).1.db.listings)
    × ((Nodes.invalidate_tree sample (str "/a") store).1.db.pins ≡ database.pins)
    × ((Nodes.invalidate_tree sample (str "/a") store).1.db.cached_files ≡ database.cached_files)
    × ((Nodes.invalidate_tree sample (str "/a") store).1.db.timeline ≡ none)
unfolding find text_dec str Nodes.invalidate_tree
invalidate_tree-Cleared_example = invalidate_tree-Cleared sample (str "/a") b_txt store refl

pin_lem_example :
    Pinned b_txt
      (Pins.pin sample b_txt false empty).0
      empty.db
      (Pins.pin sample b_txt false empty).1.db
pin_lem_example = pin_lem sample b_txt false empty

target_dir-IsConfined_example :
    (str "/root/a" ≡ str "/root")
    ⊎ ((ps : List Text) × (str "/root/a" ≡ Paths.path_join (str "/root") (Paths.join_parts ps))
        × (all_confined ps ≡ true))
unfolding find text_dec str Paths.target_dir split trim_start_matches ends_with
target_dir-IsConfined_example = target_dir-IsConfined (str "/root") b_txt (str "/root/a") refl

evict_stale_keeps_example :
    find (str "/c.txt") (Files.evict_stale sample 10 store).1.db.cached_files ≡ some cached
unfolding find text_dec str
evict_stale_keeps_example =
    evict_stale_keeps sample 10 store (str "/c.txt") cached (refl, tt) refl (omega (arith))

cached_listing-store_listing_example : some (photo ∷ []) ≡ some (photo ∷ [])
unfolding find text_dec str NodeEntry-discrete NodeEntries-discrete Nodes.store_listing
    native.Mathlib.Decide.ℕ_discrete Nodes.cached_listing Table.upsert
cached_listing-store_listing_example =
    cached_listing-store_listing sample (one_text-IsFaithful NodeEntries-discrete (photo ∷ []))
      (str "/a") (photo ∷ []) store (some (photo ∷ [])) refl refl

pin_refuses_edits_example :
    Refused sample b_txt pin_before
      (record { mtime = 7; len = 3 })
      database
      (Pins.pin sample b_txt false store)
unfolding find text_dec str kio_protondrive.Cli.Commands.stat_path kio_protondrive.Cli.Runner.run
    kio_protondrive.Cli.Runner.run_once kio_protondrive.Cli.Runner.retry
    kio_protondrive.Cli.Answer.is_transient_lock_contention
    kio_protondrive.Cli.Answer.ensure_success
pin_refuses_edits_example =
    pin_refuses_edits sample b_txt pin_before (record { mtime = 7; len = 3 }) (λ w p. (refl, refl))
      store (refl, refl, refl, refl)

rename_tree_leaves_example :
    find (str "/a/b.txt") (Pins.rename_tree sample (str "/a/b/") (str "/c") store).1.db.pins
    ≡ find (str "/a/b.txt") database.pins
unfolding str find text_dec Pins.in_tree Pins.tree_prefix starts_with ends_with trim_end_matches
rename_tree_leaves_example =
    rename_tree_leaves sample (str "/a/b/") (str "/c") (str "/a/b.txt") store (refl, tt)
      (not_below (str "/a/b") (str "/a/b.txt") refl) (not_below (str "/c") (str "/a/b.txt") refl)
