-- ===== src/Cache/Trees.antt =====
-- What the test with a path and its prefix matches, and `invalidate_tree`.
use kio_protondrive.Base.{
  none, ok, Text, starts_with, true, [], ◌∷◌, ◌++◌, ◌≡◌, refl, ◌⊎◌, inl, inr, ◌↔◌, arith,
  Bool-cases, if◌then◌else◌, none, ok,
}
use kio_protondrive.Table.{find}
use kio_protondrive.Table.Laws.{find-delete_where}
use kio_protondrive.Outside.{Outside}
use kio_protondrive.Store.{Store, Db}
use kio_protondrive.Cache.Nodes.{invalidate_tree, delete_stats_in, delete_listings_in}
use kio_protondrive.Cache.Pins.{tree_prefix, in_tree}

-- `key` is `path`, or `path`, a slash and something.
abbrev pub IsUnder : Text → Text → Type 0
IsUnder path key = (key ≡ path) ⊎ ((rest : Text) × (key ≡ tree_prefix path ++ rest))

pub starts_with-append : (p s : Text) → starts_with (p ++ s) p ≡ true
unfolding starts_with
starts_with-append [] s = refl
starts_with-append (c ∷ p) s = ground (arith, starts_with-append p s)

pub starts_with_rest : (s p : Text) → starts_with s p ≡ true → (rest : Text) × (s ≡ p ++ rest)
unfolding starts_with
starts_with_rest s [] h = (s, refl)
starts_with_rest [] (p ∷ ps) h = absurd (cc)
starts_with_rest (c ∷ s) (p ∷ ps) h =
    let (rest, e) = starts_with_rest s ps (ground arith) in (rest, ground arith)

-- The test of a key against a path and its prefix finds the path itself and what continues the path
-- behind a slash, and nothing else.
pub in_tree_iff :
    (path key : Text) → (in_tree path (tree_prefix path) key ≡ true) ↔ IsUnder path key
unfolding in_tree
in_tree_iff path key = (to, from)
  where
    to : in_tree path (tree_prefix path) key ≡ true → IsUnder path key
    to h = elim (Bool-cases (starts_with key (tree_prefix path))) [
      | inl e ↦ inr (starts_with_rest key (tree_prefix path) e)
      | inr e ↦ inl (ground arith)
    ]

    from : IsUnder path key → in_tree path (tree_prefix path) key ≡ true
    from (inl e) = ground arith
    from (inr (rest, e)) = rw e (ground (arith, starts_with-append (tree_prefix path) rest))

-- Both statements, on the tables.
abbrev without_tree : Text → Db → Db
without_tree path db = delete_listings_in path (delete_stats_in path db)

module _ (o : Outside) (path : Text) (s : Store (o.World)) where
  invalidate_tree-db :
      (invalidate_tree o path s).0 ≡ ok tt
      → (invalidate_tree o path s).1.db ≡ without_tree path s.db
  unfolding invalidate_tree
  invalidate_tree-db h = ground arith

  -- A successful `invalidate_tree` leaves no stat and no listing that `in_tree` finds at the path or
  -- below it, and every other one, the pins, the cached files and the photo timeline as they were.
  pub invalidate_tree_clears :
      (invalidate_tree o path s).0 ≡ ok tt
      → (key : Text)
      → (find key (invalidate_tree o path s).1.db.stats
          ≡ (if in_tree path (tree_prefix path) key then none else find key s.db.stats))
        × (find key (invalidate_tree o path s).1.db.listings
            ≡ (if in_tree path (tree_prefix path) key then none else find key s.db.listings))
        × ((invalidate_tree o path s).1.db.pins ≡ s.db.pins)
        × ((invalidate_tree o path s).1.db.cached_files ≡ s.db.cached_files)
        × ((invalidate_tree o path s).1.db.timeline ≡ s.db.timeline)
  invalidate_tree_clears h key = rw (invalidate_tree-db h) (
      unfold delete_stats_in delete_listings_in in
      (find-delete_where _ key s.db.stats, find-delete_where _ key s.db.listings, refl, refl, refl))
