-- ===== src/Cache/Thinned.antt =====
-- What `unpin_tree` of core/src/cache.rs takes out of the pins, whether it succeeds or stops.
use kio_protondrive.Base.{
  Text, Bool, true, none, List, [], ◌∷◌, Result, ok, err, resume, ◌≡◌, ◌⊎◌, inl, refl, sym, ap,
  arith,
}
use mathlib.Core.Path.{subst}
use kio_protondrive.Table.{Table, find}
use kio_protondrive.Table.Laws.{find-delete}
use kio_protondrive.Outside.{Outside, DriveError}
use kio_protondrive.Store.{Store, Db, Pin}
use kio_protondrive.Store.Keeps.{query-db, query-value}
use kio_protondrive.Cache.Pins
use kio_protondrive.Cache.Pins.{in_tree, tree_prefix, rows_in_tree}
use kio_protondrive.Cache.Unpin.{unpin-db, unpinned}
use kio_protondrive.Cache.Spec.{PinMap}

-- What can be seen of a database.
abbrev pub view : Db → PinMap
view db k = find k db.pins

-- Nothing but paths of a kind is gone.
abbrev pub Thinned : (Text → Bool) → PinMap → PinMap → Type 0
Thinned p m m' = (k : Text) → (m' k ≡ m k) ⊎ ((p k ≡ true) × (m' k ≡ none))

Thinned-trans : (p : Text → Bool) (a b c : PinMap) → Thinned p a b → Thinned p b c → Thinned p a c
Thinned-trans p a b c h h' k = ground (arith, h k, h' k)

unpinned-Thinned :
    (p : Text → Bool) (path : Text) (r : Result (Unit {0}) DriveError) (db db' : Db)
    → p path ≡ true
    → db' ≡ unpinned path r db
    → Thinned p (view db) (view db')
unpinned-Thinned p path (ok _) db db' h e k = ground (arith, find-delete path k db.pins)
unpinned-Thinned p path (err _) db db' h e k = inl (ap (λ d. view d k) e)

abbrev pub AllKeys : (Text → Bool) → List (Text × Text) → Type 0
AllKeys p [] = Unit
AllKeys p ((k, _) ∷ rows) = (p k ≡ true) × AllKeys p rows

pub rows_in_tree-AllKeys : (p : Text → Bool) (t : Table Pin) → AllKeys p (rows_in_tree p t)
unfolding rows_in_tree
rows_in_tree-AllKeys p [] = tt
rows_in_tree-AllKeys p ((k, r) ∷ t) = ground (arith, rows_in_tree-AllKeys p t)

module _ (o : Outside) where
  unpin_next-Thinned :
      (p : Text → Bool) (path : Text) (force : Bool) (rows : List (Text × Text)) (db : Db)
      → p path ≡ true
      → (r : Result (Unit {0}) DriveError × Store (o.World)) → r.1.db ≡ unpinned path r.0 db
      → ((s : Store (o.World)) → Thinned p (view s.db) (view (Pins.unpin_each o force rows s).1.db))
      → Thinned p (view db) (view (resume r (λ _. Pins.unpin_each o force rows)).1.db)
  unpin_next-Thinned p path force rows db h (ok a, s) e ih =
      Thinned-trans p _ (view s.db) _ (unpinned-Thinned p path (ok a) db s.db h e) (ih s)
  unpin_next-Thinned p path force rows db h (err m, s) e ih =
      unpinned-Thinned p path (err m) db s.db h e

  unpin_each-Thinned :
      (p : Text → Bool) (force : Bool) (rows : List (Text × Text)) (s : Store (o.World))
      → AllKeys p rows
      → Thinned p (view s.db) (view (Pins.unpin_each o force rows s).1.db)
  unfolding Pins.unpin_each
  unpin_each-Thinned p force [] s a = λ k. inl refl
  unpin_each-Thinned p force ((k, l) ∷ rows) s (h, a) =
      unpin_next-Thinned p k force rows s.db h (Pins.unpin o k force s) (unpin-db o k force s)
        λ s'. unpin_each-Thinned p force rows s' a

  unpin_rows-Thinned :
      (p : Text → Bool) (force : Bool) (db : Db)
      → (r : Result (List (Text × Text)) DriveError × Store (o.World)) → r.1.db ≡ db
      → ((a : List (Text × Text)) → r.0 ≡ ok a → a ≡ rows_in_tree p db.pins)
      → Thinned p (view db) (view (resume r (Pins.unpin_each o force)).1.db)
  unpin_rows-Thinned p force db (ok a, s) e v =
      subst (λ d. Thinned p (view d) (view (Pins.unpin_each o force a s).1.db)) e
        (unpin_each-Thinned p force a s
          (subst (AllKeys p) (sym (v a refl)) (rows_in_tree-AllKeys p db.pins)))
  unpin_rows-Thinned p force db (err m, s) e v = λ k. inl (ap (λ d. view d k) e)

  pub unpin_tree-Thinned :
      (path : Text) (force : Bool) (s : Store (o.World))
      → Thinned
          (in_tree path (tree_prefix path))
          (view s.db)
          (view (Pins.unpin_tree o path force s).1.db)
  unfolding Pins.unpin_tree
  unpin_tree-Thinned path force s =
      let p = in_tree path (tree_prefix path) in
      unpin_rows-Thinned p force s.db _ (query-db o (λ db. rows_in_tree p db.pins) s)
        (query-value o (λ db. rows_in_tree p db.pins) s)
