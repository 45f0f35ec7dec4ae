-- ===== src/Cache/Settled.antt =====
-- Cache/Client.antt, for the tables of core/src/cache.rs.
use kio_protondrive.Base.{ℕ, Text, Bool, List, [], ◌∷◌, ok, ◌≡◌, refl, sym}
use mathlib.Core.Path.{subst}
use kio_protondrive.Table.{find, UniqueKeys}
use kio_protondrive.Outside.{Outside}
use kio_protondrive.Store.{Store}
use kio_protondrive.Cache.Pins
use kio_protondrive.Cache.Unpin.{KeepsFiles}
use kio_protondrive.Cache.Spec.{Call, mark_synced}
use kio_protondrive.Cache.Client.{AllAvoid, after, edited, after_synced}
use kio_protondrive.Cache.Refines.{performed, pin_index, Keyed}

module _ (o : Outside) where
  -- The store after calls one after the other.
  abbrev pub ran : List Call → Store (o.World) → Store (o.World)
  ran [] s = s
  ran (c ∷ cs) s = ran cs (performed o c s).1

  ran-after :
      (k : KeepsFiles o) (cs : List Call) (s : Keyed o)
      → (after (pin_index o k) cs s).0 ≡ ran cs s.0
  ran-after k [] s = refl
  ran-after k (c ∷ cs) s = ran-after k cs ((pin_index o k).perform c s).1

  -- On a database with one row for each remote path, and where statements do not change the files: once
  -- `mark_synced` has succeeded, and whatever `pin`, `unpin`, `unpin_tree`, `rename` of one row,
  -- `mark_synced` and look-ups that concern other paths follow, succeed or fail, `needs_upload`, where it gives an answer, says for a pinned path just whether the file's time
  -- or size differs from what was marked, and for any other path that there is nothing to upload.
  pub synced_settles :
      (k : Text) (m n mtime size : ℕ) (cs : List Call) (s : Store (o.World)) (b : Bool)
      → KeepsFiles o
      → UniqueKeys s.db.pins
      → AllAvoid k cs
      → (Pins.mark_synced o k m n s).0 ≡ ok tt
      → (Pins.needs_upload o k mtime size (ran cs (Pins.mark_synced o k m n s).1)).0 ≡ ok b
      → b ≡ edited (find k s.db.pins) m n mtime size
  unfolding performed
  synced_settles k m n mtime size cs s b files u h e e' =
      let marked = ((pin_index o files).perform (mark_synced k m n) (s, u)).1 in
      after_synced (pin_index o files) k m n mtime size cs (s, u) b h e
        (subst (λ t. (Pins.needs_upload o k mtime size t).0 ≡ ok b)
          (sym (ran-after files cs marked)) e')
