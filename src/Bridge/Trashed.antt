-- ===== src/Bridge/Trashed.antt =====
-- The caches behind a `trash` of core/src/bridge.rs.
use kio_protondrive.Base.{
  ◌≡◌, ltb, zero, suc, ℕ, refl, arith, Text, Option, none, some, Result, ok, err, Bool, true, false,
  resume, attempt, ◌>>=◌, pure, if◌then◌else◌,
}
use kio_protondrive.Table.{find, delete}
use kio_protondrive.Outside.{Outside, DriveError, done}
use kio_protondrive.Store.{Store, Db, Op, execute, query, outside}
use kio_protondrive.Store.Keeps.{Keeps, keeps_rules, Keeps-execute}
use kio_protondrive.Cache.Pins.{in_tree, tree_prefix}
use kio_protondrive.Table.Laws.{find-delete}
use kio_protondrive.Cache.Nodes.{
  invalidate_tree, invalidate_listing, open_at, set_up, migrate, make_parent, make_dir,
  empty_node_caches, node_cache_version,
}
use kio_protondrive.Cache.Trees.{invalidate_tree_clears}
use kio_protondrive.Cache.Under.{IsAtOrBelow, in_tree-IsAtOrBelow}
use kio_protondrive.Cli.Commands
use kio_protondrive.Bridge.Entries.{Places, open_cache, with_cache, if_open}
use kio_protondrive.Bridge.Writes.{trash, holder, invalidate_holder}

-- The caches have nothing of a path.
abbrev pub IsForgotten : Text → Db → Type 0
IsForgotten key db = (find key db.stats ≡ none) × (find key db.listings ≡ none)

-- The action gives a result wherever it starts.
pub record Succeeds (o : Outside) {A : Type 0} (m : Op o A) : Type 0 where
  pub holds : (s : Store (o.World)) → (a : A) × ((m s).0 ≡ ok a)

module _ {o : Outside} where
  resume-ok :
      {A B : Type 0} (f : A → Op o B) (r : Result A DriveError × Store (o.World))
      → ((a : A) → Succeeds o (f a))
      → ((a : A) × (r.0 ≡ ok a))
      → (b : B) × ((resume r f).0 ≡ ok b)
  resume-ok f (ok a, s) k (b, e) = (k a).holds s
  resume-ok f (err m, s) k (b, e) = absurd (cc)

  Succeeds-bind :
      {A B : Type 0} {m : Op o A} {f : A → Op o B}
      → Succeeds o m
      → ((a : A) → Succeeds o (f a))
      → Succeeds o (m >>= f)
  Succeeds-bind {m = m} {f = f} k g = record { holds = λ s. resume-ok f (m s) g (k.holds s) }

  Succeeds-pure : {A : Type 0} (a : A) → Succeeds o (pure a)
  Succeeds-pure a = record { holds = λ s. (a, refl) }

module _ (o : Outside) (at : Places) where
  -- SQLite runs every statement, and every folder can be made.
  abbrev pub IsWorking : Type 0
  IsWorking =
      ((w : o.World) → (o.db_error w).0 ≡ none)
      × ((p : Text) (w : o.World) → (o.create_dir_all p w).0 ≡ done tt)

  forget_one :
      (p key : Text) (db : Db)
      → IsForgotten key db
      → IsForgotten key (record db { listings = delete p db.listings })
  forget_one p key db (a, b) = (a, ground (arith, find-delete p key db.listings))

  invalidate_holder-Keeps :
      (key : Text) (h : Option Text) → Keeps o (IsForgotten key) (invalidate_holder o at h)
  unfolding invalidate_listing
  invalidate_holder-Keeps key none = search keeps_rules
  invalidate_holder-Keeps key (some p) = search (keeps_rules, Keeps-execute, forget_one)

  pub execute-ok : IsWorking → (f : Db → Db) (s : Store (o.World)) → (execute o f s).0 ≡ ok tt
  unfolding execute
  execute-ok k f s = ground (arith, k.0 s.world)

  invalidate_tree-ok :
      IsWorking → (path : Text) (s : Store (o.World)) → (invalidate_tree o path s).0 ≡ ok tt
  unfolding invalidate_tree
  invalidate_tree-ok k path s = ground (arith, k.0 s.world, k.0 (o.db_error s.world).1)

  Succeeds-execute : IsWorking → (f : Db → Db) → Succeeds o (execute o f)
  Succeeds-execute k f = record { holds = λ s. (tt, execute-ok k f s) }

  Succeeds-query : IsWorking → {A : Type 0} (f : Db → A) → Succeeds o (query o f)
  unfolding query
  Succeeds-query k f = record { holds = λ s. (f s.db, ground (arith, k.0 s.world)) }

  Succeeds-make_dir : IsWorking → (p : Text) → Succeeds o (make_dir o p)
  unfolding make_dir outside
  Succeeds-make_dir k p = record { holds = λ s. (tt, rw (k.1 p s.world) refl) }

  Succeeds-make_parent : IsWorking → (p : Option Text) → Succeeds o (make_parent o p)
  unfolding make_parent
  Succeeds-make_parent k none = Succeeds-pure tt
  Succeeds-make_parent k (some p) = Succeeds-make_dir k p

  Succeeds-set_up : IsWorking → (n : ℕ) → Succeeds o (set_up o n)
  unfolding set_up
  Succeeds-set_up k zero = Succeeds-pure tt
  Succeeds-set_up k (suc n) = Succeeds-bind (Succeeds-execute k (λ db. db)) λ _. Succeeds-set_up k n

  Succeeds-migrate : IsWorking → (version : ℕ) → Succeeds o (migrate o version)
  unfolding migrate
  Succeeds-migrate k version = either (ltb version node_cache_version)
    where
      either : (b : Bool) → Succeeds o (if b then execute o empty_node_caches else pure tt)
      either true = Succeeds-execute k empty_node_caches
      either false = Succeeds-pure tt

  pub open_cache-ok : IsWorking → Succeeds o (open_cache o at)
  unfolding open_cache open_at
  open_cache-ok k = Succeeds-bind (Succeeds-make_parent k at.db_folder) λ _.
      Succeeds-bind (Succeeds-make_dir k at.root) λ _. Succeeds-bind (Succeeds-set_up k 8) λ _.
        Succeeds-bind (Succeeds-query k (λ db. db.user_version)) λ version.
          Succeeds-bind (Succeeds-migrate k version) λ _. record { holds = λ s. (tt, refl) }

  invalidate_tree-IsForgotten :
      (path key : Text) (s : Store (o.World))
      → IsWorking
      → in_tree path (tree_prefix path) key ≡ true
      → IsForgotten key (invalidate_tree o path s).1.db
  invalidate_tree-IsForgotten path key s k h =
      let (a, b, _, _, _) = invalidate_tree_clears o path s (invalidate_tree-ok k path s) key in
      (ground arith, ground arith)

  forget : Text → Op o (Unit {0})
  forget path = attempt (invalidate_tree o path) >>= λ _. invalidate_holder o at (holder path)

  after_open :
      (path key : Text) (r : Result (Unit {0}) DriveError × Store (o.World))
      → IsWorking
      → in_tree path (tree_prefix path) key ≡ true
      → ((a : Unit {0}) × (r.0 ≡ ok a))
      → IsForgotten key (resume (attempt (λ _. r) r.1) (if_open o at (forget path))).1.db
  unfolding forget
  after_open path key (ok _, s) k h e =
      (invalidate_holder-Keeps key (holder path)).holds (invalidate_tree o path s).1
        (invalidate_tree-IsForgotten path key s k h)
  after_open path key (err m, s) k h (a, e) = absurd (cc)

  -- Where the index can be opened and SQLite runs its statements, a successful `trash` leaves neither
  -- a stat nor a listing in the caches for the path or for what is below it: what continues it behind
  -- a slash, or whatever continues it where it ends in a slash.
  pub trash-IsForgotten :
      IsWorking
      → (path key : Text) (s : Store (o.World)) → (trash o at path s).0 ≡ ok tt
      → IsAtOrBelow path key
      → IsForgotten key (trash o at path s).1.db
  unfolding trash with_cache outside forget
  trash-IsForgotten k path key s h u = go (Commands.trash_path o path s.world).0 h
    where
      opened : Store (o.World)
      opened = record s { world = (Commands.trash_path o path s.world).1 }

      go :
          (r : Result (Unit {0}) DriveError)
          → (resume (r, opened) (λ _. with_cache o at (forget path))).0 ≡ ok tt
          → IsForgotten key (resume (r, opened) (λ _. with_cache o at (forget path))).1.db
      go (err m) e = absurd (cc)
      go (ok _) e =
          after_open path key (open_cache o at opened) k ((in_tree-IsAtOrBelow path key).1 u)
            ((open_cache-ok k).holds opened)
