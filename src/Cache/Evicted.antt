-- ===== src/Cache/Evicted.antt =====
-- What the daemon's sweep takes out of the record of cached files.
use kio_protondrive.Base.{
  ◌≡◌, ◌∙◌, ◌+◌, ◌<◌, refl, arith, ℕ, Text, same, Option, none, some, [], ◌∷◌, List, Result, ok,
  err, Bool, false, ◌||◌, attempt, ◌>>=◌,
}
use kio_protondrive.Table.{Table, find, delete, keys_where, UniqueKeys}
use kio_protondrive.Table.Laws.{find-delete}
use kio_protondrive.Outside.{Outside, DriveError}
use kio_protondrive.Store.{Store, Db, CachedFile}
use kio_protondrive.Store.Keeps.{Keeps, keeps_rules, Keeps-execute, Keeps-bind, Keeps-attempt}
use kio_protondrive.Cache.Pins
use kio_protondrive.Cache.Files

abbrev pub Has : Text → Option CachedFile → Db → Type 0
Has key c db = find key db.cached_files ≡ c

abbrev pub listed : Text → List Text → Bool
listed key [] = false
listed key (k ∷ ks) = same k key || listed key ks

abbrev pub holds_of : (Text → CachedFile → Bool) → Text → Option CachedFile → Bool
holds_of p key none = false
holds_of p key (some c) = p key c

listed-fresh :
    (p : Text → CachedFile → Bool) (key : Text) (t : Table CachedFile)
    → find key t ≡ none
    → listed key (keys_where p t) ≡ false
unfolding keys_where find
listed-fresh p key [] h = refl
listed-fresh p key ((j, c) ∷ t) h = ground (arith, listed-fresh p key t)

listed-keys_where :
    (p : Text → CachedFile → Bool) (key : Text) (t : Table CachedFile)
    → UniqueKeys t
    → listed key (keys_where p t) ≡ holds_of p key (find key t)
unfolding keys_where find
listed-keys_where p key [] u = refl
listed-keys_where p key ((j, c) ∷ t) (fresh, u) =
    ground (arith, listed-keys_where p key t u, listed-fresh p key t)

module _ (o : Outside) (key : Text) (c : Option CachedFile) where
  remove_cached-Keeps : (r : Option (Text × Text)) → Keeps o (Has key c) (Files.remove_cached o r)
  unfolding Files.remove_cached Pins.remove_local
  remove_cached-Keeps none = search keeps_rules
  remove_cached-Keeps (some (p, _)) = search keeps_rules

  delete-Has :
      (path : Text)
      → same path key ≡ false
      → (db : Db) → Has key c db
      → Has key c (record db { cached_files = delete path db.cached_files })
  delete-Has path d db h = ground (arith, find-delete path key db.cached_files)

  evict_cached_file-Keeps :
      (path : Text) → same path key ≡ false → Keeps o (Has key c) (Files.evict_cached_file o path)
  unfolding Files.evict_cached_file Files.cached_file
  evict_cached_file-Keeps path d =
      search (keeps_rules, remove_cached-Keeps, Keeps-execute, delete-Has path d)

  evict_each-Keeps :
      (paths : List Text)
      → listed key paths ≡ false
      → Keeps o (Has key c) (Files.evict_each o paths)
  unfolding Files.evict_each
  evict_each-Keeps [] h = search keeps_rules
  evict_each-Keeps (path ∷ rest) h =
      Keeps-bind (Keeps-attempt (evict_cached_file-Keeps path (ground arith)))
        λ _. evict_each-Keeps rest (ground arith)

  evict_listed-Has :
      (s : Store (o.World)) (r : Result (List Text) DriveError × Store (o.World))
      → Has key c s.db
      → r.1.db ≡ s.db
      → ((paths : List Text) → r.0 ≡ ok paths → listed key paths ≡ false)
      → Has key c ((attempt (λ _. r) >>= Files.evict_listed o) s).1.db
  unfolding Files.evict_listed
  evict_listed-Has s (ok paths, s') h e l =
      (evict_each-Keeps paths (l paths refl)).holds s' (rw e h)
  evict_listed-Has s (err m, s') h e l = rw e h

module _ (o : Outside) where
  stale_cached_files-db :
      (r : ℕ) (s : Store (o.World)) → (Files.stale_cached_files o r s).1.db ≡ s.db
  unfolding Files.stale_cached_files
  stale_cached_files-db r s = ground arith

  stale_cached_files-value :
      (r : ℕ) (s : Store (o.World)) (paths : List Text)
      → (Files.stale_cached_files o r s).0 ≡ ok paths
      → paths ≡ keys_where (Files.is_stale (o.now s.world) r) s.db.cached_files
  unfolding Files.stale_cached_files
  stale_cached_files-value r s paths h = ground arith

  fresh-kept :
      (retention : ℕ) (s : Store (o.World)) (key : Text)
      → UniqueKeys s.db.cached_files
      → holds_of (Files.is_stale (o.now s.world) retention) key (find key s.db.cached_files) ≡ false
      → find key (Files.evict_stale o retention s).1.db.cached_files ≡ find key s.db.cached_files
  unfolding Files.evict_stale
  fresh-kept retention s key u h =
      evict_listed-Has o key (find key s.db.cached_files) s (Files.stale_cached_files o retention s)
        refl (stale_cached_files-db retention s)
        (λ paths e. rw (stale_cached_files-value retention s paths e, listed-keys_where) h)

  not_stale :
      (now retention : ℕ) (key : Text) (c : CachedFile)
      → now < c.last_accessed_at + retention
      → Files.is_stale now retention key c ≡ false
  unfolding Files.is_stale
  not_stale now retention key c h = ground arith

  -- The sweep keeps the record of every cached file that was last opened less than the retention ago,
  -- whatever else fails or succeeds.
  pub evict_stale_keeps :
      (retention : ℕ) (s : Store (o.World)) (key : Text) (c : CachedFile)
      → UniqueKeys s.db.cached_files
      → find key s.db.cached_files ≡ some c
      → o.now s.world < c.last_accessed_at + retention
      → find key (Files.evict_stale o retention s).1.db.cached_files ≡ some c
  evict_stale_keeps retention s key c u e h =
      fresh-kept retention s key u (rw e (not_stale (o.now s.world) retention key c h)) ∙ e
