-- ===== src/Bridge/Served.antt =====
-- What `lookup_cached` of core/src/bridge.rs serves.
use kio_protondrive.Base.{
  ◌≡◌, ◌≢◌, refl, sym, ap, arith, Text, Option, none, some, [], Result, ok, err, resume, attempt,
  ◌>>=◌,
}
use kio_protondrive.Table.{Table, find}
use kio_protondrive.Outside.{Outside, DriveError}
use kio_protondrive.Entry.{NodeEntry}
use kio_protondrive.Store.{Store, CachedFile, outside}
use kio_protondrive.Cache.Files.{cached_file, path_and_time}
use kio_protondrive.Cache.Nodes.{store_stat, open_at}
use kio_protondrive.Cache.Stored.{open_at_keeps}
use kio_protondrive.Cli.Commands
use kio_protondrive.Bridge.Entries.{Places, open_cache}
use kio_protondrive.Bridge.Reads.{lookup_cached, verify_cached, check_fresh}

module _ (o : Outside) (at : Places) where
  -- A row of the cached files has the local copy, and its modification time is the one that the CLI
  -- gives for the file in a world.
  abbrev pub IsCurrent : Text → Text → o.World → Table CachedFile → Type 0
  IsCurrent path local w files =
      (c : CachedFile) × (n : NodeEntry) × (find path files ≡ some c)
      × (c.local_path ≡ local)
      × ((Commands.stat_path o path w).0 ≡ ok n)
      × (n.modification_time ≡ c.remote_modification_time)

  -- The world in which a look-up asks the CLI: the index was opened, and the row was read.
  abbrev pub asked_in : Text → Store (o.World) → o.World
  asked_in path s = (cached_file o path (open_cache o at s).1).1.world

  check_fresh-value :
      (path l t local : Text) (n : NodeEntry) (s : Store (o.World))
      → (check_fresh o at path (l, t) n s).0 ≡ ok local
      → local ≢ []
      → (l ≡ local) × (n.modification_time ≡ t)
  unfolding check_fresh
  check_fresh-value path l t local n s h d = ground arith

  cached_file-row :
      (path : Text) (s : Store (o.World)) (l t : Text)
      → (cached_file o path s).0 ≡ ok (some (l, t))
      → path_and_time (find path s.db.cached_files) ≡ some (l, t)
  unfolding cached_file
  cached_file-row path s l t h = ground arith

  -- A copy that is served, and the node that the CLI gave for it.
  abbrev Verified : Text → Text → Option (Text × Text) → o.World → Type 0
  Verified path local copy w =
      (t : Text) × (n : NodeEntry) × (copy ≡ some (local, t))
      × ((Commands.stat_path o path w).0 ≡ ok n)
      × (n.modification_time ≡ t)

  stat_path-Verified :
      (path l t local : Text) (w : o.World)
      → (r : Result NodeEntry DriveError) → (Commands.stat_path o path w).0 ≡ r
      → (s : Store (o.World))
      → (resume
          (r, s)
          (λ n. attempt (store_stat o path n) >>= λ _. check_fresh o at path (l, t) n)).0
        ≡ ok local
      → local ≢ []
      → Verified path local (some (l, t)) w
  stat_path-Verified path l t local w (err e) q s h d = absurd (cc)
  stat_path-Verified path l t local w (ok n) q s h d =
      let (a, b) = check_fresh-value path l t local n (store_stat o path n s).1 h d in
      (t, n, ap (λ x. some (x, t)) a, q, b)

  verify_cached-value :
      (path local : Text) (copy : Option (Text × Text)) (s : Store (o.World))
      → (verify_cached o at path copy s).0 ≡ ok local
      → local ≢ []
      → Verified path local copy s.world
  unfolding outside
  verify_cached-value path local none s h d = absurd (d (ground arith))
  verify_cached-value path local (some (l, t)) s h d =
      stat_path-Verified path l t local s.world (Commands.stat_path o path s.world).0 refl
        (record s { world = (Commands.stat_path o path s.world).1 }) h d

  row_of :
      (path local t : Text) (w : o.World) (n : NodeEntry) (files : Table CachedFile)
      → (r : Option CachedFile) → find path files ≡ r
      → path_and_time r ≡ some (local, t)
      → (Commands.stat_path o path w).0 ≡ ok n
      → n.modification_time ≡ t
      → IsCurrent path local w files
  row_of path local t w n files none e h q b = absurd (cc)
  row_of path local t w n files (some c) e h q b = (c, n, e, ground arith, q, ground arith)

  after_open :
      (path local : Text) (files : Table CachedFile)
      → (r : Result (Unit {0}) DriveError × Store (o.World)) → r.1.db.cached_files ≡ files
      → (resume r (λ _. cached_file o path >>= verify_cached o at path)).0 ≡ ok local
      → local ≢ []
      → IsCurrent path local (cached_file o path r.1).1.world files
  after_open path local files (err m, s) e h d = absurd (cc)
  after_open path local files (ok _, s) e h d =
      copied (cached_file o path s) (cached_file-row path s) h
    where
      copied :
          (r : Result (Option (Text × Text)) DriveError × Store (o.World))
          → ((l t : Text)
              → r.0 ≡ ok (some (l, t))
              → path_and_time (find path s.db.cached_files) ≡ some (l, t))
          → (resume r (verify_cached o at path)).0 ≡ ok local
          → IsCurrent path local r.1.world files
      copied (err m, s1) row k = absurd (cc)
      copied (ok copy, s1) row k =
          let (t, n, e', q, b) = verify_cached-value path local copy s1 k d in
          row_of path local t s1.world n files (find path files) refl
            (rw (sym e) (row local t (ap ok e'))) q b

  -- A local copy that `lookup_cached` serves is recorded for the remote path, with the modification
  -- time that the CLI gives for the file when the look-up asks it, behind the opening of the index and
  -- the reading of the row.
  pub lookup_cached-IsCurrent :
      (path local : Text) (s : Store (o.World))
      → (lookup_cached o at path s).0 ≡ ok local
      → local ≢ []
      → IsCurrent path local (asked_in path s) s.db.cached_files
  unfolding lookup_cached open_cache
  lookup_cached-IsCurrent path local s h d =
      after_open path local s.db.cached_files (open_at o at.db_folder at.root s)
        (open_at_keeps o at.db_folder at.root s).1 h d
