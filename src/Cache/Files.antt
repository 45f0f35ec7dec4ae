-- ===== src/Cache/Files.antt =====
-- The opportunistic file cache of core/src/cache.rs, and daemon/src/cache_eviction.rs's sweep of it.
use kio_protondrive.Base.{
  ℕ, ◌+◌, Text, leb, Bool, true, [], ◌∷◌, List, Option, none, some, Result, ok, err, pure, attempt,
  ◌>>=◌, ◌>>◌, if◌then◌else◌,
}
use kio_protondrive.Table.{find, upsert, delete, update, keys_where}
use kio_protondrive.Outside.{Outside, DriveError}
use kio_protondrive.Store.{CachedFile, Op, query, execute, look}
use kio_protondrive.Cache.Pins.{lookup, remove_local, is_some}

abbrev pub path_and_time : Option CachedFile → Option (Text × Text)
path_and_time none = none
path_and_time (some c) = some (c.local_path, c.remote_modification_time)

-- `last_accessed_at <= now - older_than`, which is of signed numbers.
unfoldable pub is_stale : ℕ → ℕ → Text → CachedFile → Bool
is_stale now older_than _ c = leb (c.last_accessed_at + older_than) now

module _ (o : Outside) where
  open o use {World, now, is_file}

  unfoldable pub only_present : Option (Text × Text) → World → Option (Text × Text)
  only_present none w = none
  only_present (some (p, t)) w = if is_file p w then some (p, t) else none

  unfoldable pub cached_file : Text → Op o (Option (Text × Text))
  unfolding query look only_present
  cached_file remote_path = do
    row ← query o (λ db. path_and_time (find remote_path db.cached_files))
    look o (only_present row)

  unfoldable pub store_cached_file : Text → Text → Text → Op o (Unit {0})
  unfolding look execute
  store_cached_file remote_path local_path modification_time = do
    t ← look o now
    execute o (λ db. record db {
      cached_files =
          upsert remote_path
            (record {
              local_path = local_path;
              remote_modification_time = modification_time;
              last_accessed_at = t;
            })
            db.cached_files;
    })

  unfoldable pub touch_cached_file : Text → Op o (Unit {0})
  unfolding look execute
  touch_cached_file remote_path = do
    t ← look o now
    execute o (λ db. record db {
      cached_files = update remote_path (λ c. record c { last_accessed_at = t }) db.cached_files;
    })

  unfoldable pub remove_cached : Option (Text × Text) → Op o (Unit {0})
  unfolding remove_local
  remove_cached none = pure tt
  remove_cached (some (local, _)) = remove_local o local

  unfoldable pub evict_cached_file : Text → Op o (Unit {0})
  unfolding cached_file remove_cached execute
  evict_cached_file remote_path = do
    row ← cached_file remote_path
    remove_cached row
    execute o (λ db. record db { cached_files = delete remote_path db.cached_files })

  unfoldable pub stale_cached_files : ℕ → Op o (List Text)
  unfolding look query
  stale_cached_files older_than = do
    t ← look o now
    query o (λ db. keys_where (is_stale t older_than) db.cached_files)

  unfoldable pub is_available_locally : Text → Op o Bool
  unfolding lookup cached_file
  is_available_locally remote_path = do
    pinned ← lookup o remote_path
    if is_some pinned then pure true else (do row ← cached_file remote_path; pure (is_some row))

  -- A file that cannot be evicted is logged and left for the next sweep.
  unfoldable pub evict_each : List Text → Op o (Unit {0})
  unfolding evict_cached_file
  evict_each [] = pure tt
  evict_each (path ∷ rest) = attempt (evict_cached_file path) >>= λ _. evict_each rest

  unfoldable pub evict_listed : Result (List Text) DriveError → Op o (Unit {0})
  unfolding evict_each
  evict_listed (ok stale) = evict_each stale
  evict_listed (err e) = pure tt

  unfoldable pub evict_stale : ℕ → Op o (Unit {0})
  unfolding stale_cached_files evict_listed
  evict_stale retention = attempt (stale_cached_files retention) >>= evict_listed
