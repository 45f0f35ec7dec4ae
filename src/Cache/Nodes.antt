-- ===== src/Cache/Nodes.antt =====
-- The node caches of core/src/cache.rs (stats, listings, the photo timeline), and its `open`.
use kio_protondrive.Base.{
  ℕ, zero, suc, ◌+◌, Text, ltb, leb, [], ◌∷◌, List, Option, none, some, Result, ok, err, pure, lift,
  ◌>>=◌, ◌>>◌, if◌then◌else◌,
}
use kio_protondrive.Table.{find, upsert, delete, delete_where, keys}
use kio_protondrive.Outside.{Outside, DriveError}
use kio_protondrive.Entry.{NodeEntry, display_name}
use kio_protondrive.Store.{Db, Payload, Op, query, execute, outside, look, io_result}
use kio_protondrive.Cli.Answer.{parsed}
use kio_protondrive.Cli.Moves.{join}
use kio_protondrive.Cache.Pins.{tree_prefix, in_tree}

abbrev pub photo_timeline_cache_ttl : ℕ
photo_timeline_cache_ttl = 300

abbrev pub node_cache_version : ℕ
node_cache_version = 1

abbrev pub json_of : Option Payload → Option Text
json_of none = none
json_of (some p) = some p.json

-- `fetched_at >= now - ttl`, which is of signed numbers.
abbrev pub json_if_fresh : ℕ → Option Payload → Option Text
json_if_fresh now none = none
json_if_fresh now (some p) =
    if leb now (p.fetched_at + photo_timeline_cache_ttl) then some p.json else none

-- `payload.map(|json| serde_json::from_str(&json)…).transpose()`
abbrev pub read_payload :
    {A : Type 0} → (Text → Result A Text) → Option Text → Result (Option A) DriveError
read_payload read none = ok none
read_payload read (some json) = elim (parsed (read json)) [ ok a ↦ ok (some a) | err e ↦ err e ]

-- The three node caches are emptied, and the version set.
unfoldable pub empty_node_caches : Db → Db
empty_node_caches db = record db {
  stats = [];
  listings = [];
  timeline = none;
  user_version = node_cache_version;
}

-- The two statements of `invalidate_tree`.
unfoldable pub delete_stats_in : Text → Db → Db
delete_stats_in path db = record db {
  stats = delete_where (in_tree path (tree_prefix path)) db.stats;
}

unfoldable pub delete_listings_in : Text → Db → Db
delete_listings_in path db = record db {
  listings = delete_where (in_tree path (tree_prefix path)) db.listings;
}

module _ (o : Outside) where
  open o use {World, now, node_json, nodes_json, create_dir_all}

  unfoldable pub fresh_photo_timeline : Op o (Option (List NodeEntry))
  unfolding look query
  fresh_photo_timeline = do
    t ← look o now
    payload ← query o (λ db. json_if_fresh t db.timeline)
    lift (read_payload nodes_json.read payload)

  unfoldable pub store_photo_timeline : List NodeEntry → Op o (Unit {0})
  unfolding look execute
  store_photo_timeline nodes = do
    payload ← lift (parsed (nodes_json.write nodes))
    t ← look o now
    execute o (λ db. record db { timeline = some (record { json = payload; fetched_at = t }) })

  unfoldable pub cached_stat : Text → Op o (Option NodeEntry)
  unfolding query
  cached_stat path = do
    payload ← query o (λ db. json_of (find path db.stats))
    lift (read_payload node_json.read payload)

  unfoldable pub store_stat : Text → NodeEntry → Op o (Unit {0})
  unfolding look execute
  store_stat path node = do
    payload ← lift (parsed (node_json.write node))
    t ← look o now
    execute o (λ db. record db {
      stats = upsert path (record { json = payload; fetched_at = t }) db.stats;
    })

  unfoldable pub invalidate_stat : Text → Op o (Unit {0})
  unfolding execute
  invalidate_stat path = execute o (λ db. record db { stats = delete path db.stats })

  unfoldable pub cached_listing : Text → Op o (Option (List NodeEntry))
  unfolding query
  cached_listing parent_path = do
    payload ← query o (λ db. json_of (find parent_path db.listings))
    lift (read_payload nodes_json.read payload)

  unfoldable pub store_children : Text → List NodeEntry → Op o (Unit {0})
  unfolding store_stat
  store_children parent_path [] = pure tt
  store_children parent_path (node ∷ nodes) =
      store_stat (join parent_path (display_name node)) node >>= λ _.
      store_children parent_path nodes

  unfoldable pub store_listing : Text → List NodeEntry → Op o (Unit {0})
  unfolding look execute store_children
  store_listing parent_path nodes = do
    payload ← lift (parsed (nodes_json.write nodes))
    t ← look o now
    execute o (λ db. record db {
      listings = upsert parent_path (record { json = payload; fetched_at = t }) db.listings;
    })
    store_children parent_path nodes

  unfoldable pub invalidate_listing : Text → Op o (Unit {0})
  unfolding execute
  invalidate_listing parent_path =
      execute o (λ db. record db { listings = delete parent_path db.listings })

  unfoldable pub invalidate_tree : Text → Op o (Unit {0})
  unfolding execute delete_stats_in delete_listings_in
  invalidate_tree path = do execute o (delete_stats_in path); execute o (delete_listings_in path)

  unfoldable pub all_cached_stat_paths : Op o (List Text)
  unfolding query
  all_cached_stat_paths = query o (λ db. keys db.stats)

  unfoldable pub all_cached_listing_parents : Op o (List Text)
  unfolding query
  all_cached_listing_parents = query o (λ db. keys db.listings)

  -- Statements that change no row: the connection, its timeout, `CREATE … IF NOT EXISTS`.
  unfoldable pub set_up : ℕ → Op o (Unit {0})
  unfolding execute
  set_up zero = pure tt
  set_up (suc n) = execute o (λ db. db) >>= λ _. set_up n

  unfoldable pub make_dir : Text → Op o (Unit {0})
  unfolding outside
  make_dir dir = outside o (λ w. let (r, w') = create_dir_all dir w in (io_result o r, w'))

  unfoldable pub make_parent : Option Text → Op o (Unit {0})
  unfolding make_dir
  make_parent none = pure tt
  make_parent (some dir) = make_dir dir

  unfoldable pub migrate : ℕ → Op o (Unit {0})
  unfolding execute
  migrate version = if ltb version node_cache_version then execute o empty_node_caches else pure tt

  -- `Cache::open`, given the folder of the database file.
  unfoldable pub open_at : Option Text → Text → Op o (Unit {0})
  unfolding make_parent make_dir set_up query migrate
  open_at db_folder root = do
    make_parent db_folder
    make_dir root
    set_up 8
    version ← query o (λ db. db.user_version)
    migrate version
    λ s. (ok tt, record s { root = root })
