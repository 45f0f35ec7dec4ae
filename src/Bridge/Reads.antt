-- ===== src/Bridge/Reads.antt =====
-- core/src/bridge.rs: the calls that read, through the caches where they can.
use mathlib.Core.List.{map}
use kio_protondrive.Base.{
  Text, str, same, rsplit_once, [], ◌∷◌, ◌++◌, List, Bool, false, ◌||◌, Option, none, some, Result,
  ok, err, pure, fail, attempt, ◌>>=◌, ◌>>◌, if◌then◌else◌,
}
use kio_protondrive.Entry.{NodeEntry}
use kio_protondrive.Outside.{Outside, DriveError, not_found}
use kio_protondrive.Store.{Op, outside}
use kio_protondrive.Cli.Commands
use kio_protondrive.Cache.Pins
use kio_protondrive.Cache.Paths.{target_dir_for}
use kio_protondrive.Cache.Files.{
  cached_file, touch_cached_file, evict_cached_file, store_cached_file, is_available_locally,
}
use kio_protondrive.Cache.Nodes.{
  cached_listing, store_listing, cached_stat, store_stat, fresh_photo_timeline,
  store_photo_timeline,
}
use kio_protondrive.Daemon.Refresh.{only_nodes}
use kio_protondrive.Bridge.Entries.{FfiEntry, node_to_ffi, item_to_ffi, Places, open_cache}
use kio_protondrive.Cli.Photos.{photo_timeline}
use kio_protondrive.Photos.{Photo, disambiguate, find_photo}

unfoldable pub photo_to_ffi : Photo → FfiEntry
unfolding node_to_ffi
photo_to_ffi p = record (node_to_ffi p.node) { name = p.display_name }

-- The parent whose listing a cached stat asks to revalidate: none for a top-level section.
unfoldable pub revalidated_parent : Text → Option Text
revalidated_parent path = elim (rsplit_once b'/' path) [
  | none ↦ none
  | some (parent, _) ↦ if same parent [] then none else some parent
]

module _ (o : Outside) (at : Places) where
  open o use {World, launch, read_items}

  -- `local_ctrl::daemon_request`, not waited for.
  abbrev pub daemon_request : Text → Text → Op o (Unit {0})
  daemon_request route path = outside o (λ w. (ok tt, launch (route ∷ path ∷ []) w))

  unfoldable pub list_live : Text → Op o (List FfiEntry)
  unfolding outside item_to_ffi
  list_live path = do items ← outside o (Commands.list_dir o path); pure (map item_to_ffi items)

  unfoldable pub list_and_store : Text → Op o (List FfiEntry)
  unfolding outside only_nodes
  list_and_store path = do
    items ← outside o (Commands.list_dir o path)
    attempt (store_listing o path (only_nodes items))
    pure (map node_to_ffi (only_nodes items))

  abbrev pub list_from : Text → Result (Option (List NodeEntry)) DriveError → Op o (List FfiEntry)
  list_from path (ok (some nodes)) =
      daemon_request (str "/revalidate") path >>= λ _. pure (map node_to_ffi nodes)
  list_from path (ok none) = list_and_store path
  list_from path (err _) = list_and_store path

  abbrev pub list_opened : Text → Result (Unit {0}) DriveError → Op o (List FfiEntry)
  list_opened path (ok _) = attempt (cached_listing o path) >>= list_from path
  list_opened path (err _) = list_live path

  unfoldable pub list_dir : Text → Op o (List FfiEntry)
  unfolding list_live list_and_store outside
  list_dir path =
      if same path (str "/") then list_live path else attempt (open_cache o at) >>= list_opened path

  unfoldable pub stat_and_store : Text → Op o FfiEntry
  unfolding outside
  stat_and_store path = do
    node ← outside o (Commands.stat_path o path)
    attempt (store_stat o path node)
    pure (node_to_ffi node)

  abbrev pub request_parent : Option Text → Op o (Unit {0})
  request_parent none = pure tt
  request_parent (some parent) = daemon_request (str "/revalidate") parent

  abbrev pub stat_from : Text → Result (Option NodeEntry) DriveError → Op o FfiEntry
  stat_from path (ok (some node)) =
      request_parent (revalidated_parent path) >>= λ _. pure (node_to_ffi node)
  stat_from path (ok none) = stat_and_store path
  stat_from path (err _) = stat_and_store path

  abbrev pub stat_opened : Text → Result (Unit {0}) DriveError → Op o FfiEntry
  stat_opened path (ok _) = attempt (cached_stat o path) >>= stat_from path
  stat_opened path (err _) =
      outside o (Commands.stat_path o path) >>= λ node. pure (node_to_ffi node)

  unfoldable pub stat_path : Text → Op o FfiEntry
  unfolding stat_and_store outside revalidated_parent
  stat_path path = attempt (open_cache o at) >>= stat_opened path

  abbrev pub or_empty : Option Text → Text
  or_empty none = []
  or_empty (some p) = p

  unfoldable pub lookup_pin : Text → Op o Text
  lookup_pin remote_path = do
    open_cache o at
    local ← Pins.lookup o remote_path
    pure (or_empty local)

  -- A recorded copy, against what Drive says of the file now.
  unfoldable pub check_fresh : Text → Text × Text → NodeEntry → Op o Text
  check_fresh remote_path (local, cached_mtime) current =
      if same current.modification_time cached_mtime
      then (attempt (touch_cached_file o remote_path) >>= (λ _. pure local))
      else (attempt (evict_cached_file o remote_path) >>= (λ _. pure []))

  abbrev pub verify_cached : Text → Option (Text × Text) → Op o Text
  verify_cached remote_path none = pure []
  verify_cached remote_path (some copy) =
      outside o (Commands.stat_path o remote_path) >>= λ current.
      attempt (store_stat o remote_path current) >>= λ _. check_fresh remote_path copy current

  unfoldable pub lookup_cached : Text → Op o Text
  unfolding outside check_fresh
  lookup_cached remote_path = do
    open_cache o at
    copy ← cached_file o remote_path
    verify_cached remote_path copy

  unfoldable pub cache_target_dir : Text → Op o Text
  cache_target_dir remote_path = do open_cache o at; target_dir_for o remote_path

  unfoldable pub store_cached : Text → Text → Text → Op o (Unit {0})
  store_cached remote_path local_path modification_time = do
    open_cache o at
    store_cached_file o remote_path local_path modification_time

  abbrev pub or_false : Result Bool DriveError → Bool
  or_false (ok b) = b
  or_false (err _) = false

  unfoldable pub is_available : Text → Op o Bool
  is_available remote_path = do
    r ← attempt (do open_cache o at; is_available_locally o remote_path)
    pure (or_false r)

  abbrev pub shows_shared : Result (Option NodeEntry) DriveError → Bool
  shows_shared (ok (some node)) = node.is_shared || node.is_shared_by_url
  shows_shared (ok none) = false
  shows_shared (err _) = false

  unfoldable pub lookup_shared : Text → Op o Bool
  lookup_shared remote_path = do
    r ← attempt (do open_cache o at; cached_stat o remote_path)
    pure (shows_shared r)

  abbrev pub photos_from : Option (List NodeEntry) → Op o (List Photo)
  photos_from (some nodes) = pure (disambiguate nodes)
  photos_from none = outside o (photo_timeline o) >>= λ nodes.
      store_photo_timeline o nodes >>= λ _. pure (disambiguate nodes)

  unfoldable pub cached_photos : Op o (List Photo)
  unfolding photo_timeline outside
  cached_photos = do open_cache o at; nodes ← fresh_photo_timeline o; photos_from nodes

  abbrev pub photo_or_missing : Text → Option Photo → Op o Photo
  photo_or_missing name none = fail (not_found (str "/photos/" ++ name))
  photo_or_missing name (some p) = pure p

  unfoldable pub cached_find_photo : Text → Op o Photo
  unfolding cached_photos
  cached_find_photo name = do photos ← cached_photos; photo_or_missing name (find_photo name photos)
