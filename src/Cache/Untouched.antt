-- ===== src/Cache/Untouched.antt =====
-- What the daemon's sweep and refresh do to pins and cached files.
use kio_protondrive.Base.{refl, ◌≡◌, Text, Option, none, some, [], ◌∷◌, List, Result, ok, err}
use kio_protondrive.Table.{Table}
use kio_protondrive.Outside.{Outside, DriveError, not_found}
use kio_protondrive.Entry.{NodeEntry}
use kio_protondrive.Store.{Store, Db, Pin, CachedFile}
use kio_protondrive.Store.Keeps.{Keeps, keeps_rules, Keeps-execute, Keeps-bind, Keeps-attempt}
use kio_protondrive.Cache.Files
use kio_protondrive.Cache.Nodes
use kio_protondrive.Cache.Pins
use kio_protondrive.Daemon.Refresh

abbrev pub HasPins : Table Pin → Db → Type 0
HasPins pins db = db.pins ≡ pins

-- The pins and the record of cached files, as they are.
abbrev pub HasFiles : Table Pin → Table CachedFile → Db → Type 0
HasFiles pins files db = (db.pins ≡ pins) × (db.cached_files ≡ files)

module _ {o : Outside} {pins : Table Pin} where
  remove_cached-Keeps :
      (c : Option (Text × Text)) → Keeps o (HasPins pins) (Files.remove_cached o c)
  unfolding Files.remove_cached Pins.remove_local
  remove_cached-Keeps none = search keeps_rules
  remove_cached-Keeps (some (p, _)) = search keeps_rules

  evict_cached_file-Keeps : (path : Text) → Keeps o (HasPins pins) (Files.evict_cached_file o path)
  unfolding Files.evict_cached_file Files.cached_file
  evict_cached_file-Keeps path = search (keeps_rules, remove_cached-Keeps, Keeps-execute)

  evict_each-Keeps : (paths : List Text) → Keeps o (HasPins pins) (Files.evict_each o paths)
  unfolding Files.evict_each
  evict_each-Keeps [] = search keeps_rules
  evict_each-Keeps (path ∷ rest) =
      Keeps-bind (Keeps-attempt (evict_cached_file-Keeps path)) λ _. evict_each-Keeps rest

  evict_listed-Keeps :
      (r : Result (List Text) DriveError) → Keeps o (HasPins pins) (Files.evict_listed o r)
  unfolding Files.evict_listed
  evict_listed-Keeps (ok stale) = evict_each-Keeps stale
  evict_listed-Keeps (err e) = search keeps_rules

  pub evict_stale-Keeps : (retention : _) → Keeps o (HasPins pins) (Files.evict_stale o retention)
  unfolding Files.evict_stale Files.stale_cached_files
  evict_stale-Keeps retention = search (keeps_rules, evict_listed-Keeps)

module _ {o : Outside} {pins : Table Pin} {files : Table CachedFile} where
  pub store_stat-Keeps :
      (path : Text) (n : NodeEntry) → Keeps o (HasFiles pins files) (Nodes.store_stat o path n)
  unfolding Nodes.store_stat
  store_stat-Keeps path n = search (keeps_rules, Keeps-execute)

  invalidate_stat-Keeps :
      (path : Text) → Keeps o (HasFiles pins files) (Nodes.invalidate_stat o path)
  unfolding Nodes.invalidate_stat
  invalidate_stat-Keeps path = search (keeps_rules, Keeps-execute)

  pub invalidate_listing-Keeps :
      (path : Text) → Keeps o (HasFiles pins files) (Nodes.invalidate_listing o path)
  unfolding Nodes.invalidate_listing
  invalidate_listing-Keeps path = search (keeps_rules, Keeps-execute)

  store_children-Keeps :
      (path : Text) (ns : List NodeEntry)
      → Keeps o (HasFiles pins files) (Nodes.store_children o path ns)
  unfolding Nodes.store_children
  store_children-Keeps path [] = search keeps_rules
  store_children-Keeps path (n ∷ ns) =
      Keeps-bind (store_stat-Keeps _ n) λ _. store_children-Keeps path ns

  pub store_listing-Keeps :
      (path : Text) (ns : List NodeEntry)
      → Keeps o (HasFiles pins files) (Nodes.store_listing o path ns)
  unfolding Nodes.store_listing
  store_listing-Keeps path ns = search (keeps_rules, Keeps-execute, store_children-Keeps)

  pub notify-Keeps :
      (i m : Text) (vs : List Text) → Keeps o (HasFiles pins files) (Refresh.notify o i m vs)
  unfolding Refresh.notify
  notify-Keeps i m [] = search keeps_rules
  notify-Keeps i m (v ∷ vs) = search keeps_rules

  on_stat-Keeps :
      (path : Text) (changed : List Text) (r : Result NodeEntry DriveError)
      → Keeps o (HasFiles pins files) (Refresh.on_stat o path changed r)
  unfolding Refresh.notify_files_changed
  on_stat-Keeps path changed (ok n) = search (keeps_rules, store_stat-Keeps)
  on_stat-Keeps path changed (err (not_found _)) = search (keeps_rules, invalidate_stat-Keeps)
  on_stat-Keeps path changed (err e) = search keeps_rules

  refresh_stats-Keeps :
      (paths changed : List Text)
      → Keeps o (HasFiles pins files) (Refresh.refresh_stats o paths changed)
  unfolding Refresh.refresh_stats
  refresh_stats-Keeps [] changed = search keeps_rules
  refresh_stats-Keeps (path ∷ rest) changed =
      search (keeps_rules, on_stat-Keeps, refresh_stats-Keeps rest)

  on_listing-Keeps :
      (path : Text) (changed : List Text) (r : Result (List NodeEntry) DriveError)
      → Keeps o (HasFiles pins files) (Refresh.on_listing o path changed r)
  unfolding Refresh.notify_files_changed
  on_listing-Keeps path changed (ok ns) = search (keeps_rules, store_listing-Keeps, notify-Keeps)
  on_listing-Keeps path changed (err (not_found _)) = search (keeps_rules, invalidate_listing-Keeps)
  on_listing-Keeps path changed (err e) = search keeps_rules

  refresh_listings-Keeps :
      (paths changed : List Text)
      → Keeps o (HasFiles pins files) (Refresh.refresh_listings o paths changed)
  unfolding Refresh.refresh_listings Refresh.fetch_listing
  refresh_listings-Keeps [] changed = search keeps_rules
  refresh_listings-Keeps (path ∷ rest) changed =
      search (keeps_rules, on_listing-Keeps, refresh_listings-Keeps rest)

  pub refresh_all-Keeps : Keeps o (HasFiles pins files) (Refresh.refresh_all o)
  unfolding Refresh.refresh_all Refresh.notify_paths_changed Nodes.all_cached_stat_paths
      Nodes.all_cached_listing_parents
  refresh_all-Keeps =
      search (keeps_rules, refresh_stats-Keeps, refresh_listings-Keeps, notify-Keeps)

-- The daemon's refresh changes no pin and no record of a cached file, whatever the CLI answers.
pub refresh_all_keeps :
    (o : Outside) (s : Store (o.World))
    → ((Refresh.refresh_all o s).1.db.pins ≡ s.db.pins)
      × ((Refresh.refresh_all o s).1.db.cached_files ≡ s.db.cached_files)
refresh_all_keeps o s = refresh_all-Keeps.holds s (refl, refl)
