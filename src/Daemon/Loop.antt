-- ===== src/Daemon/Loop.antt =====
-- daemon/src/main.rs: the loop of the daemon, one pass after another. Times and intervals are whole
-- seconds. What other threads do to the shared state while the loop waits is a parameter, with the
-- batch that ends the wait.
use kio_protondrive.Base.{
  ℕ, ◌-◌, ◌*◌, ◌^◌, Text, str, leb, ltb, Bool, true, false, [], ◌∷◌, List, Option, none, some,
  Result, ok, err, if◌then◌else◌,
}
use kio_protondrive.Entry.{NodeEntry}
use kio_protondrive.Outside.{Outside, DriveError}
use kio_protondrive.Store.{Store}
use kio_protondrive.OpenFolders.{current}
use kio_protondrive.Cache.Files.{evict_stale}
use kio_protondrive.Update.{next_version_check_interval}
use kio_protondrive.Bridge.Entries.{Places}
use kio_protondrive.Daemon.Refresh.{refresh_all}
use kio_protondrive.Daemon.Watch.{WatchEvent, changed, renamed}
use kio_protondrive.Daemon.Sync.{
  upload_if_needed, handle_rename, reconcile, is_authentication_error,
}
use kio_protondrive.Daemon.Notices.{Desktop, auth_required}
use kio_protondrive.Daemon.Versions.{Updates, version_check}
use kio_protondrive.Daemon.State.{Running}
use kio_protondrive.Daemon.Control.{revalidate}

abbrev pub fs_cache_refresh_interval : ℕ
fs_cache_refresh_interval = 15 * 60

abbrev pub open_folders_refresh_interval : ℕ
open_folders_refresh_interval = 60

abbrev pub cache_eviction_interval : ℕ
cache_eviction_interval = 24 * 60 * 60

-- `Duration::MAX`
abbrev pub max_duration : ℕ
max_duration = 2 ^ 64 - 1

pub record Timers : Type 0 where
  pub version_check_interval : ℕ
  pub last_version_check : ℕ
  pub last_fs_refresh : ℕ
  pub last_open_folders_refresh : ℕ
  pub last_cache_eviction : ℕ

-- A clock that went backwards counts as due.
unfoldable pub wall_clock_elapsed : ℕ → ℕ → ℕ
wall_clock_elapsed now since = if ltb now since then max_duration else now - since

abbrev pub min : ℕ → ℕ → ℕ
min a b = if leb a b then a else b

-- How long the loop waits for a batch, at a time of the wall clock and of the monotonic one.
unfoldable pub wait_time : ℕ → ℕ → Timers → ℕ
unfolding wall_clock_elapsed
wait_time wall awake t =
    min
      (min
        (min (t.version_check_interval - wall_clock_elapsed wall t.last_version_check)
          (fs_cache_refresh_interval - (awake - t.last_fs_refresh)))
        (open_folders_refresh_interval - (awake - t.last_open_folders_refresh)))
      (cache_eviction_interval - wall_clock_elapsed wall t.last_cache_eviction)

unfoldable pub version_check_due : ℕ → Timers → Bool
unfolding wall_clock_elapsed
version_check_due wall t =
    leb t.version_check_interval (wall_clock_elapsed wall t.last_version_check)

unfoldable pub fs_refresh_due : ℕ → Timers → Bool
fs_refresh_due awake t = leb fs_cache_refresh_interval (awake - t.last_fs_refresh)

unfoldable pub open_folders_due : ℕ → Timers → Bool
open_folders_due awake t = leb open_folders_refresh_interval (awake - t.last_open_folders_refresh)

unfoldable pub cache_eviction_due : ℕ → Timers → Bool
unfolding wall_clock_elapsed
cache_eviction_due wall t =
    leb cache_eviction_interval (wall_clock_elapsed wall t.last_cache_eviction)

-- What ends a wait.
pub data Received : Type 0 where
  batch : List WatchEvent → Received
  timed_out : Received
  disconnected : Received

pub record Loop (W : Type 0) : Type 0 where
  pub running : Running W
  pub auth_notified : Bool
  pub cli_update_notified : Option Text
  pub timers : Timers

module _ (o : Outside) (d : Desktop (o.World)) where
  open o use {World, launch}

  -- `report_authentication_failure`: whether the user has been told, and the store behind it.
  unfoldable pub report_authentication_failure : Bool → Store World → Bool × Store World
  report_authentication_failure true s = (true, s)
  report_authentication_failure false s =
      let w = (d.notify_send (auth_required d) s.world).1 in
      (true, record s { world = launch (str "kio-protondrive-wizard" ∷ []) w })

  unfoldable pub sync_event : WatchEvent → Store World → Result (Unit {0}) DriveError × Store World
  unfolding upload_if_needed handle_rename
  sync_event (changed path) = upload_if_needed o path
  sync_event (renamed from to) = handle_rename o from to

  abbrev pub after_sync :
      (Bool → Store World → Bool × Store World)
      → Result (Unit {0}) DriveError
      → Bool
      → Store World
      → Bool × Store World
  after_sync rest (ok _) notified s = rest false s
  after_sync rest (err e) notified s =
      if is_authentication_error o e
      then report_authentication_failure notified s
      else rest notified s

  -- The events of a batch, up to the first that shows the session to be missing.
  unfoldable pub sync_batch : List WatchEvent → Bool → Store World → Bool × Store World
  unfolding sync_event report_authentication_failure is_authentication_error
  sync_batch [] notified s = (notified, s)
  sync_batch (e ∷ es) notified s =
      let (r, s') = sync_event e s in after_sync (sync_batch es) r notified s'

  abbrev pub on_reconciled : Result (Unit {0}) DriveError × Store World → Bool → Bool × Store World
  on_reconciled (ok _, s) notified = (false, s)
  on_reconciled (err e, s) notified =
      if is_authentication_error o e
      then report_authentication_failure notified s
      else (notified, s)

-- `wall` is the seconds of `SystemTime`, `d.awake` those of `Instant`, `equal` is `==` of node lists.
module _ (o : Outside) (at : Places) (d : Desktop (o.World)) (u : Updates (o.World))
    (equal : List NodeEntry → List NodeEntry → Bool) (retention : ℕ) where
  open o use {World}

  abbrev pub wall : Running World → ℕ
  wall r = o.now r.store.world

  abbrev pub awake : Running World → ℕ
  awake r = d.awake r.store.world

  abbrev pub in_world : {A : Type 0} → (World → A × World) → Running World → A × Running World
  in_world f r =
      let (a, w) = f r.store.world in (a, record r { store = record (r.store) { world = w } })

  abbrev pub synced : List WatchEvent → Loop World → Loop World
  synced es l =
      let (notified, s) = sync_batch o d es l.auth_notified l.running.store in
      record l { auth_notified = notified; running = record (l.running) { store = s } }

  unfoldable pub check_version : Loop World → Loop World
  check_version l =
      let ((completed, noted), r) =
        in_world (version_check o d u l.cli_update_notified) l.running in
      record l {
        running = r;
        cli_update_notified = noted;
        timers = record (l.timers) {
          version_check_interval = next_version_check_interval completed;
          last_version_check = wall r;
        };
      }

  unfoldable pub refresh_fs : Loop World → Loop World
  refresh_fs l =
      let r = record (l.running) { store = (refresh_all o l.running.store).1 } in
      record l { running = r; timers = record (l.timers) { last_fs_refresh = awake r } }

  unfoldable pub revalidate_each : List Text → Running World → Running World
  revalidate_each [] r = r
  revalidate_each (path ∷ paths) r = revalidate_each paths (revalidate o at d equal path r).1

  unfoldable pub refresh_open_folders : Loop World → Loop World
  unfolding current
  refresh_open_folders l =
      let (paths, kept) = current (awake l.running) l.running.folders in
      let r = revalidate_each paths (record (l.running) { folders = kept }) in
      record l { running = r; timers = record (l.timers) { last_open_folders_refresh = awake r } }

  unfoldable pub evict : Loop World → Loop World
  evict l =
      let r = record (l.running) { store = (evict_stale o retention l.running.store).1 } in
      record l { running = r; timers = record (l.timers) { last_cache_eviction = wall r } }

  -- Each job, where its time has come when the pass gets to it.
  unfoldable pub version_timer : Loop World → Loop World
  version_timer l = if version_check_due (wall l.running) l.timers then check_version l else l

  unfoldable pub fs_timer : Loop World → Loop World
  fs_timer l = if fs_refresh_due (awake l.running) l.timers then refresh_fs l else l

  unfoldable pub open_folders_timer : Loop World → Loop World
  open_folders_timer l =
      if open_folders_due (awake l.running) l.timers then refresh_open_folders l else l

  unfoldable pub eviction_timer : Loop World → Loop World
  eviction_timer l = if cache_eviction_due (wall l.running) l.timers then evict l else l

  unfoldable pub jobs : Loop World → Loop World
  jobs l = eviction_timer (open_folders_timer (fs_timer (version_timer l)))

  abbrev pub on_received : Received → Loop World → Option (Loop World)
  on_received (batch es) l = some (jobs (synced es l))
  on_received timed_out l = some (jobs l)
  on_received disconnected l = none

  -- One pass, given the channel of the watcher with what the other threads do during the wait: none where the watcher is gone and the loop ends.
  unfoldable pub pass :
      (ℕ → Running World → Received × Running World) → Loop World → Option (Loop World)
  unfolding wait_time
  pass receive l =
      let (received, r) =
        receive (wait_time (wall l.running) (awake l.running) l.timers) l.running in
      on_received received (record l { running = r })

  unfoldable pub reconciled : Running World → Bool × Running World
  unfolding reconcile
  reconciled r =
      let (notified, s) = on_reconciled o d (reconcile o r.store) false in
      (notified, record r { store = s })

  -- The loop as `main` enters it, behind the first version check.
  unfoldable pub entered : Bool → Running World → Loop World
  entered notified r =
      let ((completed, noted), r') = in_world (version_check o d u none) r in
      record {
        running = r';
        auth_notified = notified;
        cli_update_notified = noted;
        timers = record {
          version_check_interval = next_version_check_interval completed;
          last_version_check = wall r';
          last_fs_refresh = awake r';
          last_open_folders_refresh = awake r';
          last_cache_eviction = wall r';
        };
      }

  abbrev pub on_watched :
      Bool → Result (Unit {0}) Text × Running World → Result (Loop World) (Running World)
  on_watched notified (ok _, r) = ok (entered notified r)
  on_watched notified (err _, r) = err r

  -- The reconciliation, and the loop where the cache root can be watched then.
  unfoldable pub start :
      (Text → World → Result (Unit {0}) Text × World)
      → Running World
      → Result (Loop World) (Running World)
  unfolding reconciled entered
  start watch r =
      let (notified, r1) = reconciled r in on_watched notified (in_world (watch r1.store.root) r1)
