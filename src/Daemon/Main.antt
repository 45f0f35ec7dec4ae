-- ===== src/Daemon/Main.antt =====
-- daemon/src/main.rs around its loop, with the `start` of daemon/src/control.rs and of
-- daemon/src/open_folders.rs. Logging is left out.
use kio_protondrive.Base.{
  ℕ, Text, str, same, decimal, Bool, ◌||◌, [], ◌∷◌, List, Option, none, some, Result, ok, err,
  if◌then◌else◌,
}
use kio_protondrive.Entry.{NodeEntry}
use kio_protondrive.Outside.{Outside, DriveError, Io}
use kio_protondrive.Store.{Store}
use kio_protondrive.Ctrl.{generate_ctrl_token}
use kio_protondrive.Ctrl.Files.{daemon_ctrl_path, current_uid, write_owner_only_file}
use kio_protondrive.Cache.Index.{default_db_path, default_root}
use kio_protondrive.Cache.Paths.{parent_of}
use kio_protondrive.Bridge.Entries.{Places, open_cache}
use kio_protondrive.Daemon.Config.{
  Files, Config, DaemonError, load_or_default, default_path, cache_retention,
}
use kio_protondrive.Daemon.Notices.{Desktop}
use kio_protondrive.Daemon.Versions.{Updates}
use kio_protondrive.Daemon.State.{Running}
use kio_protondrive.Daemon.Control.{run_client}
use kio_protondrive.Daemon.Loop.{Loop, start}

-- What `main` calls. `home` is `HOME`, `id` what `id -u` prints, `random` 32 bytes of `/dev/urandom`,
-- `bind` the port of a new socket on the loopback address, or `none`; `accept` starts the thread that
-- serves it for a token, `monitor` the one that reads `busctl` with arguments.
pub record Startup (World : Type 0) : Type 0 where
  pub files : Files World
  pub variable : Text → Option Text
  pub home : Text
  pub id : Option Text
  pub set_var : Text → Text → World → World
  pub random : World → Text × World
  pub bind : World → Option ℕ × World
  pub accept : Text → World → World
  pub monitor : List Text → World → World
  pub watch : Text → World → Result (Unit {0}) Text × World
  pub remove : Text → World → World
  pub create : Text → Text → World → Io (Unit {0}) × World
  pub debug : Text → Text
  pub request : Text → Text → Result Text Text

-- How `main` ends, or that its loop runs, with the retention of cached files.
pub data Outcome (W : Type 0) : Type 0 where
  exited : ℕ → Running W → Outcome W
  looping : ℕ → Loop W → Outcome W

-- The action and the URL where these arguments, the program's name in front, ask for the client.
unfoldable pub pin_client_of : List Text → Option (Text × Text)
pin_client_of (_ ∷ action ∷ url ∷ []) =
    if same action (str "pin") || same action (str "unpin") then some (action, url) else none
pin_client_of _ = none

abbrev pub exit_code : {A E : Type 0} → Result A E → ℕ
exit_code (ok _) = 0
exit_code (err _) = 1

abbrev pub match_rules : List Text
match_rules =
    str "type='signal',interface='org.kde.KDirNotify',member='enteredDirectory'"
    ∷ str "type='signal',interface='org.kde.KDirNotify',member='leftDirectory'"
    ∷ []

unfoldable pub match_args : List Text → List Text
match_args [] = []
match_args (rule ∷ rules) = str "--match" ∷ rule ∷ match_args rules

unfoldable pub monitor_args : List Text
unfolding match_args
monitor_args = str "--user" ∷ str "monitor" ∷ str "--json=short" ∷ match_args match_rules

module _ {World : Type 0} (m : Startup World) where
  unfoldable pub ctrl_path : Text → Text
  unfolding daemon_ctrl_path current_uid
  ctrl_path kind = daemon_ctrl_path (m.variable (str "XDG_RUNTIME_DIR")) (current_uid m.id) kind

  -- The two files are written before requests are served; a file that cannot be written is no error.
  abbrev pub served_on : Text → Option ℕ × World → World
  served_on token (none, w) = w
  served_on token (some port, w) =
      let w1 =
        (write_owner_only_file m.remove m.create (ctrl_path (str "port")) (decimal port) w).1 in
      let w2 = (write_owner_only_file m.remove m.create (ctrl_path (str "token")) token w1).1 in
      m.accept token w2

  -- `control::start`
  unfoldable pub start_control : World → World
  unfolding ctrl_path write_owner_only_file generate_ctrl_token
  start_control w =
      let (bytes, w') = m.random w in served_on (generate_ctrl_token bytes) (m.bind w')

  -- `open_folders::start`
  unfoldable pub start_open_folders : World → World
  unfolding monitor_args
  start_open_folders w = m.monitor monitor_args w

  -- Where `Cache::open` finds the index and the local copies.
  unfoldable pub places : Places
  unfolding default_db_path default_root parent_of
  places = record {
    db_folder = some (parent_of (default_db_path (m.variable (str "XDG_DATA_HOME")) m.home));
    root = default_root (m.variable (str "XDG_CACHE_HOME")) m.home;
  }

  -- `daemon.toml` overrides the variable that the CLI reads.
  abbrev pub set_store : Option Text → World → World
  set_store none w = w
  set_store (some store) w = m.set_var (str "PROTON_DRIVE_CREDENTIALS_STORE") store w

  unfoldable pub run_pin_client : Text → Text → ℕ
  unfolding run_client
  run_pin_client action url = exit_code (run_client m.debug m.request action url)

module _ (o : Outside) (m : Startup (o.World)) (d : Desktop (o.World)) (u : Updates (o.World))
    (equal : List NodeEntry → List NodeEntry → Bool) where
  open o use {World}

  abbrev pub in_world : (World → World) → Running World → Running World
  in_world f r = record r { store = record (r.store) { world = f r.store.world } }

  abbrev pub on_started : ℕ → Result (Loop World) (Running World) → Outcome World
  on_started retention (err r) = exited 1 r
  on_started retention (ok l) = looping retention l

  unfoldable pub enter : Config → Running World → Outcome World
  unfolding start_control start_open_folders start
  enter config r =
      let retention = cache_retention config in
      let r' = in_world (λ w. start_open_folders m (start_control m w)) r in
      on_started retention (start o (places m) d u equal retention m.watch r')

  abbrev pub on_opened :
      Config → Running World → Result (Unit {0}) DriveError × Store World → Outcome World
  on_opened config r (err _, s) = exited 1 (record r { store = s })
  on_opened config r (ok _, s) = enter config (record r { store = s })

  abbrev pub on_config : Result Config DaemonError → Running World → Outcome World
  on_config (err _) r = exited 1 r
  on_config (ok config) r =
      let r' = in_world (set_store m config.credentials_store) r in
      on_opened config r' (open_cache o (places m) r'.store)

  unfoldable pub serve : Running World → Outcome World
  unfolding load_or_default default_path open_cache enter
  serve r =
      let path = default_path (m.variable (str "XDG_CONFIG_HOME")) m.home in
      on_config (load_or_default m.files path r.store.world) r

  abbrev pub on_client : Option (Text × Text) → Running World → Outcome World
  on_client none r = serve r
  on_client (some (action, url)) r = exited (run_pin_client m action url) r

  unfoldable pub main : List Text → Running World → Outcome World
  unfolding pin_client_of serve run_pin_client
  main args r = on_client (pin_client_of args) r
