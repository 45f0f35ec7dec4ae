-- ===== src/Wizard/Launch.antt =====
-- `main` of wizard/src/main.rs: one wizard at a time, and what its QML process is started with.
use kio_protondrive.Base.{
  ℕ, Text, str, same, trim, decimal, Bool, false, [], ◌∷◌, ◌++◌, ◌||◌, List, Option, none, some,
  Result, ok, err, if◌then◌else◌,
}
use kio_protondrive.Entry.{and_then, or_else, unwrap_or}
use kio_protondrive.Outside.{Io, done, missing, failed}
use kio_protondrive.Ctrl.{generate_ctrl_token}
use kio_protondrive.Ctrl.Files.{runtime_dir, write_owner_only_file}
use kio_protondrive.Update.{parse_u32}
use kio_protondrive.Update.Install.{Exit}
use kio_protondrive.Daemon.Config.{path_join, config_home}
use kio_protondrive.Wizard.Settings.{resolve_locale}

abbrev pub app_name : Text
app_name = str "kio-protondrive-wizard"

-- What `main` calls. `start_server` starts the threads of the control server for a token and gives its
-- port; `spawn` starts a program with arguments and an environment and waits for it.
pub record Desk (World : Type 0) : Type 0 where
  pub is_file : Text → World → Bool
  pub exists : Text → World → Bool
  pub read_to_string : Text → World → Io Text
  pub remove : Text → World → World
  pub create : Text → Text → World → Io (Unit {0}) × World
  pub qtpaths : Text → World → Result Exit Text
  pub which_path : Text → World → Option Text
  pub variable : Text → Option Text
  pub uid : ℕ
  pub process_id : ℕ
  pub random : World → Text × World
  pub start_server : Text → World → ℕ × World
  pub spawn : Text → List Text → List (Text × Text) → World → World

abbrev pub queried : Result Exit Text → Option Text
queried (err _) = none
queried (ok e) =
    if e.success then (if same (trim e.stdout) [] then none else some (trim e.stdout)) else none

-- `--update-cli` among the arguments.
unfoldable pub is_update : List Text → Bool
is_update [] = false
is_update (a ∷ args) = same a (str "--update-cli") || is_update args

unfoldable pub mode_of : List Text → Text
unfolding is_update
mode_of args = if is_update args then str "update-cli" else str "setup"

abbrev pub with_front : Option Text → List Text → List Text
with_front none dirs = dirs
with_front (some dir) dirs = dir ∷ dirs

-- `join(":")`
unfoldable pub joined : List Text → Text
joined [] = []
joined (dir ∷ []) = dir
joined (dir ∷ next ∷ dirs) = dir ++ (b':' ∷ joined (next ∷ dirs))

unfoldable pub translation_name : Text → Text
translation_name locale = str "kio_protondrive_wizard_" ++ (locale ++ str ".qm")

abbrev pub translation_args : Option Text → List Text
translation_args none = []
translation_args (some path) = str "--translation" ∷ path ∷ []

abbrev pub pid_of : Io Text → Option ℕ
pid_of (done content) = parse_u32 (trim content)
pid_of (missing _) = none
pid_of (failed _) = none

module _ {World : Type 0} (d : Desk World) where
  unfoldable pub qt_query : Text → World → Option Text
  qt_query var w = queried (d.qtpaths var w)

  -- `choose_qml_runtime`
  unfoldable pub choose_qml_runtime : (Text → Option Text) → Option Text → World → Option Text
  unfolding path_join
  choose_qml_runtime on_path qt_bins w = or_else (on_path (str "qml6")) (
      or_else (on_path (str "qml-qt6")) (
        and_then qt_bins λ bins.
          let qml = path_join bins (str "qml") in if d.is_file qml w then some qml else none))

  unfoldable pub find_qml_runtime : World → Option Text
  unfolding choose_qml_runtime qt_query
  find_qml_runtime w =
      choose_qml_runtime (λ name. d.which_path name w) (qt_query (str "QT_INSTALL_BINS") w) w

  unfoldable pub manifest_dir : Text
  manifest_dir = unwrap_or (d.variable (str "CARGO_MANIFEST_DIR")) (str ".")

  unfoldable pub first_existing : List Text → World → Option Text
  first_existing [] w = none
  first_existing (path ∷ paths) w = if d.exists path w then some path else first_existing paths w

  unfoldable pub find_qml_path : World → Text
  unfolding first_existing manifest_dir path_join
  find_qml_path w =
      unwrap_or
        (first_existing
          (str "/usr/share/kio-protondrive-wizard/qml/main.qml"
            ∷ str "/usr/share/qt6/qml/KioProtondrive/Wizard/main.qml"
            ∷ [])
          w)
        (path_join (path_join manifest_dir (str "qml")) (str "main.qml"))

  unfoldable pub find_qml_translation_path : Text → World → Option Text
  unfolding translation_name manifest_dir path_join
  find_qml_translation_path locale w =
      let installed =
        str "/usr/share/kio-protondrive-wizard/translations/" ++ translation_name locale in
      let dev_path =
        path_join (path_join manifest_dir (str "translations")) (translation_name locale) in
      if d.is_file installed w
      then some installed
      else if d.is_file dev_path w
      then some dev_path
      else none

  unfoldable pub environment : World → List (Text × Text)
  unfolding qt_query joined
  environment w =
      let imports = joined (
        with_front (qt_query (str "QT_INSTALL_QML") w)
          (str "/usr/share/qt6/qml" ∷ str "/usr/share/kio-protondrive-wizard/qml-modules" ∷ [])) in
      let plugins =
        joined
          (with_front (qt_query (str "QT_INSTALL_PLUGINS") w) (str "/usr/lib/qt6/plugins" ∷ [])) in
      (str "QML_IMPORT_PATH", imports)
      ∷ (str "QML2_IMPORT_PATH", imports)
      ∷ (str "QT_PLUGIN_PATH", plugins)
      ∷ (str "QT_QPA_PLATFORMTHEME", str "kde")
      ∷ (str "QT_QUICK_CONTROLS_STYLE", str "org.kde.desktop")
      ∷ (str "QT_APPLICATION_DISPLAY_NAME", str "Proton Drive Setup")
      ∷ (str "QT_QPA_DESKTOPFILENAME", app_name)
      ∷ (str "QML_XHR_ALLOW_FILE_READ", str "1")
      ∷ (str "QT_QPA_PLATFORM", str "xcb;wayland;offscreen")
      ∷ []

  unfoldable pub folder : Text
  unfolding runtime_dir
  folder = runtime_dir (d.variable (str "XDG_RUNTIME_DIR")) d.uid

  unfoldable pub lock_path : Text
  unfolding folder path_join
  lock_path = path_join folder (app_name ++ str ".lock")

  unfoldable pub ctrl_port_path : Text
  unfolding folder path_join
  ctrl_port_path = path_join folder (app_name ++ str "-ctrl.port")

  unfoldable pub ctrl_token_path : Text
  unfolding folder path_join
  ctrl_token_path = path_join folder (app_name ++ str "-ctrl.token")

  abbrev pub is_alive : Option ℕ → World → Bool
  is_alive none w = false
  is_alive (some pid) w = d.exists (str "/proc/" ++ decimal pid) w

  -- A process of the number that the lock file holds is there.
  unfoldable pub is_open : World → Bool
  unfolding lock_path
  is_open w = is_alive (pid_of (d.read_to_string lock_path w)) w

  abbrev pub written : Text → Text → World → World
  written path contents w = (write_owner_only_file d.remove d.create path contents w).1

  unfoldable pub run_qml : Text → Text → World → World
  unfolding find_qml_runtime find_qml_translation_path environment folder resolve_locale
  run_qml mode qml_path w =
      let locale =
        resolve_locale (d.variable (str "LC_ALL")) (d.variable (str "LC_MESSAGES"))
          (d.variable (str "LANG")) in
      let translation = and_then locale λ l. find_qml_translation_path l w in
      d.spawn (unwrap_or (find_qml_runtime w) (str "qml6"))
        (translation_args translation ++ (qml_path ∷ str "--" ∷ mode ∷ folder ∷ [])) (environment w)
        w

  -- The lock, the server with its two files, and the QML process up to its end.
  unfoldable pub serve : Text → Text → World → World
  unfolding lock_path ctrl_port_path ctrl_token_path run_qml write_owner_only_file
      generate_ctrl_token
  serve mode qml_path w =
      let w1 = written lock_path (decimal d.process_id) w in
      let (bytes, w2) = d.random w1 in
      let token = generate_ctrl_token bytes in
      let (port, w3) = d.start_server token w2 in
      let w4 = written ctrl_port_path (decimal port) w3 in
      let w5 = written ctrl_token_path token w4 in
      let w6 = run_qml mode qml_path w5 in
      d.remove ctrl_token_path (d.remove ctrl_port_path (d.remove lock_path w6))

  unfoldable pub main : List Text → World → World
  unfolding is_open serve mode_of find_qml_path
  main args w = if is_open w then w else serve (mode_of args) (find_qml_path w) w

  unfoldable pub plasma_env_script_path : Option Text → Text → Text
  unfolding config_home path_join
  plasma_env_script_path xdg home =
      path_join (path_join (config_home xdg home) (str "plasma-workspace/env"))
        (str "kio-protondrive.sh")
