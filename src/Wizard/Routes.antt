-- ===== src/Wizard/Routes.antt =====
-- wizard/src/main.rs: the control server of the wizard. The processes that it runs, and what `std` says
-- of the machine, are parameters.
use kio_protondrive.Base.{
  Text, str, same, Bool, true, false, not, ◌&&◌, [], ◌∷◌, ◌++◌, List, Option, none, some, Result,
  ok, err, if◌then◌else◌,
}
use kio_protondrive.Entry.{NodeEntry}
use kio_protondrive.Outside.{Outside, DriveError, not_authenticated, CommandOutput}
use kio_protondrive.Cli.Binary.{resolve_binary, binary}
use kio_protondrive.Cli.Commands.{stat_path}
use kio_protondrive.Cli.Runner.{run}
use kio_protondrive.Ctrl.{extract_header, request_path, json_escape}
use kio_protondrive.Update.{
  CliUpdateError, Release, ReleaseFile, file_for_platform, installed_version, is_supported,
  min_cli_version, update_error_text,
}
use kio_protondrive.Update.Install
use kio_protondrive.Update.Install.{
  Exit, current_platform, fetch_latest_stable, download_and_install,
}
use kio_protondrive.Daemon.Config.{Files, path_join}
use kio_protondrive.Daemon.Control.{is_token, response}
use kio_protondrive.Wizard.Settings.{Session, route_save_config}
use kio_protondrive.Wizard.Keys
use kio_protondrive.Wizard.Keys.{error_body, route_setup_pass}
use kio_protondrive.Wizard.Favorite.{route_add_favorite}

abbrev pub token_header : Text
token_header = str "x-kio-protondrive-wizard-token"

abbrev pub bool_text : Bool → Text
bool_text true = str "true"
bool_text false = str "false"

unfoldable pub is_authenticated : Result NodeEntry DriveError → Bool
is_authenticated (err not_authenticated) = false
is_authenticated (err e) = true
is_authenticated (ok _) = true

unfoldable pub session_body : Bool → Text
session_body b = str "{\"authenticated\":" ++ (bool_text b ++ str "}")

unfoldable pub login_failed : Text → Text
login_failed message = str "{\"authenticated\":false,\"error\":\"" ++ (message ++ str "\"}")

abbrev pub has_secret_key : Result Exit Text → Bool
has_secret_key (ok e) = e.success && not (same e.stdout [])
has_secret_key (err _) = false

unfoldable pub credentials_body : Bool → Bool → Bool → Text
credentials_body pass gpg key =
    str "{\"pass_installed\":"
    ++ (bool_text pass
        ++ (str ",\"gpg_installed\":"
            ++ (bool_text gpg ++ (str ",\"has_key\":" ++ (bool_text key ++ str "}")))))

abbrev pub restarted_body : Result Exit Text → Text
restarted_body (err m) = error_body (json_escape m)
restarted_body (ok e) =
    if e.success then str "{\"ok\":true}" else error_body (str "systemctl exited with " ++ e.status)

unfoldable pub not_installed_body : Text
not_installed_body =
    str "{\"installed\":false,\"version\":null,\"supported\":false,\"minimum\":\""
    ++ (min_cli_version ++ str "\"}")

-- A version that cannot be read counts as supported.
unfoldable pub version_body : Option Text → Text
version_body none =
    str "{\"installed\":true,\"version\":null,\"supported\":true,\"minimum\":\""
    ++ (min_cli_version ++ str "\"}")
version_body (some v) =
    str "{\"installed\":true,\"version\":\""
    ++ (json_escape v
        ++ (str "\",\"supported\":"
            ++ (bool_text (is_supported v)
                ++ (str ",\"minimum\":\"" ++ (min_cli_version ++ str "\"}")))))

abbrev pub version_of : Result CommandOutput DriveError → Option Text
version_of (ok out) = installed_version out.stdout
version_of (err _) = none

abbrev pub installed_body : Text → Result (Unit {0}) CliUpdateError → Text
installed_body version (ok _) =
    str "{\"ok\":true,\"version\":\"" ++ (json_escape version ++ str "\"}")
installed_body version (err e) = error_body (json_escape (update_error_text e))

-- `status` runs a program, in front of its arguments, and waits for it; the text of its exit status is
-- the code, or -1 where there is none. `home` is `HOME`, and `arch` the architecture of the build.
pub record Machine (World : Type 0) : Type 0 where
  pub status : List Text → World → Result Exit Text × World
  pub which_path : Text → World → Option Text
  pub home : Option Text
  pub arch : Text

module _ (o : Outside) (m : Machine (o.World)) (f : Files (o.World)) (n : Session (o.World))
    (t : Keys.Tools (o.World)) (i : Install.Tools (o.World)) (config_path : Text)
    (config_parent : Option Text) where
  open o use {World}

  unfoldable pub route_session_status : World → Text × World
  unfolding session_body is_authenticated
  route_session_status w =
      let (r, w') = stat_path o (str "/") w in (session_body (is_authenticated r), w')

  abbrev pub logged_in : Result Exit Text × World → Text × World
  logged_in (err e, w) = (login_failed (json_escape e), w)
  logged_in (ok e, w) =
      let failed = login_failed (str "proton-drive auth login exited with " ++ e.status) in
      if e.success then route_session_status w else (failed, w)

  unfoldable pub route_auth_login : World → Text × World
  unfolding route_session_status login_failed binary
  route_auth_login w =
      let program = binary (λ name. m.which_path name w) (λ path. o.is_file path w) m.home in
      logged_in (m.status (program ∷ str "auth" ∷ str "login" ∷ []) w)

  -- `gpg` is only run where it is installed.
  abbrev pub has_key : Bool → World → Bool × World
  has_key false w = (false, w)
  has_key true w = let (r, w') = t.list_secret_keys w in (has_secret_key r, w')

  unfoldable pub route_credentials_status : World → Text × World
  unfolding credentials_body
  route_credentials_status w =
      let pass = t.which (str "pass") w in
      let gpg = t.which (str "gpg") w in
      let (key, w') = has_key gpg w in (credentials_body pass gpg key, w')

  unfoldable pub route_restart_daemon : World → Text × World
  route_restart_daemon w =
      let (r, w') =
        m.status
          (str "systemctl"
            ∷ str "--user"
            ∷ str "restart"
            ∷ str "kio-protondrive-sync-daemon.service"
            ∷ [])
          w in
      (restarted_body r, w')

  abbrev pub status_of_binary : Option Text → World → Text × World
  status_of_binary none w = (not_installed_body, w)
  status_of_binary (some _) w =
      let (r, w') = run o (str "--version" ∷ []) 10 w in (version_body (version_of r), w')

  unfoldable pub route_cli_status : World → Text × World
  unfolding not_installed_body version_body resolve_binary
  route_cli_status w =
      status_of_binary
        (resolve_binary (λ name. m.which_path name w) (λ path. o.is_file path w) m.home) w

  -- The destination is `HOME` and `.local/bin/proton-drive`.
  unfoldable pub install_folder : Text → Text
  unfolding path_join
  install_folder home = path_join home (str ".local/bin")

  unfoldable pub install_path : Text → Text
  unfolding path_join
  install_path home = path_join home (str ".local/bin/proton-drive")

  abbrev pub install_file : Release → Option Text → Option ReleaseFile → Text → World → Text × World
  install_file release home none platform w = (
    error_body (str "no " ++ (json_escape platform ++ str " build listed in the release manifest")),
    w,
  )
  install_file release none (some file) platform w = (error_body (str "HOME not set"), w)
  install_file release (some home) (some file) platform w =
      let (r, w') =
        download_and_install o i file (install_path home) (some (install_folder home))
          (str "proton-drive") w in
      (installed_body release.version r, w')

  abbrev pub install_release : Text → Result Release CliUpdateError × World → Text × World
  install_release platform (err e, w) = (error_body (json_escape (update_error_text e)), w)
  install_release platform (ok release, w) =
      install_file release m.home (file_for_platform release.files platform) platform w

  abbrev pub install_on : Option Text → World → Text × World
  install_on none w = (error_body (str "unsupported CPU architecture"), w)
  install_on (some platform) w = install_release platform (fetch_latest_stable o i w)

  unfoldable pub route_cli_install : World → Text × World
  unfolding install_folder install_path file_for_platform
  route_cli_install w = install_on (current_platform m.arch) w

  abbrev pub answered : Text × World → (Text × Text) × World
  answered (body, w) = ((str "200 OK", body), w)

  -- The status and the body of an answer.
  unfoldable pub route : Text → World → (Text × Text) × World
  unfolding route_add_favorite
  route req w =
      let path = request_path req in
      if same path (str "/session-status")
      then answered (route_session_status w)
      else if same path (str "/auth-login")
      then answered (route_auth_login w)
      else if same path (str "/save-config")
      then answered (route_save_config f n config_path config_parent req w)
      else if same path (str "/credentials-status")
      then answered (route_credentials_status w)
      else if same path (str "/setup-pass")
      then answered (route_setup_pass t req w)
      else if same path (str "/add-favorite")
      then answered (route_add_favorite f.read_to_string f.write m.home w)
      else if same path (str "/restart-daemon")
      then answered (route_restart_daemon w)
      else if same path (str "/cli-status")
      then answered (route_cli_status w)
      else if same path (str "/cli-install")
      then answered (route_cli_install w)
      else ((str "404 Not Found", str "{}"), w)

  -- `handle_ctrl_connection`, of the request that was read, up to the bytes that are written.
  unfoldable pub handle_ctrl_request : Text → Text → World → (Text × Text) × World
  handle_ctrl_request expected_token req w =
      if is_token expected_token (extract_header req token_header)
      then route req w
      else ((str "403 Forbidden", []), w)

  unfoldable pub handle_ctrl_connection : Text → Text → World → Text × World
  unfolding handle_ctrl_request response
  handle_ctrl_connection expected_token req w =
      let (answer, w') = handle_ctrl_request expected_token req w in
      (response answer.0 answer.1, w')
