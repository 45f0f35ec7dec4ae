-- ===== src/Daemon/Versions.antt =====
-- daemon/src/version_check.rs: what a check of the CLI's version runs, asks for and sends.
use kio_protondrive.Base.{
  ℕ, Text, str, Bool, true, false, [], ◌∷◌, List, Option, none, some, Result, ok, err,
  if◌then◌else◌,
}
use kio_protondrive.Entry.{and_then}
use kio_protondrive.Outside.{Outside, DriveError, CommandOutput}
use kio_protondrive.Cli.Runner.{run}
use kio_protondrive.Update.{
  CliUpdateError, checksum_mismatch, Release, Notice, cli_unsupported, cli_update_available,
  offer_update, check, installed_version, is_supported, min_cli_version,
}
use kio_protondrive.Daemon.Notices.{Desktop}
use kio_protondrive.Daemon.Notices

-- What the check uses besides the CLI. `writable_binary` says whether `find_binary` gives a file that
-- this process may write.
pub record Updates (World : Type 0) : Type 0 where
  pub fetch_latest_stable : World → Result Release CliUpdateError × World
  pub writable_binary : World → Bool

-- In seconds.
abbrev pub check_timeout : ℕ
check_timeout = 10

abbrev pub stdout_of : Result CommandOutput DriveError → Option Text
stdout_of (ok out) = some out.stdout
stdout_of (err _) = none

abbrev pub supports : Option Text → Bool
supports none = false
supports (some installed) = is_supported installed

-- The manifest is asked for only where the installed version is known and supported.
unfoldable pub asks_release : Option Text → Bool
asks_release stdout = supports (and_then stdout installed_version)

module _ (o : Outside) (d : Desktop (o.World)) (u : Updates (o.World)) where
  open o use {World, launch}

  -- `offer_wizard_update`
  unfoldable pub offer_wizard_update : World → World
  offer_wizard_update w =
      if u.writable_binary w
      then launch (str "kio-protondrive-wizard" ∷ str "--update-cli" ∷ []) w
      else w

  unfoldable pub send_notice : Notice → World → World
  unfolding offer_wizard_update
  send_notice (cli_unsupported installed) w =
      (d.notify_send (Notices.cli_unsupported d installed min_cli_version) w).1
  send_notice (cli_update_available latest installed) w =
      (d.notify_send (Notices.cli_update_available d latest installed) w).1
  send_notice offer_update w = offer_wizard_update w

  unfoldable pub send_notices : List Notice → World → World
  unfolding send_notice
  send_notices [] w = w
  send_notices (n ∷ ns) w = send_notices ns (send_notice n w)

  -- The manifest, or a value that is not read where none is asked for.
  abbrev pub latest_if : Bool → World → Result Release CliUpdateError × World
  latest_if true w = u.fetch_latest_stable w
  latest_if false w = (err checksum_mismatch, w)

  -- Whether the check was answered, and the version that was notified of.
  unfoldable pub version_check : Option Text → World → (Bool × Option Text) × World
  unfolding send_notices asks_release
  version_check noted w =
      let (r, w1) = run o (str "--version" ∷ []) check_timeout w in
      let (latest, w2) = latest_if (asks_release (stdout_of r)) w1 in
      let c = check noted (stdout_of r) latest in
      ((c.completed, c.already_notified), send_notices c.notices w2)
