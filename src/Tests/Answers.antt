-- ===== src/Tests/Answers.antt =====
-- A finished upload, a saved setting and an installation on small inputs.
use native.Mathlib.Decide.{ℕ_discrete}
use kio_protondrive.Base.{
  ℕ, Text, str, Bool, true, false, Option, none, some, [], ◌∷◌, List, Result, ok, err, ◌≡◌, ◌⊎◌,
  refl,
}
use kio_protondrive.Outside.{Io, done, missing}
use kio_protondrive.Tests.World.{whole, Disk, disk, sample, served, places, one_text}
use kio_protondrive.Transfer
use kio_protondrive.Transfer.{Processes}
use kio_protondrive.Bridge.Transfers.{TransferHandle, poll_transfer}
use kio_protondrive.Bridge.Uploaded.{HasNoListing, poll_transfer-HasNoListing}
use kio_protondrive.Daemon.Config.{Config, Files}
use kio_protondrive.Wizard.Settings.{Session}
use kio_protondrive.Update
use kio_protondrive.Update.Install
use kio_protondrive.Wizard.Keys
use kio_protondrive.Wizard.Routes.{Machine, route_cli_install}
use kio_protondrive.Wizard.Installed.{IsAside, WasChecked, route_cli_install-WasChecked}

-- Processes that end with success.
abbrev processes : Processes Disk ℕ
processes = record {
  start = λ args w. (ok 7, w);
  receive =
      λ pid w. (Transfer.output (record { stdout = str "{}"; stderr = []; success = true }), w);
  kill_group = λ pid w. w;
  sleep = λ ms w. w;
  instant = λ w. 0;
  elapsed = λ t w. 1;
  throughput = λ d w. record { total_bytes = 0; total_secs = 0 };
  set_throughput = λ d t w. w;
  floats = whole;
}

abbrev handle : TransferHandle ℕ
handle = record {
  inner = record {
    args = str "proton-drive" ∷ [];
    direction = Transfer.upload;
    total_bytes = 10;
    started_at = 0;
    bytes_per_sec_estimate = 1;
    attempts_made = 1;
    cancelled = false;
    pid = 7;
  };
  path = str "/a";
}

poll_transfer-HasNoListing_example :
    HasNoListing sample places
      (str "/a")
      (poll_transfer sample places processes (str "proton-drive") handle served).1
unfolding poll_transfer kio_protondrive.Bridge.Writes.poll_transfer Transfer.poll
    kio_protondrive.Cli.Answer.is_transient_lock_contention
    kio_protondrive.Cli.Commands.finish_upload kio_protondrive.Cli.Answer.ensure_success
    kio_protondrive.Cli.Answer.ensure_no_failures
poll_transfer-HasNoListing_example =
    poll_transfer-HasNoListing sample places processes (str "proton-drive") handle handle
      (record { done = true; ok = true; error = none; processed_bytes = 10 }) served
      ((λ w. refl), (λ p w. refl)) refl refl refl

-- A disk of one file.
abbrev file_text : Option Text → Io Text
file_text none = missing (str "no such file")
file_text (some t) = done t

abbrev keyring : Config
keyring = record { credentials_store = some (str "pass"); cache_retention_days = none }

unfoldable Config-discrete : Discrete Config
Config-discrete = hlevel (ℕ_discrete)

abbrev one_file : Files (Option Text)
one_file = record {
  read_to_string = λ p w. file_text w;
  write = λ p t w. (done tt, some t);
  create_dir_all = λ p w. (done tt, w);
  toml = one_text Config-discrete keyring;
}

abbrev session : Session (Option Text)
session = record { set_store = λ s w. w; write_script = λ t w. w }

abbrev save_pass : Text
save_pass = str "GET /save-config?credentials_store=pass HTTP/1.1"

-- A machine on which every program ends with success, and a manifest of one release.
abbrev ended : Install.Exit
ended = record { success = true; status = str "0"; stdout = str "ab  file" }

abbrev machine : Machine Disk
machine = record {
  status = λ args w. (ok ended, w);
  which_path = λ bin w. none;
  home = some (str "/home/a");
  arch = str "x86_64";
}

abbrev no_files : Files Disk
no_files = record {
  read_to_string = λ p w. missing (str "no such file");
  write = λ p t w. (done tt, w);
  create_dir_all = λ p w. (done tt, w);
  toml = one_text Config-discrete keyring;
}

abbrev no_session : Session Disk
no_session = record { set_store = λ s w. w; write_script = λ t w. w }

abbrev no_keys : Keys.Tools Disk
no_keys = record {
  which = λ bin w. false;
  user = none;
  list_secret_keys = λ w. (ok ended, w);
  generate = λ batch w. (ok tt, w);
  pass_init = λ key w. (ok ended, w);
}

abbrev stable : Update.Release
stable = record {
  category = str "Stable";
  version = str "1.0.0";
  files = record { url = str "https://x"; sha512 = str "AB"; platform = str "linux/x64" } ∷ [];
}

abbrev tools : Install.Tools Disk
tools = record {
  curl = λ args w. (ok ended, w);
  sha512sum = λ p w. (ok ended, w);
  make_executable = λ p w. (done tt, w);
  read_manifest = λ t. ok (stable ∷ []);
  process_id = 7;
}

aside :
    IsAside sample machine no_files no_session no_keys tools
      (str "/c")
      none
      (λ w. w.clock)
      (str "/home/a")
aside = (
  record {
    by_folder = λ p w. refl;
    by_curl = λ url w. refl;
    by_sum = λ w. refl;
    by_mode = λ w. refl;
    by_removal = λ w. refl;
  },
  λ w. refl,
)

route_cli_install-WasChecked_example :
    ((route_cli_install sample machine no_files no_session no_keys tools
        (str "/c")
        none
        disk).1.clock
      ≡ disk.clock)
    ⊎ WasChecked sample machine no_files no_session no_keys tools
        (str "/c")
        none
        (λ w. w.clock)
        (str "/home/a")
        disk
route_cli_install-WasChecked_example =
    route_cli_install-WasChecked sample machine no_files no_session no_keys tools (str "/c") none
      (λ w. w.clock) (str "/home/a") disk aside refl
