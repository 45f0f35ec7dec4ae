-- ===== src/Tests/Serving.antt =====
-- The daemon, its server, the installation and the wizard on small inputs.
use native.Mathlib.Decide.{ℕ_discrete}
use mathlib.Core.Path.{subst}
use kio_protondrive.Base.{
  ℕ, zero, suc, ◌+◌, ◌≤◌, ◌<◌, Text, str, same, split, text_dec, Bool, true, false, ◌||◌, Option,
  none, some, [], ◌∷◌, ◌++◌, List, Result, ok, err, pure, ◌>>=◌, to_lowercase, ◌≡◌, ◌≢◌, ◌⊎◌, refl,
  sym, ◌∙◌, arith,
}
use kio_protondrive.Outside.{done}
use kio_protondrive.Tests.World.{
  desktop, updates, never, Disk, sample, photo, NodeEntry-discrete, one_text-IsFaithful, disk,
  store, places,
}
use kio_protondrive.Bridge.Reads.{lookup_shared}
use kio_protondrive.Bridge.Shares.{refresh_stat_cache}
use kio_protondrive.Bridge.Badge.{refresh_stat_cache-lookup_shared}
use kio_protondrive.Ctrl
use kio_protondrive.Ctrl.Percent.{IsBytes}
use kio_protondrive.Ctrl.Requests.{extract_header-request_text}
use kio_protondrive.Update
use kio_protondrive.Update.Install
use kio_protondrive.Update.Verified.{IsApart, Outcome, download_and_install-Outcome}
use kio_protondrive.Daemon.State.{Running}
use kio_protondrive.Daemon.Control.{handle_request}
use kio_protondrive.Daemon.Requests.{
  pin_call, route_of, perform, handle_request_refuses, handle_request-request_text,
  handle_request_long,
}
use kio_protondrive.Daemon.Loop.{Loop, Timers, Received, timed_out, wait_time, pass, jobs}
use kio_protondrive.Daemon.Due.{any_due, pass-any_due}
use kio_protondrive.Wizard.Settings.{plasma_script}
use kio_protondrive.Wizard.Script.{exported, exported-plasma_script}
use kio_protondrive.Wizard.Keys.{gpg_batch}
use kio_protondrive.Wizard.Batch.{split-gpg_batch}
use kio_protondrive.Wizard.Favorite.{bookmark, add_bookmark, nothing}
use kio_protondrive.Wizard.Bookmarks.{add_bookmark_twice}

abbrev running : Running Disk
running = record { store = store; folders = []; revalidated = [] }

refresh_stat_cache-lookup_shared_example :
    (lookup_shared sample places (str "/a") (refresh_stat_cache sample places (str "/a") store).1).0
    ≡ ok (photo.is_shared || photo.is_shared_by_url)
unfolding NodeEntry-discrete str ℕ_discrete kio_protondrive.Cli.Commands.stat_path
    kio_protondrive.Cli.Runner.run kio_protondrive.Cli.Runner.run_once
    kio_protondrive.Cli.Runner.retry kio_protondrive.Cli.Answer.is_transient_lock_contention
    kio_protondrive.Bridge.Entries.open_cache kio_protondrive.Cli.Answer.ensure_success
refresh_stat_cache-lookup_shared_example =
    refresh_stat_cache-lookup_shared sample places ((λ w. refl), (λ p w. refl)) (str "/a") photo
      store (one_text-IsFaithful NodeEntry-discrete photo, (str "{}", refl)) refl

abbrev token : Text
token = b'a' ∷ b'b' ∷ []

abbrev other_token : Text
other_token = b'a' ∷ b'c' ∷ []

abbrev path : Text
path = b'/' ∷ b'a' ∷ 32 ∷ b'b' ∷ []

handle_request-request_text_example :
    handle_request sample places desktop never token
      (Ctrl.read_request (Ctrl.request_text (route_of pin_call) path token))
      running
    ≡ (perform sample places desktop never pin_call path >>= λ body. pure (str "200 OK", body))
        running
unfolding Ctrl.length Ctrl.request_text str route_of kio_protondrive.Base.trim
handle_request-request_text_example =
    handle_request-request_text sample places desktop never pin_call path token running
      (omega arith) (omega arith) (omega arith) (omega arith)

only_other :
    (t : Text)
    → Ctrl.extract_header (Ctrl.request_text (str "/pin") path other_token) Ctrl.daemon_token_header
      ≡ some t
    → IsBytes t × (t ≢ token)
unfolding str
only_other t e =
    let q : some other_token ≡ some t =
      sym (
        extract_header-request_text (str "/pin") path other_token
          (omega arith, omega arith, omega arith))
      ∙ e in
    let p : other_token ≡ t = cc in (subst IsBytes p (omega arith), λ r. ground (arith, p, r))

handle_request_refuses_example :
    handle_request sample places desktop never token
      (Ctrl.request_text (str "/pin") path other_token)
      running
    ≡ (ok (str "403 Forbidden", []), running)
handle_request_refuses_example =
    handle_request_refuses sample places desktop never token
      (Ctrl.request_text (str "/pin") path other_token) running (omega arith) only_other

-- A name of so many letters.
letters : ℕ → Text
letters zero = []
letters (suc n) = b'a' ∷ letters n

letters-IsBytes : (n : ℕ) → IsBytes (letters n)
unfolding letters
letters-IsBytes zero = tt
letters-IsBytes (suc n) = (omega arith, letters-IsBytes n)

length-letters : (n : ℕ) → n ≤ Ctrl.length (Ctrl.percent_encode (letters n))
unfolding letters Ctrl.length Ctrl.percent_encode
length-letters zero = omega arith
length-letters (suc n) = omega (arith, length-letters n)

handle_request_long_example :
    handle_request sample places desktop never token
      (Ctrl.read_request (Ctrl.request_text (route_of pin_call) (letters 4096) token))
      running
    ≡ (ok (str "403 Forbidden", []), running)
handle_request_long_example =
    handle_request_long sample places desktop never pin_call (letters 4096) token running
      (letters-IsBytes 4096) (length-letters 4096)

abbrev ended : Install.Exit
ended = record { success = true; status = []; stdout = str "ab  file" }

abbrev tools : Install.Tools Disk
tools = record {
  curl = λ args w. (ok ended, w);
  sha512sum = λ p w. (ok ended, w);
  make_executable = λ p w. (done tt, w);
  read_manifest = λ t. ok [];
  process_id = 7;
}

abbrev file : Update.ReleaseFile
file = record { url = str "https://x"; sha512 = str "AB"; platform = str "linux/x64" }

abbrev tmp : Text
tmp = Install.tmp_path sample tools (str "/bin") (str "p")

apart : IsApart sample tools (λ w. w.clock) tmp
apart = record {
  by_folder = λ p w. refl;
  by_curl = λ url w. refl;
  by_sum = λ w. refl;
  by_mode = λ w. refl;
  by_removal = λ w. refl;
}

download_and_install-Outcome_example :
    Outcome sample tools
      (λ w. w.clock)
      file
      tmp
      (tools.curl
        (Install.download_args tmp file.url)
        (sample.create_dir_all (str "/bin") disk).1).1
      disk
      (Install.download_and_install sample tools file
        (str "/bin/p")
        (some (str "/bin"))
        (str "p")
        disk)
download_and_install-Outcome_example =
    download_and_install-Outcome sample tools (λ w. w.clock) file (str "/bin/p") (str "/bin")
      (str "p") disk apart

abbrev timers : Timers
timers = record {
  version_check_interval = 86400;
  last_version_check = 100;
  last_fs_refresh = 100;
  last_open_folders_refresh = 90;
  last_cache_eviction = 100;
}

abbrev loop : Loop Disk
loop = record {
  running = running;
  auth_notified = false;
  cli_update_notified = none;
  timers = timers;
}

-- A minute later.
abbrev later : Running Disk
later = record running { store = record store { world = record disk { clock = 160 } } }

abbrev silence : ℕ → Running Disk → Received × Running Disk
silence t r = (timed_out, later)

pass-any_due_example :
    (pass sample places desktop updates never 30 silence loop
      ≡ some (jobs sample places desktop updates never 30 (record loop { running = later })))
    × (any_due 160 160 timers ≡ true)
unfolding wait_time
pass-any_due_example =
    pass-any_due sample places desktop updates never 30 silence loop later 60 refl
      (record {
        version_check = omega arith;
        fs_refresh = omega arith;
        open_folders = omega arith;
        cache_eviction = omega arith;
      })
      (omega arith) refl refl

exported-plasma_script_example :
    exported (str "PROTON_DRIVE_CREDENTIALS_STORE") false (plasma_script (str "it's"))
    ≡ some (str "it's")
exported-plasma_script_example = exported-plasma_script (str "it's")

split-gpg_batch_example :
    split 10 (gpg_batch (str "Ann") (str "a@b"))
    ≡ str "%echo Generating a GPG key for kio-protondrive"
      ∷ str "Key-Type: eddsa"
      ∷ str "Key-Curve: ed25519"
      ∷ str "Subkey-Type: ecdh"
      ∷ str "Subkey-Curve: cv25519"
      ∷ (str "Name-Real: " ++ str "Ann")
      ∷ (str "Name-Email: " ++ str "a@b")
      ∷ str "Expire-Date: 2y"
      ∷ str "%commit"
      ∷ str "%echo done"
      ∷ []
      ∷ []
unfolding kio_protondrive.Wizard.Keys.is_batch_safe str
split-gpg_batch_example = split-gpg_batch (str "Ann") (str "a@b") refl refl

add_bookmark_twice_example : add_bookmark (str "<xbel>" ++ (bookmark ++ str "</xbel>")) ≡ nothing
unfolding add_bookmark kio_protondrive.Base.contains str
add_bookmark_twice_example =
    add_bookmark_twice (str "<xbel></xbel>") (str "<xbel>" ++ (bookmark ++ str "</xbel>")) refl
