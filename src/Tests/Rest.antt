-- ===== src/Tests/Rest.antt =====
-- The other theorems, on small inputs.
use kio_protondrive.Base.{
  ℕ, ◌+◌, ◌≤◌, ◌<◌, Text, str, text_dec, Bool, true, false, Option, none, some, [], ◌∷◌, List,
  Result, ok, err, ◌≡◌, ◌≢◌, refl, same, if◌then◌else◌, ◌⊎◌, inl, inr, ◌↔◌, not, ltb, arith,
}
use kio_protondrive.Table.{find}
use kio_protondrive.Cache.Pins
use kio_protondrive.Daemon.Followed.{handle_rename-IsFollowed, IsFollowed}
use kio_protondrive.Daemon.Sync
use kio_protondrive.Cli.Attempts.{counted, Tally, run_attempts}
use kio_protondrive.Cli.Runner
use kio_protondrive.Cli.Commands
use kio_protondrive.Transfer
use kio_protondrive.Transfer.{Processes, TransferHandle}
use kio_protondrive.Transfer.Ends.{poll_until, poll_until_finished}
use kio_protondrive.Transfer.Attempts.{started, polled, Run-IsBounded}
use kio_protondrive.Transfer.Attempts
use kio_protondrive.OpenFolders
use kio_protondrive.OpenFolders.Views
use kio_protondrive.Update
use kio_protondrive.Update.Order.{is_newer_iff, IsAbove}
use kio_protondrive.Photos
use kio_protondrive.Photos.Naming.{from_slug_iff}
use kio_protondrive.Bridge.Served.{lookup_cached-IsCurrent, IsCurrent, asked_in}
use kio_protondrive.Bridge.Trashed.{trash-IsForgotten, IsForgotten}
use kio_protondrive.Bridge.Writes
use kio_protondrive.Daemon.Kept.{upload_if_needed-IsMeasured, IsMeasured}
use kio_protondrive.Tests.World.{whole, served, places, sample, disk, database, store}

abbrev b_txt : Text
b_txt = str "/root/a/b.txt"

abbrev c_txt : Text
c_txt = str "/root/a/c.txt"

handle_rename-IsFollowed_example :
    IsFollowed
      (str "/a/b.txt")
      (str "/a/c.txt")
      c_txt
      database.pins
      (Sync.handle_rename sample b_txt c_txt store).1.db.pins
unfolding find text_dec str Pins.remote_of Sync.remote_path_for_local
    kio_protondrive.Base.strip_prefix Sync.handle_rename Pins.lookup_by_local_path
    kio_protondrive.Cli.Chain.ensure_remote_dir_chain kio_protondrive.Base.split
    kio_protondrive.Base.rsplit_once Commands.rename_path Runner.run Runner.run_once Runner.retry
    kio_protondrive.Cli.Answer.is_transient_lock_contention
    kio_protondrive.Cli.Answer.ensure_success Pins.rename Pins.rekey
handle_rename-IsFollowed_example =
    handle_rename-IsFollowed sample b_txt c_txt (str "/a/b.txt") (str "/a/c.txt") store (refl, tt)
      refl refl refl

run_attempts_example :
    Tally sample 1 3
      (Runner.run (counted sample) (str "version" ∷ []) 30 (disk, 0))
      (Runner.run sample (str "version" ∷ []) 30 disk)
run_attempts_example = run_attempts sample (str "version" ∷ []) 30 disk

-- Processes that fail for a locked database, whenever they are asked.
abbrev locked : Processes (Unit {0}) ℕ
locked = record {
  start = λ args w. (ok 7, w);
  receive = λ pid w. (
    Transfer.output (record { stdout = []; stderr = str "database is locked"; success = false }),
    w,
  );
  kill_group = λ pid w. w;
  sleep = λ ms w. w;
  instant = λ w. 0;
  elapsed = λ t w. 1;
  throughput = λ d w. record { total_bytes = 0; total_secs = 0 };
  set_throughput = λ d t w. w;
  floats = whole;
}

abbrev handle : TransferHandle ℕ
handle = record {
  args = str "proton-drive" ∷ [];
  direction = Transfer.download;
  total_bytes = 10;
  started_at = 0;
  bytes_per_sec_estimate = 3145728;
  attempts_made = 1;
  pid = 7;
  cancelled = false;
}

Run-IsBounded_example :
    (1 ≤ (Transfer.poll (Attempts.counted locked) handle (tt, 1)).2.1)
    × ((Transfer.poll (Attempts.counted locked) handle (tt, 1)).2.1 ≤ 3)
    × ((Transfer.poll
          (Attempts.counted locked)
          (Transfer.poll (Attempts.counted locked) handle (tt, 1)).1
          (Transfer.poll (Attempts.counted locked) handle (tt, 1)).2).2.1
        ≤ 3)
unfolding Transfer.start_program Transfer.poll Transfer.on_output Transfer.may_retry str
    Transfer.record_throughput Transfer.progress kio_protondrive.Cli.Answer.mentions_lock
    kio_protondrive.Base.contains kio_protondrive.Base.starts_with
    kio_protondrive.Cli.Answer.is_transient_lock_contention
Run-IsBounded_example =
    Run-IsBounded locked
      (polled 10 (started Transfer.download (str "proton-drive" ∷ []) 10 tt refl) refl)

is_newer_iff_example :
    (Update.is_newer (str "1.10") (str "1.2") ≡ true) ↔ IsAbove (1 ∷ 10 ∷ []) (1 ∷ 2 ∷ [])
unfolding str Update.parts kio_protondrive.Base.split
is_newer_iff_example = is_newer_iff (str "1.10") (str "1.2") refl refl

from_slug_iff_example :
    (Photos.from_slug (str "raw") ≡ some Photos.raw) ↔ (str "raw" ≡ Photos.slug Photos.raw)
from_slug_iff_example = from_slug_iff (str "raw") Photos.raw

abbrev events : List Views.Event
events = (OpenFolders.entered, str "/a", 1) ∷ (OpenFolders.left, str "/b", 2) ∷ []

run_lem_example :
    (OpenFolders.views_of (find (str "/a") (Views.run events Views.start))
      ≡ Views.views_by (str "/a") 0 events)
    × ((find (str "/a") (Views.run events Views.start) ≢ none)
        ↔ (0 < Views.views_by (str "/a") 0 events))
run_lem_example = Views.run_lem (str "/a") events (omega arith)

abbrev release : Result Update.Release Update.CliUpdateError
release = ok (record { category = str "Stable"; version = str "1.2.0"; files = [] })

abbrev version_line : Option Text
version_line = some (str "cli-drive@1.0.0+abc")

lookup_cached-IsCurrent_example :
    IsCurrent sample places
      (str "/c.txt")
      (str "/root/c.txt")
      (asked_in sample places (str "/c.txt") served)
      served.db.cached_files
unfolding find text_dec str kio_protondrive.Bridge.Reads.lookup_cached
    kio_protondrive.Bridge.Entries.open_cache kio_protondrive.Cache.Files.cached_file
    Commands.stat_path Runner.run Runner.run_once Runner.retry
    kio_protondrive.Cli.Answer.is_transient_lock_contention
    kio_protondrive.Cli.Answer.ensure_success
lookup_cached-IsCurrent_example =
    lookup_cached-IsCurrent sample places (str "/c.txt") (str "/root/c.txt") served refl (λ e. cc)

trash-IsForgotten_example :
    IsForgotten (str "/a/b.txt") (Writes.trash sample places (str "/a") served).1.db
unfolding find text_dec str Writes.trash Commands.trash_path Runner.run Runner.run_once Runner.retry
    kio_protondrive.Cli.Answer.is_transient_lock_contention
    kio_protondrive.Cli.Answer.ensure_success kio_protondrive.Cli.Answer.ensure_all_ok
    kio_protondrive.Base.rsplit_once Pins.in_tree kio_protondrive.Base.starts_with Pins.tree_prefix
    kio_protondrive.Base.ends_with
trash-IsForgotten_example =
    trash-IsForgotten sample places (λ w. refl, λ p w. refl) (str "/a") (str "/a/b.txt") served refl
      (inr (inl (str "b.txt", refl)))

upload_if_needed-IsMeasured_example :
    IsMeasured
      (str "/a/b.txt")
      (record { mtime = 7; len = 3 })
      (Sync.upload_if_needed sample b_txt store).1.db
unfolding find text_dec str Pins.remote_of Sync.upload_if_needed Pins.lookup_by_local_path
    Pins.needs_upload kio_protondrive.Cli.Chain.ensure_remote_dir_chain kio_protondrive.Base.split
    kio_protondrive.Base.rsplit_once Commands.upload Runner.run Runner.run_once Runner.retry
    kio_protondrive.Cli.Answer.is_transient_lock_contention
    kio_protondrive.Cli.Answer.ensure_success kio_protondrive.Cli.Answer.ensure_no_failures
    Pins.mark_synced
upload_if_needed-IsMeasured_example =
    upload_if_needed-IsMeasured sample b_txt (str "/a/b.txt") (record { mtime = 7; len = 3 }) store
      refl refl refl refl

poll_until_finished_example : poll_until locked 3 handle tt ≡ true
poll_until_finished_example =
    poll_until_finished locked (λ pid w. refl) 3 handle tt (omega arith) (omega arith)
