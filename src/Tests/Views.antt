-- ===== src/Tests/Views.antt =====
-- The pins as a map, and the progress of a transfer, on the small world.
use mathlib.Core.Path.{subst}
use kio_protondrive.Base.{
  ℕ, Text, str, text_dec, true, false, List, [], ◌∷◌, ok, ◌≡◌, refl, arith, if◌then◌else◌, same,
  leb, ◌≤◌, ◌<◌, ◌++◌, ◌>>=◌, starts_with, ends_with,
}
use kio_protondrive.Outside.{Outside, Io, done, failed, Entry, entry, directory, regular, special}
use kio_protondrive.Ctrl.{length}
use kio_protondrive.Store.{root_of}
use kio_protondrive.Daemon.Sync.{path_max, walk_and_upload, reconcile}
use kio_protondrive.Daemon.Kept.{IsMeasured}
use kio_protondrive.Daemon.Reconciled.{reconcile-IsMeasured}
use kio_protondrive.Daemon.Sync.{upload_if_needed}
use kio_protondrive.Daemon.Walked.{
  AreLonger, IsBounded, IsStill, reconcile-fuel, files_in, upload_files, walk_and_upload-files,
}
use kio_protondrive.Table
use kio_protondrive.Table.{find}
use kio_protondrive.Cache.Pins
use kio_protondrive.Cache.Spec
use kio_protondrive.Cache.Under.{not_below}
use kio_protondrive.Cache.Client.{AllAvoid}
use kio_protondrive.Cache.Spec.{Call, Does}
use kio_protondrive.Cache.Client.{edited}
use kio_protondrive.Cache.Refines.{seen_in, performed, performed-Does}
use kio_protondrive.Cache.Thinned.{view}
use kio_protondrive.Cache.Settled.{synced_settles}
use kio_protondrive.Transfer
use kio_protondrive.Transfer.{Processes, TransferHandle}
use kio_protondrive.Transfer.Estimated.{IsSound, poll-pending}
use kio_protondrive.Tests.World.{sample, database, store, whole}

abbrev b_txt : Text
b_txt = str "/a/b.txt"

performed-Does_example :
    Does
      (Spec.unpin_tree (str "/a") true)
      (performed sample (Spec.unpin_tree (str "/a") true) store).0
      (seen_in sample (performed sample (Spec.unpin_tree (str "/a") true) store).1)
      (view database)
      (view (performed sample (Spec.unpin_tree (str "/a") true) store).1.db)
performed-Does_example =
    performed-Does sample (Spec.unpin_tree (str "/a") true) store (λ w p. (refl, refl))
      (unfold find in (refl, tt))

-- What happens to other files meanwhile.
abbrev others : List Call
others =
    Spec.mark_synced (str "/a/c.txt") 1 2
    ∷ Spec.unpin_tree (str "/d") true
    ∷ Spec.rename (str "/e") (str "/f") (str "/root/f")
    ∷ []

others_avoid : AllAvoid b_txt others
unfolding str Pins.in_tree Pins.tree_prefix text_dec starts_with ends_with
others_avoid = (refl, (not_below (str "/d") b_txt refl, ((refl, refl), tt)))

synced_settles_example : false ≡ edited (find b_txt database.pins) 7 3 7 3
unfolding Pins.mark_synced Pins.needs_upload performed find text_dec str Table.update Pins.in_tree
    starts_with Pins.tree_prefix ends_with Pins.rename Pins.rekey Pins.unpin_tree Pins.rows_in_tree
synced_settles_example =
    synced_settles sample b_txt 7 3 7 3 others store false (λ w p. (refl, refl)) (refl, tt)
      others_avoid refl refl

whole-IsSound : IsSound whole
whole-IsSound = record {
  min_le = λ x n. ground arith;
  to_u64_mono = λ x y h. ground arith;
  to_u64_max = λ x. ground arith;
  to_u64_cap = λ n. omega arith;
}

-- A process that runs on for a second.
abbrev running : Processes (Unit {0}) ℕ
running = record {
  start = λ args w. (ok 7, w);
  receive = λ pid w. (Transfer.still_running, w);
  kill_group = λ pid w. w;
  sleep = λ ms w. w;
  instant = λ w. 0;
  elapsed = λ t w. 1;
  throughput = λ d w. record { total_bytes = 0; total_secs = 0 };
  set_throughput = λ d t w. w;
  floats = whole;
}

abbrev handle : TransferHandle ℕ
handle = record {
  args = str "proton-drive" ∷ [];
  direction = Transfer.download;
  total_bytes = 10;
  started_at = 0;
  bytes_per_sec_estimate = 4;
  attempts_made = 1;
  pid = 7;
  cancelled = false;
}

poll-pending_example : 4 ≤ 10
unfolding Transfer.poll Transfer.progress
poll-pending_example = poll-pending running handle tt 4 whole-IsSound refl

-- Each folder holds another, as far down as paths are opened.
abbrev entries_of : Text → Io (List Entry)
entries_of dir =
    if leb path_max (length dir)
    then failed (str "File name too long")
    else done (entry (dir ++ str "/a") directory ∷ [])

abbrev deep : Outside
deep = record sample { read_dir = λ dir w. entries_of dir }

length-below : (dir : Text) → length dir < length (dir ++ str "/a")
unfolding length str
length-below [] = omega arith
length-below (b ∷ dir) = omega (arith, length-below dir)

entries_of-AreLonger :
    (dir : Text) (es : List Entry) → entries_of dir ≡ done es → AreLonger (length dir) es
entries_of-AreLonger dir es h = subst (AreLonger (length dir)) (opened es h) (length-below dir, tt)
  where
    opened :
        (es : List Entry) → entries_of dir ≡ done es → entry (dir ++ str "/a") directory ∷ [] ≡ es
    opened es h = ground arith

deep-IsBounded : IsBounded deep
deep-IsBounded = record {
  too_long = λ dir w h. (str "File name too long", ground arith);
  longer = λ dir w es h. entries_of-AreLonger dir es h;
}

reconcile-fuel_example : (root_of deep >>= walk_and_upload deep 5000) store ≡ reconcile deep store
reconcile-fuel_example = reconcile-fuel deep 5000 store deep-IsBounded (omega arith)

-- Two levels of folders.
abbrev tree : Text → List Entry
tree dir =
    if same dir (str "/root")
    then entry (str "/root/a") directory ∷ entry (str "/root/c.txt") regular ∷ []
    else if same dir (str "/root/a")
    then entry (str "/root/a/b.txt") regular ∷ entry (str "/root/a/link") special ∷ []
    else []

abbrev still : Outside
still = record sample { read_dir = λ dir w. done (tree dir) }

walk_and_upload-files_example :
    walk_and_upload still 2 (str "/root") store
    ≡ upload_files still (files_in tree 2 (str "/root")) store
unfolding IsStill text_dec str
walk_and_upload-files_example =
    walk_and_upload-files still tree 2 (str "/root") store ((λ w. refl), (((λ w. refl), tt), tt))

walked_files : files_in tree 2 (str "/root") ≡ str "/root/a/b.txt" ∷ str "/root/c.txt" ∷ []
unfolding files_in text_dec str
walked_files = refl

-- A disk whose files nobody edits.
abbrev idle : Outside
idle = record still {
  is_file = λ p w. true;
  metadata = λ p w. done (record { mtime = 7; len = 3 });
}

reconcile-IsMeasured_example :
    IsMeasured b_txt (record { mtime = 7; len = 3 }) (reconcile idle store).1.db
unfolding IsStill files_in upload_files upload_if_needed Pins.remote_of text_dec str
    Pins.lookup_by_local_path Pins.needs_upload find
    kio_protondrive.Cli.Chain.ensure_remote_dir_chain kio_protondrive.Base.split
    kio_protondrive.Base.rsplit_once kio_protondrive.Cli.Commands.upload
    kio_protondrive.Cli.Runner.run kio_protondrive.Cli.Runner.run_once
    kio_protondrive.Cli.Runner.retry kio_protondrive.Cli.Answer.is_transient_lock_contention
    kio_protondrive.Cli.Answer.ensure_success kio_protondrive.Cli.Answer.ensure_no_failures
    Pins.mark_synced
reconcile-IsMeasured_example =
    reconcile-IsMeasured idle (str "/root/a/b.txt") b_txt (record { mtime = 7; len = 3 }) tree []
      (str "/root/c.txt" ∷ []) store ((λ w. refl), (((λ w. refl), tt), tt)) refl (λ w. (refl, refl))
      (unfold find in (refl, tt)) refl refl refl
