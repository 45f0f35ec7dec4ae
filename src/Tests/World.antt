-- ===== src/Tests/World.antt =====
-- A world with a few files, a clock and a fixed answer of the CLI, and stores over it.
use native.Mathlib.Decide.{ℕ_discrete}
use kio_protondrive.Update
use kio_protondrive.Daemon.Notices.{Desktop}
use kio_protondrive.Daemon.Versions.{Updates}
use kio_protondrive.Transfer.Rate.{Floats}
use kio_protondrive.Base.{
  ℕ, ◌+◌, ◌*◌, ◌/◌, leb, ltb, if◌then◌else◌, Text, str, Bool, true, false, Option, none, some, [],
  ◌∷◌, List, Result, ok, err, ◌≡◌, refl, sym, ap, ◌∙◌,
}
use kio_protondrive.Table.{Table, find, delete}
use kio_protondrive.Entry.{NodeEntry, unshared, node}
use kio_protondrive.Outside.{Outside, CommandOutput, Io, done, missing, Metadata, Json, exited}
use kio_protondrive.Cache.Stored.{IsFaithful}
use kio_protondrive.Bridge.Entries.{Places}
use kio_protondrive.Store.{Store, Db, Pin, CachedFile}

pub record Disk : Type 0 where
  pub files : Table Metadata
  pub clock : ℕ
  pub answer : CommandOutput

abbrev pub photo : NodeEntry
photo = record {
  uid = str "v~1";
  name = record { ok = true; value = some (str "a.jpg") };
  node_type = str "file";
  media_type = some (str "image/jpeg");
  total_storage_size = some 10;
  active_revision = none;
  creation_time = str "2024";
  modification_time = str "2025";
  is_shared = false;
  is_shared_by_url = false;
  photo = none;
}

unfoldable pub NodeEntry-discrete : Discrete NodeEntry
NodeEntry-discrete = hlevel (ℕ_discrete)

unfoldable pub NodeEntries-discrete : Discrete (List NodeEntry)
NodeEntries-discrete = hlevel (NodeEntry-discrete)

abbrev pub one_text : {A : Type 0} → Discrete A → A → Json A
one_text d a = record {
  read = λ t. ok a;
  write = λ b. elim (d b a) as (λ _. Result Text Text) [
    | yes _ ↦ ok (str "{}")
    | no _ ↦ err (str "other")
  ];
}

abbrev pub size_and_time : Option Metadata → Io Metadata
size_and_time none = missing (str "no such file")
size_and_time (some m) = done m

abbrev pub is_there : Option Metadata → Bool
is_there none = false
is_there (some _) = true

abbrev pub sample : Outside
sample = record {
  World = Disk;
  process = λ args t w. (exited w.answer, w);
  kill = λ w. w;
  sleep = λ ms w. w;
  launch = λ args w. w;
  now = λ w. w.clock;
  db_error = λ w. (none, w);
  is_file = λ p w. is_there (find p w.files);
  metadata = λ p w. size_and_time (find p w.files);
  read_dir = λ p w. done [];
  remove_file = λ p w. (done tt, record w { files = delete p w.files });
  rename_file = λ p q w. (done tt, w);
  create_dir_all = λ p w. (done tt, w);
  node_json = one_text NodeEntry-discrete photo;
  nodes_json = one_text NodeEntries-discrete (photo ∷ []);
  read_items = λ t. ok (node photo ∷ []);
  read_summary = λ t. ok (record {
    transferred_items = 1;
    transferred_bytes = 10;
    skipped_items = 0;
    failed_items = 0;
  });
  read_trash = λ t. ok [];
  read_copy = λ t. ok [];
  read_sharing = λ t. ok unshared;
}

read_back :
    {A : Type 0} {a b : A} (x : Dec (b ≡ a)) (t : Text)
    → (elim x as (λ _. Result Text Text) [ yes _ ↦ ok (str "{}") | no _ ↦ err (str "other") ])
      ≡ ok t
    → (r : Result A Text) → r ≡ ok a
    → r ≡ ok b
read_back (yes e) t h r k = k ∙ ap ok (sym e)
read_back (no n) t h r k = absurd (cc)

pub one_text-IsFaithful : {A : Type 0} (d : Discrete A) (a : A) → IsFaithful (one_text d a)
one_text-IsFaithful d a b t h = read_back (d b a) t h (ok a) refl

-- One file on the disk, changed at 7 and 3 bytes long.
abbrev pub disk : Disk
disk = record {
  files = (str "/root/a/b.txt", record { mtime = 7; len = 3 }) ∷ [];
  clock = 100;
  answer = record { stdout = str "{}"; stderr = []; success = true };
}

-- Its pin, from before that change.
abbrev pub pin_before : Pin
pin_before = record {
  local_path = str "/root/a/b.txt";
  local_mtime = 5;
  local_size = 3;
  last_synced_at = 5;
}

abbrev pub cached : CachedFile
cached = record {
  local_path = str "/root/c.txt";
  remote_modification_time = str "2025";
  last_accessed_at = 95;
}

abbrev pub database : Db
database = record {
  pins = (str "/a/b.txt", pin_before) ∷ [];
  cached_files = (str "/c.txt", cached) ∷ [];
  stats = (str "/a/b.txt", record { json = str "{}"; fetched_at = 1 }) ∷ [];
  listings = [];
  timeline = none;
  user_version = 1;
}

abbrev pub store : Store Disk
store = record { db = database; world = disk; root = str "/root" }

abbrev pub empty : Store Disk
empty = record { db = record database { pins = [] }; world = disk; root = str "/root" }

-- With the cached file on the disk, and a listing of its folder.
abbrev pub served : Store Disk
served = record {
  db = record database { listings = (str "/a", record { json = str "{}"; fetched_at = 1 }) ∷ [] };
  world = record disk { files = (str "/root/c.txt", record { mtime = 7; len = 3 }) ∷ [] };
  root = str "/root";
}

abbrev pub same_nodes : List NodeEntry → List NodeEntry → Bool
same_nodes a b = elim (NodeEntries-discrete a b) as (λ _. Bool) [ yes _ ↦ true | no _ ↦ false ]

abbrev pub places : Places
places = record { db_folder = none; root = str "/root" }

-- Whole numbers in place of `f64`, with literals rounded up.
abbrev pub whole : Floats ℕ
whole = record {
  of_u64 = λ n. n;
  to_u64 = λ x. x;
  add = λ x y. x + y;
  mul = λ x y. x * y;
  div = λ x y. x / y;
  min = λ x y. if leb x y then x else y;
  max = λ x y. if leb x y then y else x;
  is_le = λ x y. leb x y;
  is_gt = λ x y. ltb y x;
  hundredths = λ n. (n + 99) / 100;
}

abbrev pub desktop : Desktop Disk
desktop = record { gettext = λ t. t; notify_send = λ args w. (err [], w); awake = λ w. w.clock }

abbrev pub updates : Updates Disk
updates = record {
  fetch_latest_stable = λ w. (err Update.checksum_mismatch, w);
  writable_binary = λ w. false;
}

abbrev pub never : List NodeEntry → List NodeEntry → Bool
never a b = false
