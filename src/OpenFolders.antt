-- ===== src/OpenFolders.antt =====
-- daemon/src/open_folders.rs: how many views show each folder.
pub mod Signal
pub mod Views
use kio_protondrive.Base.{
  ℕ, ◌+◌, ◌-◌, ◌*◌, ◌%◌, ◌^◌, Text, str, same, leb, ltb, ◌==◌, strip_prefix, starts_with,
  trim_end_matches, Bool, true, false, not, ◌||◌, ◌&&◌, [], ◌∷◌, ◌++◌, List, Option, none, some,
  if◌then◌else◌,
}
use kio_protondrive.Entry.{and_then, unwrap_or}
use kio_protondrive.Table.{Table, find, upsert, delete, update, keys}
use kio_protondrive.Ctrl.{escaped}

-- In seconds.
abbrev pub expiry : ℕ
expiry = 60 * 60

pub data Change : Type 0 where
  entered left : Change

pub record OpenFolder : Type 0 where
  pub views : ℕ
  pub last_seen : ℕ

abbrev pub OpenFolders : Type 0
OpenFolders = Table OpenFolder

abbrev pub views_of : Option OpenFolder → ℕ
views_of none = 0
views_of (some f) = f.views

-- `saturating_sub(1)`, and the folder goes when no view is left.
abbrev pub leave : Text → Option OpenFolder → OpenFolders → OpenFolders
leave path none folders = folders
leave path (some f) folders =
    if f.views - 1 == 0
    then delete path folders
    else upsert path (record f { views = f.views - 1 }) folders

-- The count is a u32, which wraps in a release.
unfoldable pub apply : Change → Text → ℕ → OpenFolders → OpenFolders
apply entered path now folders =
    upsert path (record { views = (views_of (find path folders) + 1) % 2 ^ 32; last_seen = now })
      folders
apply left path now folders = leave path (find path folders) folders

unfoldable pub touch : Text → ℕ → OpenFolders → OpenFolders
touch path now folders = update path (λ f. record f { last_seen = now }) folders

-- `saturating_duration_since(last_seen) < EXPIRY`
unfoldable pub is_alive : ℕ → OpenFolder → Bool
is_alive now f = ltb (now - f.last_seen) expiry

unfoldable pub retain : ℕ → OpenFolders → OpenFolders
unfolding is_alive
retain now [] = []
retain now ((path, f) ∷ rest) =
    let kept = retain now rest in if is_alive now f then (path, f) ∷ kept else kept

unfoldable pub current : ℕ → OpenFolders → List Text × OpenFolders
unfolding retain
current now folders = (keys (retain now folders), retain now folders)
