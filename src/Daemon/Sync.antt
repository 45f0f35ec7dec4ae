-- ===== src/Daemon/Sync.antt =====
-- daemon/src/sync.rs: local edits and renames of pinned files, passed on to Drive.
use kio_protondrive.Base.{
  ℕ, zero, suc, Text, str, same, rsplit_once, strip_prefix, Bool, true, false, [], ◌∷◌, ◌++◌, List,
  Option, none, some, Result, ok, err, pure, fail, attempt, ◌>>=◌, ◌>>◌, if◌then◌else◌,
}
use kio_protondrive.Outside.{
  Outside, DriveError, Io, Metadata, done, missing, failed, io, not_authenticated, Entry, entry,
  unreadable, directory, regular, special,
}
use kio_protondrive.Entry.{unwrap_or}
use kio_protondrive.Store.{Op, outside, look, root_of}
use kio_protondrive.Cli.Commands.{rename_path, move_path, upload}
use kio_protondrive.Cli.Chain.{ensure_remote_dir_chain}
use kio_protondrive.Cache.Pins.{lookup_by_local_path, rename, needs_upload, mark_synced}
use kio_protondrive.Cache.Paths.{file_name}
use kio_protondrive.Cli.Moves.{root_if_empty}

-- `local_path` below `root`, with a slash in front: its place on Drive.
unfoldable pub remote_path_for_local : Text → Text → Option Text
remote_path_for_local root local_path = elim (strip_prefix local_path (root ++ b'/' ∷ [])) [
  | none ↦ if same local_path root then some (str "/") else none
  | some rel ↦ some (b'/' ∷ rel)
]

unfoldable pub remote_parent : Text → Text
remote_parent remote_path = elim (rsplit_once b'/' remote_path) [
  | none ↦ str "/"
  | some (parent, _) ↦ root_if_empty parent
]

-- More than the bytes of a path that Linux opens, and so than the folders that stand in it: the fuel of
-- the walk.
abbrev pub path_max : ℕ
path_max = 4096

unfoldable pub name_of : Text → Text
name_of path = unwrap_or (file_name path) []

module _ (o : Outside) where
  open o use {World, metadata, is_file, read_dir}

  -- The commands that carry a rename to Drive.
  unfoldable pub rename_remotely : Text → Text → Text → Text → Op o (Unit {0})
  unfolding outside remote_parent name_of
  rename_remotely old_remote new_remote from to =
      let old_parent = remote_parent old_remote in
      let new_parent = remote_parent new_remote in
      outside o (do
        ensure_remote_dir_chain o new_parent
        if same old_parent new_parent
            then (do rename_path o old_remote (name_of to); pure tt)
            else do
              move_path o old_remote new_parent
              if same (name_of from) (name_of to)
                  then pure tt
                  else do rename_path o (new_parent ++ b'/' ∷ name_of from) (name_of to); pure tt)

  abbrev pub rekey_after : Text → Text → Text → Result (Unit {0}) DriveError → Op o (Unit {0})
  rekey_after old_remote new_remote to (ok _) = rename o old_remote new_remote to
  rekey_after old_remote new_remote to (err _) = rename o old_remote old_remote to

  abbrev pub rename_pinned : Text → Text → Option Text → Option Text → Op o (Unit {0})
  rename_pinned from to none _ = pure tt
  rename_pinned from to (some _) none = pure tt
  rename_pinned from to (some old_remote) (some new_remote) =
      attempt (rename_remotely old_remote new_remote from to)
      >>= rekey_after old_remote new_remote to

  unfoldable pub handle_rename : Text → Text → Op o (Unit {0})
  unfolding root_of rename_remotely remote_path_for_local
  handle_rename from to = do
    old_remote ← lookup_by_local_path o from
    root ← root_of o
    rename_pinned from to old_remote (remote_path_for_local root to)

  abbrev pub upload_changed : Text → Text → Metadata → Bool → Op o (Unit {0})
  upload_changed local remote m false = pure tt
  upload_changed local remote m true =
      outside o (ensure_remote_dir_chain o (remote_parent remote)) >>= λ _.
      outside o (upload o local (remote_parent remote)) >>= λ _. mark_synced o remote m.mtime m.len

  abbrev pub upload_pinned : Text → Metadata → Option Text → Op o (Unit {0})
  upload_pinned local m none = pure tt
  upload_pinned local m (some remote) =
      needs_upload o remote m.mtime m.len >>= upload_changed local remote m

  abbrev pub upload_with : Text → Io Metadata → Bool → Op o (Unit {0})
  upload_with local (missing _) _ = pure tt
  upload_with local (failed m) _ = fail (io m)
  upload_with local (done m) false = pure tt
  upload_with local (done m) true = lookup_by_local_path o local >>= upload_pinned local m

  unfoldable pub upload_if_needed : Text → Op o (Unit {0})
  unfolding look outside remote_parent
  upload_if_needed local = do
    m ← look o (metadata local)
    file ← look o (is_file local)
    upload_with local m file

  unfoldable pub is_authentication_error : DriveError → Bool
  is_authentication_error not_authenticated = true
  is_authentication_error _ = false

  abbrev pub go_on : Result (Unit {0}) DriveError → Op o (Unit {0})
  go_on (ok _) = pure tt
  go_on (err e) = if is_authentication_error e then fail e else pure tt

  abbrev pub on_entry : (Text → Op o (Unit {0})) → Entry → Op o (Unit {0})
  on_entry walk (unreadable m) = fail (io m)
  on_entry walk (entry path directory) = walk path
  on_entry walk (entry path regular) = attempt (upload_if_needed path) >>= go_on
  on_entry walk (entry path special) = pure tt

  -- `for entry in entries`
  unfoldable pub on_entries : (Text → Op o (Unit {0})) → List Entry → Op o (Unit {0})
  unfolding upload_if_needed is_authentication_error
  on_entries walk [] = pure tt
  on_entries walk (e ∷ es) = on_entry walk e >>= λ _. on_entries walk es

  abbrev pub on_folder : (Text → Op o (Unit {0})) → Io (List Entry) → Op o (Unit {0})
  on_folder walk (missing _) = pure tt
  on_folder walk (failed m) = fail (io m)
  on_folder walk (done es) = on_entries walk es

  -- The folders that are walked into, one in another, are as many as the fuel at most.
  unfoldable pub walk_and_upload : ℕ → Text → Op o (Unit {0})
  unfolding look on_entries
  walk_and_upload zero dir = pure tt
  walk_and_upload (suc depth) dir = look o (read_dir dir) >>= on_folder (walk_and_upload depth)

  unfoldable pub reconcile : Op o (Unit {0})
  unfolding root_of walk_and_upload
  reconcile = root_of o >>= walk_and_upload (suc path_max)
