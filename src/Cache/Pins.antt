-- ===== src/Cache/Pins.antt =====
-- The pins of core/src/cache.rs: files that are kept locally until they are unpinned.
use kio_protondrive.Base.{
  ℕ, Text, str, same, ends_with, starts_with, trim_start_matches, trim_end_matches, Bool, true,
  false, not, ◌&&◌, ◌||◌, [], ◌∷◌, ◌++◌, List, Option, none, some, ok, pure, fail, lift, ◌>>=◌,
  ◌>>◌, ◌==◌, if◌then◌else◌,
}
use kio_protondrive.Table.{Table, find, upsert, delete, update}
use kio_protondrive.Outside.{
  Outside, DriveError, Io, Metadata, done, missing, failed, cli, io, sqlite,
}
use kio_protondrive.Entry.{NodeEntry, is_folder, web_url}
use kio_protondrive.Store.{Pin, Op, query, execute, outside, look, io_result, io_unless_missing}
use kio_protondrive.Cli.Commands.{stat_path, download}
use kio_protondrive.Cache.Paths.{target_dir_for, path_join, file_name}

abbrev pub local_path_of : Option Pin → Option Text
local_path_of none = none
local_path_of (some p) = some p.local_path

-- The i64 columns are compared as bits.
abbrev pub differs_from : Option Pin → ℕ → ℕ → Bool
differs_from none mtime size = false
differs_from (some p) mtime size = not (p.local_mtime == mtime) || not (p.local_size == size)

-- `remote_path` with a slash behind it.
unfoldable pub tree_prefix : Text → Text
tree_prefix path = if ends_with b'/' path then path else path ++ b'/' ∷ []

-- `key = path OR substr(key, 1, length(prefix)) = prefix`
unfoldable pub in_tree : Text → Text → Text → Bool
in_tree path prefix key = same key path || starts_with key prefix

-- The local path of the first row in table order that has it, backwards: `SELECT remote_path … WHERE
-- local_path = ?`.
unfoldable pub remote_of : Text → Table Pin → Option Text
remote_of local [] = none
remote_of local ((k, p) ∷ t) = if same p.local_path local then some k else remote_of local t

-- `UPDATE pins SET remote_path, local_path WHERE remote_path = old`; `none` is a violated primary key.
unfoldable pub replace_row : Text → Text → Text → Table Pin → Table Pin
replace_row old new local [] = []
replace_row old new local ((k, p) ∷ t) =
    if same k old
    then (new, record p { local_path = local }) ∷ t
    else (k, p) ∷ replace_row old new local t

abbrev pub is_some {ℓ} : {A : Type ℓ} → Option A → Bool
is_some none = false
is_some (some _) = true

unfoldable pub rekey : Text → Text → Text → Table Pin → Option (Table Pin)
unfolding replace_row
rekey old new local t =
    if is_some (find old t) && (is_some (find new t) && not (same old new))
    then none
    else some (replace_row old new local t)

-- The rows of a tree, by remote and local path.
unfoldable pub rows_in_tree : (Text → Bool) → Table Pin → List (Text × Text)
rows_in_tree p [] = []
rows_in_tree p ((k, r) ∷ t) =
    let rest = rows_in_tree p t in if p k then (k, r.local_path) ∷ rest else rest

-- What is left of `s` behind the length of `pre`.
unfoldable pub after : Text → Text → Text
after [] s = s
after (_ ∷ pre) [] = []
after (_ ∷ pre) (_ ∷ s) = after pre s

unfoldable pub unsynced : Text → Text → DriveError
unsynced path verb = cli (
    path
    ++ (str " has unsynced local changes — upload them first, or "
        ++ (verb ++ str " again with force to discard them")))

unfoldable pub cannot_pin_root : Text → DriveError
cannot_pin_root path = cli (str "cannot pin a bare root path: " ++ path)

module _ (o : Outside) where
  open o use {World, now, is_file, metadata, remove_file, rename_file}

  unfoldable pub only_files : Option Text → World → Option Text
  only_files none w = none
  only_files (some p) w = if is_file p w then some p else none

  unfoldable pub lookup : Text → Op o (Option Text)
  unfolding query look only_files
  lookup remote_path = do
    local ← query o (λ db. local_path_of (find remote_path db.pins))
    look o (only_files local)

  unfoldable pub lookup_by_local_path : Text → Op o (Option Text)
  unfolding query remote_of
  lookup_by_local_path local_path = query o (λ db. remote_of local_path db.pins)

  unfoldable pub needs_upload : Text → ℕ → ℕ → Op o Bool
  unfolding query
  needs_upload remote_path mtime size =
      query o (λ db. differs_from (find remote_path db.pins) mtime size)

  abbrev pub dirty_by : Text → Io Metadata → Op o Bool
  dirty_by remote_path (missing _) = pure false
  dirty_by remote_path (failed m) = fail (io m)
  dirty_by remote_path (done m) = needs_upload remote_path m.mtime m.len

  unfoldable pub is_dirty : Text → Text → Op o Bool
  unfolding look needs_upload
  is_dirty local_path remote_path = look o (metadata local_path) >>= dirty_by remote_path

  -- Refuses where a local copy has edits that the record does not know.
  unfoldable pub guard_edits : Text → Text → Option Text → Op o (Unit {0})
  unfolding is_dirty
  guard_edits verb remote_path none = pure tt
  guard_edits verb remote_path (some local) = do
    dirty ← is_dirty local remote_path
    if dirty then fail (unsynced remote_path verb) else pure tt

  unfoldable pub guard_pin : Text → Bool → Op o (Unit {0})
  unfolding guard_edits lookup
  guard_pin remote_path true = pure tt
  guard_pin remote_path false = lookup remote_path >>= guard_edits (str "pin") remote_path

  abbrev pub some_or_fail : {A : Type 0} → DriveError → Option A → Op o A
  some_or_fail e none = fail e
  some_or_fail e (some a) = pure a

  -- `INSERT INTO pins … ON CONFLICT(remote_path) DO UPDATE`
  unfoldable pub record_pin : Text → Text → Metadata → ℕ → Op o (Unit {0})
  unfolding execute
  record_pin remote_path local m t = execute o (λ db. record db {
    pins =
        upsert remote_path
          (record {
            local_path = local;
            local_mtime = m.mtime;
            local_size = m.len;
            last_synced_at = t;
          })
          db.pins;
  })

  unfoldable pub refuse_unpinnable : Text → NodeEntry → Op o (Unit {0})
  refuse_unpinnable remote_path entry =
      if is_folder entry
      then fail (cli (remote_path ++ str " is a folder — only individual files can be pinned"))
      else if is_some (web_url entry)
      then fail (
          cli (
            remote_path
            ++ str
                " is a Proton Docs document — it only exists online, open it in a web browser instead"))
      else pure tt

  unfoldable pub pin : Text → Bool → Op o Text
  unfolding outside refuse_unpinnable guard_pin target_dir_for look record_pin
  pin remote_path force = do
    entry ← outside o (stat_path o remote_path)
    refuse_unpinnable remote_path entry
    guard_pin remote_path force
    dir ← target_dir_for o remote_path
    outside o (download o remote_path dir)
    name ←
        some_or_fail (cannot_pin_root remote_path) (file_name (trim_start_matches b'/' remote_path))
    m ← look o (metadata (path_join dir name))
    found ← lift (io_result o m)
    t ← look o now
    record_pin remote_path (path_join dir name) found t
    pure (path_join dir name)

  -- Deletes a local copy; one that is gone already is no error.
  unfoldable pub remove_local : Text → Op o (Unit {0})
  unfolding outside
  remove_local local =
      outside o (λ w. let (r, w') = remove_file local w in (io_unless_missing o r, w'))

  unfoldable pub drop_local : Bool → Text → Option Text → Op o (Unit {0})
  unfolding guard_edits remove_local
  drop_local force remote_path none = pure tt
  drop_local true remote_path (some local) = remove_local local
  drop_local false remote_path (some local) =
      guard_edits (str "unpin") remote_path (some local) >> remove_local local

  unfoldable pub unpin : Text → Bool → Op o (Unit {0})
  unfolding lookup drop_local execute
  unpin remote_path force = do
    local ← lookup remote_path
    drop_local force remote_path local
    execute o (λ db. record db { pins = delete remote_path db.pins })

  -- `for path in pinned { self.unpin(&path, force)?; }`
  unfoldable pub unpin_each : Bool → List (Text × Text) → Op o (Unit {0})
  unfolding unpin
  unpin_each force [] = pure tt
  unpin_each force ((path, _) ∷ rest) = unpin path force >>= λ _. unpin_each force rest

  unfoldable pub unpin_tree : Text → Bool → Op o (Unit {0})
  unfolding query unpin_each tree_prefix in_tree
  unpin_tree remote_path force = do
    pinned ← query o (λ db. rows_in_tree (in_tree remote_path (tree_prefix remote_path)) db.pins)
    unpin_each force pinned

  -- The update, or SQLite's refusal of a second row under one key.
  unfoldable pub rename : Text → Text → Text → Op o (Unit {0})
  unfolding query execute
  rename old new local = do
    t ← query o (λ db. rekey old new local db.pins)
    elim t [
      | none ↦ fail (sqlite (str "UNIQUE constraint failed: pins.remote_path"))
      | some pins ↦ λ s. (ok tt, record s { db = record s.db { pins = pins } })
    ]

  -- After the row was changed: the file follows, or the row is put back.
  unfoldable pub move_local : Text → Text → Text → Text → Op o (Unit {0})
  unfolding rename outside
  move_local remote renamed local renamed_local = do
    r ← outside o (λ w. let (r, w') = rename_file local renamed_local w in (ok r, w'))
    elim r [
      | done _ ↦ pure tt
      | missing _ ↦ pure tt
      | failed m ↦ (rename renamed remote local >>= λ _. fail (io m))
    ]

  unfoldable pub rename_row : Text → Text → Text × Text → Op o (Unit {0})
  unfolding after target_dir_for rename move_local
  rename_row old new (remote, local) = do
    name ←
        some_or_fail (cannot_pin_root (new ++ after old remote))
          (file_name (trim_start_matches b'/' (new ++ after old remote)))
    dir ← target_dir_for o (new ++ after old remote)
    rename remote (new ++ after old remote) (path_join dir name)
    move_local remote (new ++ after old remote) local (path_join dir name)

  unfoldable pub rename_each : Text → Text → List (Text × Text) → Op o (Unit {0})
  unfolding rename_row
  rename_each old new [] = pure tt
  rename_each old new (row ∷ rest) = rename_row old new row >>= λ _. rename_each old new rest

  unfoldable pub rename_tree : Text → Text → Op o (Unit {0})
  unfolding query in_tree rename_each
  rename_tree old_remote_path new_remote_path =
      let old = trim_end_matches b'/' old_remote_path in
      let new = trim_end_matches b'/' new_remote_path in
      do
        pinned ← query o (λ db. rows_in_tree (in_tree old (old ++ b'/' ∷ [])) db.pins)
        rename_each old new pinned

  unfoldable pub mark_synced : Text → ℕ → ℕ → Op o (Unit {0})
  unfolding look execute
  mark_synced remote_path mtime size = do
    t ← look o now
    execute o (λ db. record db {
      pins =
          update remote_path
            (λ p. record p { local_mtime = mtime; local_size = size; last_synced_at = t }) db.pins;
    })
