-- ===== src/Cli/Commands.antt =====
-- The commands of core/src/cli.rs on paths: listing, stat, folders, transfers, trash, rename, move.
use kio_protondrive.Base.{
  and_then, ℕ, Text, str, same, contains, to_lowercase, trim_end_matches, Bool, not, ◌&&◌, List, [],
  ◌∷◌, ◌++◌, ◌==◌, none, some, Result, ok, err, Action, pure, lift, ◌>>=◌, ◌>>◌, if◌then◌else◌,
}
use kio_protondrive.Outside.{Outside, DriveError, CommandOutput, already_exists, unsupported, cli}
use kio_protondrive.Entry.{NodeEntry, ListItem, TransferSummary, CopyOutcome}
use kio_protondrive.Cli.Answer.{ensure_success, ensure_no_failures, ensure_all_ok, parsed}
use kio_protondrive.Cli.Runner.{run, metadata_timeout, transfer_timeout}

-- `filesystem` with a subcommand and `-j`.
unfoldable pub filesystem : Text → List Text → List Text
filesystem verb rest = str "filesystem" ∷ verb ∷ str "-j" ∷ rest

unfoldable pub download_args : Text → Text → List Text
unfolding filesystem
download_args remote_path local_folder =
    filesystem (str "download") (str "-f" ∷ str "remove" ∷ remote_path ∷ local_folder ∷ [])

-- `str::replace` of one byte.
unfoldable pub replace : ℕ → Text → Text → Text
replace k by [] = []
replace k by (c ∷ s) = let rest = replace k by s in if c == k then by ++ rest else c ∷ rest

unfoldable pub escape_glob_metacharacters : Text → Text
unfolding replace
escape_glob_metacharacters path = replace b'}' (92 ∷ b'}' ∷ []) (
    replace b'{' (92 ∷ b'{' ∷ [])
      (replace b']' (92 ∷ b']' ∷ []) (replace b'[' (92 ∷ b'[' ∷ []) path)))

unfoldable pub upload_args : Text → Text → List Text
unfolding filesystem
upload_args local_path parent_path =
    filesystem (str "upload")
      (str "-f" ∷ str "replace" ∷ escape_glob_metacharacters local_path ∷ parent_path ∷ [])

-- The error of the first failed copy.
unfoldable pub ensure_copied : Text → Text → List CopyOutcome → Result (Unit {0}) DriveError
ensure_copied source target [] = ok tt
ensure_copied source target (c ∷ cs) =
    let rest = ensure_copied source target cs in
    if c.ok then rest else elim c.error [
      | none ↦ err (cli (str "failed to copy " ++ source))
      | some name ↦
          if same name (str "NodeWithSameNameExistsValidationError")
          then err (already_exists target)
          else err (cli (str "failed to copy " ++ (source ++ (str ": " ++ name))))
    ]

module _ (o : Outside) where
  open o use {World, node_json, read_items, read_summary, read_trash, read_copy}

  -- Runs a metadata command and refuses an unsuccessful answer.
  unfoldable pub ask : Text → List Text → Action World CommandOutput DriveError
  ask path args = do out ← run o args metadata_timeout; lift (ensure_success path out); pure out

  unfoldable pub list_dir : Text → Action World (List ListItem) DriveError
  unfolding ask filesystem
  list_dir path = do
    out ← ask path (filesystem (str "list") (path ∷ []))
    lift (parsed (read_items out.stdout))

  unfoldable pub stat_path : Text → Action World NodeEntry DriveError
  unfolding ask filesystem
  stat_path path = do
    out ← ask path (filesystem (str "info") (path ∷ []))
    lift (parsed (node_json.read out.stdout))

  unfoldable pub create_folder : Text → Text → Action World NodeEntry DriveError
  unfolding ask filesystem
  create_folder parent_path name = do
    out ← ask parent_path (filesystem (str "create-folder") (str "--" ∷ parent_path ∷ name ∷ []))
    lift (parsed (node_json.read out.stdout))

  -- The end of a transfer: `finish_download` and `finish_upload` differ in the words of the error.
  unfoldable pub finish_transfer : Text → Text → CommandOutput → Result TransferSummary DriveError
  finish_transfer words path out = and_then (ensure_success path out) λ _.
      and_then (parsed (read_summary out.stdout))
        λ summary. and_then (ensure_no_failures (words ++ path) summary) λ _. ok summary

  unfoldable pub finish_download : Text → CommandOutput → Result TransferSummary DriveError
  unfolding finish_transfer
  finish_download = finish_transfer (str "download of ")

  unfoldable pub finish_upload : Text → CommandOutput → Result TransferSummary DriveError
  unfolding finish_transfer
  finish_upload = finish_transfer (str "upload to ")

  unfoldable pub download : Text → Text → Action World TransferSummary DriveError
  unfolding finish_download download_args
  download remote_path local_folder = do
    out ← run o (download_args remote_path local_folder) transfer_timeout
    lift (finish_download remote_path out)

  unfoldable pub upload : Text → Text → Action World TransferSummary DriveError
  unfolding finish_upload upload_args
  upload local_path parent_path = do
    out ← run o (upload_args local_path parent_path) transfer_timeout
    lift (finish_upload parent_path out)

  -- A command that answers with one outcome for each item.
  unfoldable pub ask_each : Text → Text → List Text → Action World (Unit {0}) DriveError
  unfolding ask
  ask_each verb path args = do
    out ← ask path args
    outcomes ← lift (parsed (read_trash out.stdout))
    lift (ensure_all_ok verb outcomes)

  unfoldable pub trash_path : Text → Action World (Unit {0}) DriveError
  unfolding ask_each filesystem
  trash_path path = ask_each (str "trash") path (filesystem (str "trash") (path ∷ []))

  unfoldable pub restore_path : Text → Action World (Unit {0}) DriveError
  unfolding ask_each filesystem
  restore_path path = ask_each (str "restore") path (filesystem (str "restore") (path ∷ []))

  unfoldable pub permanently_delete_path : Text → Action World (Unit {0}) DriveError
  unfolding ask_each filesystem
  permanently_delete_path path =
      ask_each (str "permanently delete") path (filesystem (str "delete") (path ∷ []))

  unfoldable pub empty_trash : Action World (Unit {0}) DriveError
  unfolding ask filesystem
  empty_trash = do ask (str "/trash") (filesystem (str "empty-trash") []); pure tt

  unfoldable pub rename_path : Text → Text → Action World NodeEntry DriveError
  unfolding ask filesystem
  rename_path path new_name = do
    out ← ask path (filesystem (str "rename") (str "--" ∷ path ∷ new_name ∷ []))
    lift (parsed (node_json.read out.stdout))

  unfoldable pub move_path : Text → Text → Action World (Unit {0}) DriveError
  unfolding ask_each filesystem
  move_path source_path target_parent_path =
      ask_each (str "move") source_path
        (filesystem (str "move") (source_path ∷ target_parent_path ∷ []))

  -- `!out.success && stderr mentions "is not supported"`
  unfoldable pub refuses_copy : CommandOutput → Bool
  refuses_copy out = not out.success && contains (to_lowercase out.stderr) (str "is not supported")

  unfoldable pub copy_args : Text → Text → Text → List Text
  unfolding filesystem
  copy_args source_path target_parent_path new_name =
      filesystem (str "copy")
        ((str "--name=" ++ new_name) ∷ str "--" ∷ source_path ∷ target_parent_path ∷ [])

  unfoldable pub copy_path : Text → Text → Text → Action World (Unit {0}) DriveError
  unfolding refuses_copy copy_args
  copy_path source_path target_parent_path new_name = do
    out ← run o (copy_args source_path target_parent_path new_name) metadata_timeout
    lift (
        if refuses_copy out
        then err (unsupported source_path)
        else and_then (ensure_success source_path out) λ _.
          and_then (parsed (read_copy out.stdout)) (
            ensure_copied source_path
              (trim_end_matches b'/' target_parent_path ++ (str "/" ++ new_name))))
