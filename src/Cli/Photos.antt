-- ===== src/Cli/Photos.antt =====
-- core/src/cli.rs: the commands on photos.
use kio_protondrive.Base.{Text, str, [], ◌∷◌, ◌++◌, List, Action, pure, lift, ◌>>=◌, ◌>>◌}
use kio_protondrive.Entry.{NodeEntry, TransferSummary}
use kio_protondrive.Outside.{Outside, DriveError}
use kio_protondrive.Cli.Answer.{ensure_success, ensure_no_failures, parsed}
use kio_protondrive.Cli.Runner.{run, transfer_timeout}

unfoldable pub photo_path : Text → Text
photo_path uid = str "/photos/" ++ uid

unfoldable pub photo_download_args : Text → Text → List Text
unfolding photo_path
photo_download_args node_uid local_folder =
    str "photo"
    ∷ str "download"
    ∷ str "-j"
    ∷ str "-c"
    ∷ str "remove"
    ∷ photo_path node_uid
    ∷ local_folder
    ∷ []

module _ (o : Outside) where
  open o use {World, read_summary, nodes_json}

  unfoldable pub photo_timeline : Action World (List NodeEntry) DriveError
  photo_timeline = do
    out ← run o (str "photo" ∷ str "timeline" ∷ str "-j" ∷ str "-d" ∷ []) transfer_timeout
    lift (ensure_success (str "/photos") out)
    lift (parsed (nodes_json.read out.stdout))

  unfoldable pub photo_download : Text → Text → Action World TransferSummary DriveError
  unfolding photo_path photo_download_args
  photo_download node_uid local_folder = do
    out ← run o (photo_download_args node_uid local_folder) transfer_timeout
    lift (ensure_success (photo_path node_uid) out)
    summary ← lift (parsed (read_summary out.stdout))
    lift (ensure_no_failures (str "download of " ++ photo_path node_uid) summary)
    pure summary
