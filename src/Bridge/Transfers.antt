-- ===== src/Bridge/Transfers.antt =====
-- core/src/bridge.rs: the transfers that the worker starts, polls and cancels. A handle is the one of
-- core/src/transfer.rs with the path that the transfer is for.
use kio_protondrive.Base.{ℕ, Text, ◌∷◌, List, ok, pure, ◌>>=◌}
use kio_protondrive.Outside.{Outside}
use kio_protondrive.Store.{Op, outside}
use kio_protondrive.Cli.Commands.{download_args, upload_args}
use kio_protondrive.Transfer
use kio_protondrive.Transfer.{Direction, upload, download, Processes, TransferPoll, start_program}
use kio_protondrive.Bridge.Entries.{Places}
use kio_protondrive.Bridge.Writes
use kio_protondrive.Bridge.Writes.{FfiTransferPoll}

pub record TransferHandle (F : Type 0) : Type 0 where
  pub inner : Transfer.TransferHandle F
  pub path : Text

-- `program` is `cli::binary()`.
module _ (o : Outside) (at : Places) {F : Type 0} (p : Processes (o.World) F) (program : Text) where
  open o use {World}

  abbrev pub start : Direction → List Text → ℕ → Text → Op o (TransferHandle F)
  start direction args total path =
      outside o (start_program p direction (program ∷ args) total) >>= λ inner.
      pure (record { inner = inner; path = path })

  unfoldable pub start_download : Text → Text → ℕ → Op o (TransferHandle F)
  unfolding download_args
  start_download remote_path local_folder total =
      start download (download_args remote_path local_folder) total remote_path

  unfoldable pub start_upload : Text → Text → ℕ → Op o (TransferHandle F)
  unfolding upload_args
  start_upload local_path parent_path total =
      start upload (upload_args local_path parent_path) total parent_path

  abbrev pub answered :
      TransferHandle F
      → Transfer.TransferHandle F
      → TransferPoll
      → Op o (FfiTransferPoll × TransferHandle F)
  answered h inner r = Writes.poll_transfer o at h.inner.direction h.path r >>= λ a.
      pure (a, record h { inner = inner })

  unfoldable pub poll_transfer : TransferHandle F → Op o (FfiTransferPoll × TransferHandle F)
  poll_transfer h s =
      let (r, inner, w) = Transfer.poll p h.inner s.world in
      answered h inner r (record s { world = w })

  unfoldable pub cancel_transfer : TransferHandle F → Op o (TransferHandle F)
  cancel_transfer h s =
      let (inner, w) = Transfer.cancel p h.inner s.world in
      (ok (record h { inner = inner }), record s { world = w })
