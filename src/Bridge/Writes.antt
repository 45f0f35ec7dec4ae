-- ===== src/Bridge/Writes.antt =====
-- core/src/bridge.rs: the calls that change Drive, and what they take out of the caches.
use kio_protondrive.Base.{
  ℕ, Text, str, rsplit_once, Bool, true, false, Option, none, some, Result, ok, err, pure, fail,
  attempt, ◌>>=◌, ◌>>◌,
}
use kio_protondrive.Entry.{TransferSummary}
use kio_protondrive.Outside.{Outside, DriveError, CommandOutput, not_found}
use kio_protondrive.Store.{Op, outside}
use kio_protondrive.Cli.Commands
use kio_protondrive.Cli.Moves
use kio_protondrive.Cli.Moves.{join, root_if_empty}
use kio_protondrive.Cache.Pins
use kio_protondrive.Cache.Nodes.{invalidate_tree, invalidate_listing, invalidate_stat, store_stat}
use kio_protondrive.Transfer.{Direction, upload, download, TransferPoll, pending, finished}
use kio_protondrive.Bridge.Entries.{FfiEntry, node_to_ffi, Places, open_cache, with_cache}

pub record FfiTransferPoll : Type 0 where
  pub done : Bool
  pub ok : Bool
  pub error : Option DriveError
  pub processed_bytes : ℕ

-- The folder that holds a path, with `/` for the empty one.
unfoldable pub holder : Text → Option Text
holder path = elim (rsplit_once b'/' path) [
  | none ↦ none
  | some (parent, _) ↦ some (root_if_empty parent)
]

-- The destination of a copy, as folder and name.
unfoldable pub destination : Text → Result (Text × Text) DriveError
destination path = elim (rsplit_once b'/' path) [
  | none ↦ err (not_found path)
  | some (parent, name) ↦ ok (root_if_empty parent, name)
]

module _ (o : Outside) (at : Places) where
  open o use {World}

  unfoldable pub make_dir : Text → Text → Op o FfiEntry
  unfolding outside with_cache
  make_dir parent_path name = do
    node ← outside o (Commands.create_folder o parent_path name)
    with_cache o at (do
      attempt (invalidate_listing o parent_path)
      attempt (store_stat o (join parent_path name) node)
      pure tt)
    pure (node_to_ffi node)

  abbrev pub invalidate_holder : Option Text → Op o (Unit {0})
  invalidate_holder none = pure tt
  invalidate_holder (some parent) = attempt (invalidate_listing o parent) >>= λ _. pure tt

  unfoldable pub trash : Text → Op o (Unit {0})
  unfolding outside with_cache holder
  trash path = do
    outside o (Commands.trash_path o path)
    with_cache o at (do attempt (invalidate_tree o path); invalidate_holder (holder path))

  abbrev pub forget_trashed : Text → Op o (Unit {0})
  forget_trashed remote_path = attempt (invalidate_tree o remote_path) >>= λ _.
      attempt (invalidate_listing o (str "/trash")) >>= λ _. pure tt

  unfoldable pub restore_path : Text → Op o (Unit {0})
  unfolding outside with_cache
  restore_path remote_path = do
    outside o (Commands.restore_path o remote_path)
    with_cache o at (forget_trashed remote_path)

  unfoldable pub permanently_delete_path : Text → Op o (Unit {0})
  unfolding outside with_cache
  permanently_delete_path remote_path = do
    outside o (Commands.permanently_delete_path o remote_path)
    with_cache o at (forget_trashed remote_path)

  unfoldable pub empty_trash : Op o (Unit {0})
  unfolding outside with_cache
  empty_trash = do
    outside o (Commands.empty_trash o)
    with_cache o at (do attempt (invalidate_listing o (str "/trash")); pure tt)

  -- The caches after a rename or move on Drive; every step is made whatever the others gave.
  unfoldable pub follow_move : Text → Text → Op o (Unit {0})
  unfolding holder
  follow_move old_path new_path = do
    attempt (invalidate_tree o old_path)
    attempt (invalidate_tree o new_path)
    attempt (Pins.rename_tree o old_path new_path)
    invalidate_holder (holder old_path)
    invalidate_holder (holder new_path)

  unfoldable pub rename_or_move : Text → Text → Op o (Unit {0})
  unfolding outside with_cache follow_move
  rename_or_move old_path new_path = do
    outside o (Moves.rename_or_move o old_path new_path)
    with_cache o at (follow_move old_path new_path)

  abbrev pub copy_to : Text → Text → Result (Text × Text) DriveError → Op o (Unit {0})
  copy_to source dest (err e) = fail e
  copy_to source dest (ok (parent, name)) =
      outside o (Commands.copy_path o source parent name) >>= λ _. with_cache o at (
        attempt (invalidate_stat o dest) >>= λ _.
        attempt (invalidate_listing o parent) >>= λ _. pure tt)

  unfoldable pub copy_path : Text → Text → Op o (Unit {0})
  unfolding outside with_cache destination
  copy_path source_path dest_path = copy_to source_path dest_path (destination dest_path)

  unfoldable pub unpin_tree : Text → Bool → Op o (Unit {0})
  unpin_tree remote_path force = do open_cache o at; Pins.unpin_tree o remote_path force

  abbrev pub finish : Direction → Text → CommandOutput → Result TransferSummary DriveError
  finish download path out = Commands.finish_download o path out
  finish upload path out = Commands.finish_upload o path out

  abbrev pub forget_listing : Direction → Text → Op o (Unit {0})
  forget_listing download path = pure tt
  forget_listing upload path =
      with_cache o at (attempt (invalidate_listing o path) >>= λ _. pure tt)

  abbrev pub failed_poll : DriveError → FfiTransferPoll
  failed_poll e = record { done = true; ok = false; error = some e; processed_bytes = 0 }

  abbrev pub summarised :
      Direction → Text → Result TransferSummary DriveError → Op o FfiTransferPoll
  summarised direction path (err e) = pure (failed_poll e)
  summarised direction path (ok summary) = forget_listing direction path >>= λ _.
      pure (record {
        done = true;
        ok = true;
        error = none;
        processed_bytes = summary.transferred_bytes;
      })

  -- `poll_transfer`, of what the handle's `poll` gave.
  unfoldable pub poll_transfer : Direction → Text → TransferPoll → Op o FfiTransferPoll
  unfolding with_cache
  poll_transfer direction path (pending estimated) =
      pure (record { done = false; ok = false; error = none; processed_bytes = estimated })
  poll_transfer direction path (finished (err e)) = pure (failed_poll e)
  poll_transfer direction path (finished (ok out)) =
      summarised direction path (finish direction path out)
