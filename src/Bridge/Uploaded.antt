-- ===== src/Bridge/Uploaded.antt =====
-- The index behind a poll of core/src/bridge.rs that reports a finished upload.
use kio_protondrive.Base.{
  ◌≡◌, refl, arith, Text, none, Result, ok, err, true, resume, attempt, ◌>>=◌, pure,
}
use kio_protondrive.Table.{find}
use kio_protondrive.Table.Laws.{find-delete}
use kio_protondrive.Entry.{TransferSummary}
use kio_protondrive.Outside.{Outside, DriveError}
use kio_protondrive.Store.{Store, Op, execute}
use kio_protondrive.Cache.Nodes.{invalidate_listing}
use kio_protondrive.Transfer
use kio_protondrive.Transfer.{
  Direction, upload, download, Processes, TransferPoll, pending, finished,
}
use kio_protondrive.Bridge.Entries.{Places, open_cache, with_cache, if_open}
use kio_protondrive.Bridge.Trashed.{IsWorking, open_cache-ok}
use kio_protondrive.Bridge.Writes
use kio_protondrive.Bridge.Writes.{FfiTransferPoll, finish, summarised, forget_listing}
use kio_protondrive.Bridge.Transfers.{TransferHandle, poll_transfer}

module _ (o : Outside) (at : Places) where
  -- The listing of a folder is not in the index.
  abbrev pub HasNoListing : Text → Store (o.World) → Type 0
  HasNoListing path s = find path s.db.listings ≡ none

  invalidate_listing-HasNoListing :
      IsWorking o at
      → (path : Text) (s : Store (o.World)) → HasNoListing path (invalidate_listing o path s).1
  unfolding invalidate_listing execute
  invalidate_listing-HasNoListing k path s =
      ground (arith, k.0 s.world, find-delete path path s.db.listings)

  opened-HasNoListing :
      (path : Text) (r : Result (Unit {0}) DriveError × Store (o.World))
      → IsWorking o at
      → ((a : Unit {0}) × (r.0 ≡ ok a))
      → HasNoListing path
          (resume
            (attempt (λ _. r) r.1)
            (if_open o at (attempt (invalidate_listing o path) >>= λ _. pure tt))).1
  opened-HasNoListing path (ok _, s) k e = invalidate_listing-HasNoListing k path s
  opened-HasNoListing path (err m, s) k (a, e) = absurd (cc)

  forget_listing-HasNoListing :
      (path : Text) (s : Store (o.World))
      → IsWorking o at
      → HasNoListing path (forget_listing o at upload path s).1
  unfolding with_cache
  forget_listing-HasNoListing path s k =
      opened-HasNoListing path (open_cache o at s) k ((open_cache-ok o at k).holds s)

  -- An answer of success leaves no listing of the folder.
  abbrev Answered : Text → Result FfiTransferPoll DriveError × Store (o.World) → Type 0
  Answered path r = (a : FfiTransferPoll) → r.0 ≡ ok a → a.ok ≡ true → HasNoListing path r.1

  resumed-Answered :
      (path : Text) (b : FfiTransferPoll) (r : Result (Unit {0}) DriveError × Store (o.World))
      → HasNoListing path r.1
      → Answered path (resume r (λ _. pure b))
  resumed-Answered path b (ok _, s) k a e u = k
  resumed-Answered path b (err m, s) k a e u = k

  summarised-Answered :
      (path : Text) (r : Result TransferSummary DriveError) (s : Store (o.World))
      → IsWorking o at
      → Answered path (summarised o at upload path r s)
  summarised-Answered path (ok summary) s k a e u =
      resumed-Answered path _ (forget_listing o at upload path s)
        (forget_listing-HasNoListing path s k) a e u
  summarised-Answered path (err m) s k a e u = absurd (cc)

  poll_transfer-Answered :
      (path : Text) (r : TransferPoll) (s : Store (o.World))
      → IsWorking o at
      → Answered path (Writes.poll_transfer o at upload path r s)
  unfolding Writes.poll_transfer
  poll_transfer-Answered path (pending n) s k a e u = absurd (cc)
  poll_transfer-Answered path (finished (err m)) s k a e u = absurd (cc)
  poll_transfer-Answered path (finished (ok out)) s k a e u =
      summarised-Answered path (finish o at upload path out) s k a e u

  directed-Answered :
      (direction : Direction) (path : Text) (r : TransferPoll) (s : Store (o.World))
      → IsWorking o at
      → direction ≡ upload
      → Answered path (Writes.poll_transfer o at direction path r s)
  directed-Answered direction path r s k d = rw d (poll_transfer-Answered path r s k)

  module _ {F : Type 0} (p : Processes (o.World) F) (program : Text) where
    abbrev polled :
        TransferHandle F
        → Transfer.TransferHandle F
        → FfiTransferPoll
        → Op o (FfiTransferPoll × TransferHandle F)
    polled h inner b = pure (b, record h { inner = inner })

    handled :
        (h : TransferHandle F) (inner : Transfer.TransferHandle F)
        (r : Result FfiTransferPoll DriveError × Store (o.World)) (a : FfiTransferPoll)
        (next : TransferHandle F)
        → Answered h.path r
        → (resume r (polled h inner)).0 ≡ ok (a, next)
        → a.ok ≡ true
        → HasNoListing h.path (resume r (polled h inner)).1
    handled h inner (ok b, s) a next k e u = k b refl (cc)
    handled h inner (err m, s) a next k e u = absurd (cc)

    -- Where the index can be opened and SQLite runs its statements: behind a poll that answers that an
    -- upload is done with success, the index has no listing of the folder that it was for.
    pub poll_transfer-HasNoListing :
        (h next : TransferHandle F) (a : FfiTransferPoll) (s : Store (o.World))
        → IsWorking o at
        → h.inner.direction ≡ upload
        → (poll_transfer o at p program h s).0 ≡ ok (a, next)
        → a.ok ≡ true
        → HasNoListing h.path (poll_transfer o at p program h s).1
    unfolding poll_transfer
    poll_transfer-HasNoListing h next a s k d e u =
        let (r, inner, w) = Transfer.poll p h.inner s.world in
        handled h inner
          (Writes.poll_transfer o at h.inner.direction h.path r (record s { world = w })) a next
          (directed-Answered h.inner.direction h.path r (record s { world = w }) k d) e u
