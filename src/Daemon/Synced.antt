-- ===== src/Daemon/Synced.antt =====
-- What `upload_if_needed` of daemon/src/sync.rs leaves in the record.
use mathlib.Core.Path.{subst}
use kio_protondrive.Base.{
  ◌≡◌, refl, sym, ◌∙◌, arith, ℕ, Text, Option, some, Result, ok, err, Bool, true, false, resume,
  ◌>>=◌,
}
use kio_protondrive.Table.{find}
use kio_protondrive.Table.Laws.{find-update}
use kio_protondrive.Outside.{Outside, DriveError, Metadata, Io, done}
use kio_protondrive.Store.{Store, Op, query, outside, look}
use kio_protondrive.Store.Keeps.{query-db, query-value}
use kio_protondrive.Cache.Pins.{
  mark_synced, needs_upload, lookup_by_local_path, remote_of, differs_from,
}
use kio_protondrive.Cache.Pinned.{mark_synced-pins, needs_upload-value}
use kio_protondrive.Cli.Chain.{ensure_remote_dir_chain}
use kio_protondrive.Cli.Commands.{upload}
use kio_protondrive.Daemon.Sync.{
  upload_if_needed, upload_changed, upload_pinned, upload_with, remote_parent,
}

module _ (o : Outside) where
  -- The record of a remote path, if there is one, has the time and the size that were measured.
  abbrev pub IsSynced : Text → Metadata → Store (o.World) → Type 0
  IsSynced remote m s = differs_from (find remote s.db.pins) m.mtime m.len ≡ false

  mark_synced-IsSynced :
      (remote : Text) (m : Metadata) (s : Store (o.World))
      → (mark_synced o remote m.mtime m.len s).0 ≡ ok tt
      → IsSynced remote m (mark_synced o remote m.mtime m.len s).1
  mark_synced-IsSynced remote m s h = ground (
    arith,
    mark_synced-pins o remote m.mtime m.len s h,
    find-update remote remote
        (λ p. record p {
          local_mtime = m.mtime;
          local_size = m.len;
          last_synced_at = o.now s.world;
        })
        s.db.pins,
  )

  resume-IsSynced :
      {A : Type 0} (remote : Text) (m : Metadata) (f : A → Op o (Unit {0}))
      → ((a : A) (s : Store (o.World)) → (f a s).0 ≡ ok tt → IsSynced remote m (f a s).1)
      → (r : Result A DriveError × Store (o.World)) → (resume r f).0 ≡ ok tt
      → IsSynced remote m (resume r f).1
  resume-IsSynced remote m f k (ok a, s) h = k a s h
  resume-IsSynced remote m f k (err e, s) h = absurd (cc)

  upload_changed-IsSynced :
      (local remote : Text) (m : Metadata) (b : Bool) (s : Store (o.World))
      → b ≡ differs_from (find remote s.db.pins) m.mtime m.len
      → (upload_changed o local remote m b s).0 ≡ ok tt
      → IsSynced remote m (upload_changed o local remote m b s).1
  upload_changed-IsSynced local remote m false s e h = sym e
  upload_changed-IsSynced local remote m true s e h =
      resume-IsSynced remote m
        (λ _. outside o (upload o local (remote_parent remote)) >>= λ _.
          mark_synced o remote m.mtime m.len)
        (λ _ s'.
          resume-IsSynced remote m (λ _. mark_synced o remote m.mtime m.len)
            (λ _ s''. mark_synced-IsSynced remote m s'')
            (outside o (upload o local (remote_parent remote)) s'))
        (outside o (ensure_remote_dir_chain o (remote_parent remote)) s) h

  pub needs_upload-db :
      (remote : Text) (mtime size : ℕ) (s : Store (o.World))
      → (needs_upload o remote mtime size s).1.db ≡ s.db
  unfolding needs_upload
  needs_upload-db remote mtime size s =
      query-db o (λ db. differs_from (find remote db.pins) mtime size) s

  upload_pinned-IsSynced :
      (local remote : Text) (m : Metadata) (s : Store (o.World))
      → (upload_pinned o local m (some remote) s).0 ≡ ok tt
      → IsSynced remote m (upload_pinned o local m (some remote) s).1
  upload_pinned-IsSynced local remote m s =
      go (needs_upload o remote m.mtime m.len s) (needs_upload-db remote m.mtime m.len s)
        (needs_upload-value o remote m.mtime m.len s)
    where
      go :
          (r : Result Bool DriveError × Store (o.World))
          → r.1.db ≡ s.db
          → ((b : Bool) → r.0 ≡ ok b → b ≡ differs_from (find remote s.db.pins) m.mtime m.len)
          → (resume r (upload_changed o local remote m)).0 ≡ ok tt
          → IsSynced remote m (resume r (upload_changed o local remote m)).1
      go (ok b, s') e v h = upload_changed-IsSynced local remote m b s' (rw e (v b refl)) h
      go (err d, s') e v h = absurd (cc)

  looked_up :
      (local remote : Text) (m : Metadata) (r : Result (Option Text) DriveError × Store (o.World))
      → ((a : Option Text) → r.0 ≡ ok a → a ≡ some remote)
      → (resume r (upload_pinned o local m)).0 ≡ ok tt
      → IsSynced remote m (resume r (upload_pinned o local m)).1
  looked_up local remote m (ok a, s) v h = rw (v a refl) (
      upload_pinned-IsSynced local remote m s
        (subst (λ x. (upload_pinned o local m x s).0 ≡ ok tt) (v a refl) h))
  looked_up local remote m (err e, s) v h = absurd (cc)

  by_values :
      (local remote : Text) (m : Metadata) (s : Store (o.World)) (x : Io Metadata) (b : Bool)
      → x ≡ done m
      → b ≡ true
      → remote_of local s.db.pins ≡ some remote
      → (upload_with o local x b s).0 ≡ ok tt
      → IsSynced remote m (upload_with o local x b s).1
  unfolding lookup_by_local_path
  by_values local remote m s x b ex eb found h =
      rw (ex, eb)
        (looked_up local remote m (query o (λ db. remote_of local db.pins) s)
          (λ a e. query-value o (λ db. remote_of local db.pins) s a e ∙ found)
          (subst (λ y. (upload_with o local y true s).0 ≡ ok tt) ex
            (subst (λ c. (upload_with o local x c s).0 ≡ ok tt) eb h)))

  -- Where `upload_if_needed` succeeds on a pinned file, `needs_upload` finds the state in which the file
  -- was at the start in the record: it is not uploaded again.
  pub upload_if_needed-IsSynced :
      (local remote : Text) (m : Metadata) (s : Store (o.World))
      → o.is_file local s.world ≡ true
      → o.metadata local s.world ≡ done m
      → remote_of local s.db.pins ≡ some remote
      → (upload_if_needed o local s).0 ≡ ok tt
      → IsSynced remote m (upload_if_needed o local s).1
  unfolding upload_if_needed look
  upload_if_needed-IsSynced local remote m s file meta found h =
      by_values local remote m s (o.metadata local s.world) (o.is_file local s.world) meta file
        found h
