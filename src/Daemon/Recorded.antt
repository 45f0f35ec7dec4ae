-- ===== src/Daemon/Recorded.antt =====
-- What `upload_if_needed` of daemon/src/sync.rs does to the database.
use kio_protondrive.Base.{
  ◌≡◌, ◌⊎◌, inl, inr, refl, sym, ℕ, Text, Option, none, some, Result, ok, err, Bool, true, false,
  resume,
}
use kio_protondrive.Outside.{Outside, DriveError, Metadata, Io, done, missing, failed}
use kio_protondrive.Store.{Store, Db, Op, query, outside, look}
use kio_protondrive.Store.Keeps.{query-db, query-value, execute-db}
use kio_protondrive.Cache.Pins.{mark_synced, needs_upload, lookup_by_local_path, remote_of}
use kio_protondrive.Cache.Keyed.{synced_at}
use kio_protondrive.Cli.Chain.{ensure_remote_dir_chain}
use kio_protondrive.Cli.Commands.{upload}
use kio_protondrive.Daemon.Sync.{
  upload_if_needed, upload_changed, upload_pinned, upload_with, remote_parent,
}
use kio_protondrive.Daemon.Synced.{needs_upload-db}

-- The database is the same, or has a new time and size for a remote path.
abbrev pub Marked : Text → Metadata → Db → Db → Type 0
Marked remote m db db' = (db' ≡ db) ⊎ ((t : ℕ) × (db' ≡ synced_at remote m.mtime m.len t db))

-- The same for the remote path of a pinned file, and what was measured of it.
abbrev pub Recorded : Text → Io Metadata → Db → Db → Type 0
Recorded local x db db' =
    (db' ≡ db)
    ⊎ ((remote : Text) × (m : Metadata) × (x ≡ done m)
        × (remote_of local db.pins ≡ some remote)
        × Marked remote m db db')

module _ (o : Outside) where
  mark_synced-Marked :
      (remote : Text) (m : Metadata) (s : Store (o.World))
      → Marked remote m s.db (mark_synced o remote m.mtime m.len s).1.db
  unfolding mark_synced look
  mark_synced-Marked remote m s =
      let t = o.now s.world in
      elim (execute-db o (synced_at remote m.mtime m.len t) s) [
        | inl (_, e) ↦ inr (t, e)
        | inr (_, e) ↦ inl e
      ]

  resume-Marked :
      {A : Type 0} (remote : Text) (m : Metadata) (db : Db) (f : A → Op o (Unit {0}))
      (r : Result A DriveError × Store (o.World))
      → r.1.db ≡ db
      → ((a : A) (s : Store (o.World)) → Marked remote m s.db (f a s).1.db)
      → Marked remote m db (resume r f).1.db
  resume-Marked remote m db f (ok a, s) e k = rw (sym e) (k a s)
  resume-Marked remote m db f (err _, s) e k = inl e

  upload_changed-Marked :
      (local remote : Text) (m : Metadata) (b : Bool) (s : Store (o.World))
      → Marked remote m s.db (upload_changed o local remote m b s).1.db
  unfolding outside
  upload_changed-Marked local remote m false s = inl refl
  upload_changed-Marked local remote m true s =
      resume-Marked remote m s.db _ (outside o (ensure_remote_dir_chain o (remote_parent remote)) s)
        refl
        λ _ t.
          resume-Marked remote m t.db _ (outside o (upload o local (remote_parent remote)) t) refl
            λ _ u. mark_synced-Marked remote m u

  upload_pinned-Marked :
      (local remote : Text) (m : Metadata) (s : Store (o.World))
      → Marked remote m s.db (upload_pinned o local m (some remote) s).1.db
  upload_pinned-Marked local remote m s =
      resume-Marked remote m s.db (upload_changed o local remote m)
        (needs_upload o remote m.mtime m.len s) (needs_upload-db o remote m.mtime m.len s)
        (upload_changed-Marked local remote m)

  looked_up-Recorded :
      (local : Text) (m : Metadata) (db : Db)
      (r : Result (Option Text) DriveError × Store (o.World))
      → r.1.db ≡ db
      → ((a : Option Text) → r.0 ≡ ok a → a ≡ remote_of local db.pins)
      → Recorded local (done m) db (resume r (upload_pinned o local m)).1.db
  looked_up-Recorded local m db (ok none, s) e v = inl e
  looked_up-Recorded local m db (ok (some remote), s) e v = inr (
    remote,
    m,
    refl,
    sym (v (some remote) refl),
    rw (sym e) (upload_pinned-Marked local remote m s),
  )
  looked_up-Recorded local m db (err _, s) e v = inl e

  upload_with-Recorded :
      (local : Text) (x : Io Metadata) (b : Bool) (s : Store (o.World))
      → Recorded local x s.db (upload_with o local x b s).1.db
  unfolding lookup_by_local_path
  upload_with-Recorded local (missing _) b s = inl refl
  upload_with-Recorded local (failed _) b s = inl refl
  upload_with-Recorded local (done m) false s = inl refl
  upload_with-Recorded local (done m) true s =
      looked_up-Recorded local m s.db (query o (λ db. remote_of local db.pins) s)
        (query-db o (λ db. remote_of local db.pins) s)
        (query-value o (λ db. remote_of local db.pins) s)

  pub upload_if_needed-Recorded :
      (local : Text) (s : Store (o.World))
      → Recorded local (o.metadata local s.world) s.db (upload_if_needed o local s).1.db
  unfolding upload_if_needed look
  upload_if_needed-Recorded local s =
      upload_with-Recorded local (o.metadata local s.world) (o.is_file local s.world) s
