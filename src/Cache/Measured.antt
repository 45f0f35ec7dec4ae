-- ===== src/Cache/Measured.antt =====
-- What `pin` of core/src/cache.rs records of the local copy: the time and the size that it has.
use kio_protondrive.Base.{
  Bool, ◌≡◌, ◌≢◌, ◌⊎◌, inl, inr, refl, sym, ap, ◌∙◌, arith, ℕ, Text, trim_start_matches, some,
  Result, ok, err, resume, ◌>>=◌, pure, lift,
}
use kio_protondrive.Table.{find}
use kio_protondrive.Table.Laws.{find-upsert}
use kio_protondrive.Outside.{Outside, DriveError, Metadata, Io, done, missing, failed}
use kio_protondrive.Store.{Store, Db, Pin, Op, execute, look, outside, io_result}
use kio_protondrive.Store.Keeps.{execute-db}
use kio_protondrive.Cache.Pins.{
  pin, record_pin, refuse_unpinnable, guard_pin, some_or_fail, cannot_pin_root,
}
use kio_protondrive.Cli.Commands.{stat_path, download}
use kio_protondrive.Cache.Paths.{file_name, path_join, target_dir_for}
use kio_protondrive.Cache.Pinned.{with_pin}
use kio_protondrive.Cache.Unpin.{KeepsFiles}

-- What an action that succeeds says of its result and the state behind it.
record Yields (o : Outside) {A : Type 0} (Q : A → Store (o.World) → Type 0) (m : Op o A)
    : Type 0 where
  holds : (s : Store (o.World)) (a : A) → (m s).0 ≡ ok a → Q a (m s).1

module _ {o : Outside} {A B : Type 0} {Q : B → Store (o.World) → Type 0} where
  resume-Yields :
      (f : A → Op o B) (r : Result A DriveError × Store (o.World)) (b : B)
      → ((a : A) → Yields o Q (f a))
      → (resume r f).0 ≡ ok b
      → Q b (resume r f).1
  resume-Yields f (ok a, s) b k h = (k a).holds s b h
  resume-Yields f (err m, s) b k h = absurd (cc)

  Yields-bind : (m : Op o A) {f : A → Op o B} → ((a : A) → Yields o Q (f a)) → Yields o Q (m >>= f)
  Yields-bind m {f = f} k = record { holds = λ s b h. resume-Yields f (m s) b k h }

same_result : (r : Result Text DriveError) (l a : Text) → r ≡ ok l → r ≡ ok a → l ≡ a
same_result r l a h k = cc

module _ (o : Outside) (path : Text) where
  execute-world :
      (f : Db → Db) (s : Store (o.World)) → (execute o f s).1.world ≡ (o.db_error s.world).1
  unfolding execute
  execute-world f s = ground arith

  -- The row of the path has the time and the size that the file has.
  abbrev IsMeasuredAt : Text → Store (o.World) → Type 0
  IsMeasuredAt local s =
      (p : Pin) × (find path s.db.pins ≡ some p)
      × (o.metadata local s.world ≡ done (record { mtime = p.local_mtime; len = p.local_size }))

  stored :
      (local a : Text) (m : Metadata) (t : ℕ) (before : Db)
      → (r : Result (Unit {0}) DriveError × Store (o.World))
      → ((r.0 ≡ ok tt) × (r.1.db ≡ with_pin path local m t before))
        ⊎ ((r.0 ≢ ok tt) × (r.1.db ≡ before))
      → o.metadata local r.1.world ≡ done m
      → (resume r (λ _. pure local)).0 ≡ ok a
      → IsMeasuredAt a (resume r (λ _. pure local)).1
  stored local a m t before (ok _, s) (inl (_, e)) seen h = (
    (record { local_path = local; local_mtime = m.mtime; local_size = m.len; last_synced_at = t }),
    rw e (
        ground (
          arith,
          find-upsert path path
              (record {
                local_path = local;
                local_mtime = m.mtime;
                local_size = m.len;
                last_synced_at = t;
              })
              before.pins,
        )),
    ap (λ l. o.metadata l s.world) (sym (same_result (ok local) local a refl h)) ∙ seen,
  )
  stored local a m t before (ok _, s) (inr (n, e)) seen h = absurd (n refl)
  stored local a m t before (err _, s) c seen h = absurd (cc)

  -- The steps of `pin` behind the download.
  abbrev measured : Text → Io Metadata → Op o Text
  measured local m = lift (io_result o m) >>= λ found.
      look o (o.now) >>= λ t. record_pin o path local found t >>= λ _. pure local

  measured-IsMeasuredAt :
      KeepsFiles o
      → (local a : Text) (x : Io Metadata) (s : Store (o.World)) → o.metadata local s.world ≡ x
      → (measured local x s).0 ≡ ok a
      → IsMeasuredAt a (measured local x s).1
  unfolding look record_pin
  measured-IsMeasuredAt k local a (done m) s e h =
      let f = with_pin path local m (o.now s.world) in
      stored local a m (o.now s.world) s.db (execute o f s) (execute-db o f s)
        (ap (λ w. o.metadata local w) (execute-world f s) ∙ (k s.world local).1 ∙ e) h
  measured-IsMeasuredAt k local a (missing m) s e h = absurd (cc)
  measured-IsMeasuredAt k local a (failed m) s e h = absurd (cc)

  from_name :
      KeepsFiles o
      → (local : Text) → Yields o IsMeasuredAt (look o (o.metadata local) >>= measured local)
  unfolding look
  from_name k local = record {
    holds = λ s a h. measured-IsMeasuredAt k local a (o.metadata local s.world) s refl h;
  }

  pin-Yields : KeepsFiles o → (force : Bool) → Yields o IsMeasuredAt (pin o path force)
  unfolding pin
  pin-Yields k force = Yields-bind (outside o (stat_path o path)) λ entry.
      Yields-bind (refuse_unpinnable o path entry) λ _. Yields-bind (guard_pin o path force) λ _.
        Yields-bind (target_dir_for o path) λ dir.
          Yields-bind (outside o (download o path dir)) λ _.
            Yields-bind
              (some_or_fail o (cannot_pin_root path) (file_name (trim_start_matches b'/' path)))
              λ name. from_name k (path_join dir name)

  pub pin-IsMeasuredAt :
      KeepsFiles o
      → (force : Bool) (local : Text) (s : Store (o.World)) → (pin o path force s).0 ≡ ok local
      → IsMeasuredAt local (pin o path force s).1
  pin-IsMeasuredAt k force local s h = (pin-Yields k force).holds s local h
