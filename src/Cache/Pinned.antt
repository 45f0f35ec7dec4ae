-- ===== src/Cache/Pinned.antt =====
-- `pin`, `mark_synced` and `needs_upload`: what the record holds after them.
use kio_protondrive.Base.{
  ◌≡◌, ◌≢◌, ◌⊎◌, inl, inr, refl, arith, ℕ, Text, trim_start_matches, same, Option, none, some,
  Result, ok, err, Bool, true, false, not, ◌==◌, ◌&&◌, ◌||◌, if◌then◌else◌, resume, ◌>>=◌, pure,
  lift, Action, fail,
}
use kio_protondrive.Table.{find, upsert, update}
use kio_protondrive.Table.Laws.{find-update}
use kio_protondrive.Outside.{Outside, DriveError, Metadata, Io, done, missing, failed}
use kio_protondrive.Store.{Store, Db, outside, look, io_result}
use kio_protondrive.Store.Ends.{Ends, Reads, Ends-bind}
use kio_protondrive.Store.Keeps.{
  Keeps, keeps_rules, Keeps-bind, Keeps-look, execute-db, query-value,
}
use kio_protondrive.Entry.{NodeEntry, is_folder, web_url}
use kio_protondrive.Cache.Pins.{
  cannot_pin_root, dirty_by, unsynced, is_some, pin, record_pin, refuse_unpinnable, guard_pin,
  guard_edits, lookup, is_dirty, needs_upload, mark_synced, some_or_fail, differs_from,
}
use kio_protondrive.Cli.Commands.{stat_path, download}
use kio_protondrive.Cache.Paths.{file_name, path_join, target_dir_for, make_target_dir}

abbrev pub with_pin : Text → Text → Metadata → ℕ → Db → Db
with_pin path local m t db = record db {
  pins =
      upsert path
        (record {
          local_path = local;
          local_mtime = m.mtime;
          local_size = m.len;
          last_synced_at = t;
        })
        db.pins;
}

-- What a result of `pin` says of the database: one row with the local path, or nothing.
abbrev pub Pinned : Text → Result Text DriveError → Db → Db → Type 0
Pinned path (ok local) before after =
    (m : Metadata) × (t : ℕ) × (after ≡ with_pin path local m t before)
Pinned path (err _) before after = after ≡ before

module _ (o : Outside) where
  recorded :
      (path local : Text) (m : Metadata) (t : ℕ) (before : Db)
      → (r : Result (Unit {0}) DriveError × Store (o.World))
      → ((r.0 ≡ ok tt) × (r.1.db ≡ with_pin path local m t before))
        ⊎ ((r.0 ≢ ok tt) × (r.1.db ≡ before))
      → Pinned path (resume r (λ _. pure local)).0 before (resume r (λ _. pure local)).1.db
  recorded path local m t before (ok _, s) (inl (_, e)) = (m, t, e)
  recorded path local m t before (ok _, s) (inr (n, e)) = absurd (n refl)
  recorded path local m t before (err _, s) (inl (n, e)) = absurd (cc)
  recorded path local m t before (err _, s) (inr (_, e)) = e

  record-Pinned :
      (path local : Text) (m : Metadata) (t : ℕ)
      → Ends o (Pinned path) (record_pin o path local m t >>= λ _. pure local)
  unfolding record_pin
  record-Pinned path local m t = record {
    holds = λ s.
        recorded path local m t s.db (record_pin o path local m t s)
          (execute-db o (with_pin path local m t) s);
  }

  is_dirty-Reads : (local path : Text) (c : Db) → Keeps o (λ db. db ≡ c) (is_dirty o local path)
  unfolding is_dirty needs_upload
  is_dirty-Reads local path c = Keeps-bind (Keeps-look _) (by_metadata path c)
    where
      by_metadata :
          (path : Text) (c : Db) (m : Io Metadata) → Keeps o (λ db. db ≡ c) (dirty_by o path m)
      by_metadata path c (missing _) = search keeps_rules
      by_metadata path c (failed _) = search keeps_rules
      by_metadata path c (done m) = search keeps_rules

  guard_edits-Reads :
      (verb path : Text) (local : Option Text) (c : Db)
      → Keeps o (λ db. db ≡ c) (guard_edits o verb path local)
  unfolding guard_edits
  guard_edits-Reads verb path none c = search keeps_rules
  guard_edits-Reads verb path (some local) c =
      Keeps-bind (is_dirty-Reads local path c) λ b. fail_or_pure b
    where
      fail_or_pure :
          (b : Bool) → Keeps o (λ db. db ≡ c) (if b then fail (unsynced path verb) else pure tt)
      fail_or_pure true = search keeps_rules
      fail_or_pure false = search keeps_rules

  guard_pin-Reads : (path : Text) (force : Bool) → Reads o (guard_pin o path force)
  unfolding guard_pin lookup
  guard_pin-Reads path true = record { same_db = λ c. search keeps_rules }
  guard_pin-Reads path false = record { same_db = λ c. search (keeps_rules, guard_edits-Reads) }

  by_kind-Reads :
      (e e' : DriveError) (folder docs : Bool) (c : Db)
      → Keeps o (λ db. db ≡ c) (if folder then fail e else if docs then fail e' else pure tt)
  by_kind-Reads e e' true docs c = search keeps_rules
  by_kind-Reads e e' false true c = search keeps_rules
  by_kind-Reads e e' false false c = search keeps_rules

  refuse_unpinnable-Reads : (path : Text) (n : NodeEntry) → Reads o (refuse_unpinnable o path n)
  unfolding refuse_unpinnable
  refuse_unpinnable-Reads path n = record {
    same_db = by_kind-Reads _ _ (is_folder n) (is_some (web_url n));
  }

  make_target_dir-Reads :
      (path : Text) (dir : Option Text) (c : Db)
      → Keeps o (λ db. db ≡ c) (make_target_dir o path dir)
  unfolding make_target_dir
  make_target_dir-Reads path none c = search keeps_rules
  make_target_dir-Reads path (some dir) c = search keeps_rules

  target_dir_for-Reads : (path : Text) → Reads o (target_dir_for o path)
  unfolding target_dir_for
  target_dir_for-Reads path = record { same_db = λ c. search (keeps_rules, make_target_dir-Reads) }

  some_or_fail-Reads : (e : DriveError) (name : Option Text) → Reads o (some_or_fail o e name)
  some_or_fail-Reads e none = record { same_db = λ c. search keeps_rules }
  some_or_fail-Reads e (some a) = record { same_db = λ c. search keeps_rules }

  outside-Reads : {A : Type 0} (m : Action (o.World) A DriveError) → Reads o (outside o m)
  outside-Reads m = record { same_db = λ c. search keeps_rules }

  look-Reads : {A : Type 0} (f : o.World → A) → Reads o (look o f)
  look-Reads f = record { same_db = λ c. search keeps_rules }

  lift-Reads : {A : Type 0} (r : Result A DriveError) → Reads o (lift r)
  lift-Reads r = record { same_db = λ c. search keeps_rules }

  unchanged : (path : Text) (e : DriveError) (db : Db) → Pinned path (err e) db db
  unchanged path e db = refl

  pin-Ends : (path : Text) (force : Bool) → Ends o (Pinned path) (pin o path force)
  unfolding pin
  pin-Ends path force = Ends-bind (outside-Reads (stat_path o path)) (unchanged path) λ entry.
      Ends-bind (refuse_unpinnable-Reads path entry) (unchanged path) λ _.
        Ends-bind (guard_pin-Reads path force) (unchanged path) λ _.
          Ends-bind (target_dir_for-Reads path) (unchanged path) λ dir.
            Ends-bind (outside-Reads (download o path dir)) (unchanged path) λ _.
              Ends-bind
                (some_or_fail-Reads (cannot_pin_root path)
                  (file_name (trim_start_matches b'/' path)))
                (unchanged path)
                λ name.
                  Ends-bind (look-Reads (o.metadata (path_join dir name))) (unchanged path) λ m.
                    Ends-bind (lift-Reads (io_result o m)) (unchanged path) λ found.
                      Ends-bind (look-Reads o.now) (unchanged path)
                        λ t. record-Pinned path (path_join dir name) found t

  -- `pin` either records the copy at the path that it gives, under the key of the remote path and no
  -- other, or fails and leaves the database as it was.
  pub pin_lem :
      (path : Text) (force : Bool) (s : Store (o.World))
      → Pinned path (pin o path force s).0 s.db (pin o path force s).1.db
  pin_lem path force s = (pin-Ends path force).holds s

  pub mark_synced-pins :
      (path : Text) (mtime size : ℕ) (s : Store (o.World))
      → (mark_synced o path mtime size s).0 ≡ ok tt
      → (mark_synced o path mtime size s).1.db.pins
        ≡ update path
            (λ p. record p {
              local_mtime = mtime;
              local_size = size;
              last_synced_at = o.now s.world;
            })
            s.db.pins
  unfolding mark_synced
  mark_synced-pins path mtime size s h = ground arith

  pub needs_upload-value :
      (path : Text) (mtime size : ℕ) (s : Store (o.World)) (b : Bool)
      → (needs_upload o path mtime size s).0 ≡ ok b
      → b ≡ differs_from (find path s.db.pins) mtime size
  unfolding needs_upload
  needs_upload-value path mtime size s b h =
      query-value o (λ db. differs_from (find path db.pins) mtime size) s b h

  -- Where both statements run: behind `mark_synced` with a time and a size, a file needs an upload
  -- exactly if it is pinned and its time or size is another. Other files need one as before.
  pub needs_upload-mark_synced :
      (path other : Text) (mtime size m n : ℕ) (s : Store (o.World)) (b : Bool)
      → (mark_synced o path mtime size s).0 ≡ ok tt
      → (needs_upload o other m n (mark_synced o path mtime size s).1).0 ≡ ok b
      → b ≡ (
          if same path other
          then is_some (find path s.db.pins) && (not (mtime == m) || not (size == n))
          else differs_from (find other s.db.pins) m n)
  needs_upload-mark_synced path other mtime size m n s b h k = ground (
    arith,
    needs_upload-value other m n (mark_synced o path mtime size s).1 b k,
    mark_synced-pins path mtime size s h,
    find-update path other
        (λ p. record p { local_mtime = mtime; local_size = size; last_synced_at = o.now s.world })
        s.db.pins,
  )
