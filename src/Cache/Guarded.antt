-- ===== src/Cache/Guarded.antt =====
-- An unforced `pin` of a file that is pinned already.
use kio_protondrive.Base.{
  ◌≡◌, refl, arith, Text, some, Result, ok, err, Bool, true, false, resume, ◌>>=◌, ◌>>◌, lift,
  trim_start_matches, pure,
}
use kio_protondrive.Table.{find}
use kio_protondrive.Outside.{Outside, DriveError, Metadata, done}
use kio_protondrive.Entry.{NodeEntry}
use kio_protondrive.Store.{Store, Db, Pin, Op, outside, look, io_result}
use kio_protondrive.Cache.Paths.{target_dir_for, path_join, file_name}
use kio_protondrive.Cache.Pins.{
  some_or_fail, cannot_pin_root, record_pin, pin, guard_pin, guard_edits, lookup, is_dirty,
  refuse_unpinnable, differs_from,
}
use kio_protondrive.Cache.Unpin.{KeepsFiles}
use kio_protondrive.Cli.Commands.{stat_path, download}

abbrev pub is_ok : {A : Type 0} → Result A DriveError → Bool
is_ok (ok _) = true
is_ok (err _) = false

module _ (o : Outside) (path : Text) (p : Pin) (m : Metadata) where
  -- The pin is there, and its local copy has been edited.
  abbrev pub IsEdited : Store (o.World) → Type 0
  IsEdited s =
      (find path s.db.pins ≡ some p)
      × (o.is_file p.local_path s.world ≡ true)
      × (o.metadata p.local_path s.world ≡ done m)
      × (differs_from (some p) m.mtime m.len ≡ true)

  -- No result, the same index and the same local copy.
  abbrev pub Refused : {A : Type 0} → Db → Result A DriveError × Store (o.World) → Type 0
  Refused before r =
      (is_ok r.0 ≡ false)
      × (r.1.db ≡ before)
      × (o.is_file p.local_path r.1.world ≡ true)
      × (o.metadata p.local_path r.1.world ≡ done m)

  Refused-resume :
      {A B : Type 0} (f : A → Op o B) (before : Db) (r : Result A DriveError × Store (o.World))
      → Refused before r
      → Refused before (resume r f)
  Refused-resume f before (ok a, s) (h, _, _, _) = absurd (cc)
  Refused-resume f before (err e, s) c = c

  guard_pin-Refused :
      KeepsFiles o → (s : Store (o.World)) → IsEdited s → Refused s.db (guard_pin o path false s)
  unfolding guard_pin lookup guard_edits is_dirty
  guard_pin-Refused k s (found, file, meta, edited) =
      ground (arith, k s.world p.local_path, k (o.db_error s.world).1 p.local_path)

  refuse_unpinnable-state :
      (n : NodeEntry) (s : Store (o.World)) → (refuse_unpinnable o path n s).1 ≡ s
  unfolding refuse_unpinnable
  refuse_unpinnable-state n s = ground arith

  pin_guarded :
      {A : Type 0} (f : Unit {0} → Op o A)
      → (s : Store (o.World)) → (r : Result (Unit {0}) DriveError × Store (o.World)) → r.1 ≡ s
      → IsEdited s
      → Refused s.db (guard_pin o path false s)
      → Refused s.db (resume r (λ _. guard_pin o path false >>= f))
  pin_guarded f s (ok _, s') e _ g = rw e (Refused-resume f s.db (guard_pin o path false s) g)
  pin_guarded f s (err d, s') e (_, file, meta, _) g = rw e (refl, refl, file, meta)

  -- An unforced `pin` of a path that is pinned already and whose local copy was edited since it was
  -- synced fails, and the index and the copy are as they were: nothing is downloaded over the edits.
  -- (The copy is as it is behind the CLI's answer to the first request; no statement changes files.)
  pub pin_refuses_edits :
      KeepsFiles o
      → (s : Store (o.World)) → IsEdited (record s { world = (stat_path o path s.world).1 })
      → Refused s.db (pin o path false s)
  unfolding pin outside
  pin_refuses_edits k s edited = go (stat_path o path s.world).0
    where
      asked : Store (o.World)
      asked = record s { world = (stat_path o path s.world).1 }

      rest : NodeEntry → Unit {0} → Op o Text
      rest entry _ = do
        dir ← target_dir_for o path
        outside o (download o path dir)
        name ← some_or_fail o (cannot_pin_root path) (file_name (trim_start_matches b'/' path))
        found ← look o (o.metadata (path_join dir name))
        m' ← lift (io_result o found)
        t ← look o o.now
        record_pin o path (path_join dir name) m' t
        pure (path_join dir name)

      go :
          (r : Result NodeEntry DriveError)
          → Refused s.db (
              resume
                (r, asked)
                (λ entry.
                  refuse_unpinnable o path entry >>= λ _. guard_pin o path false >>= rest entry))
      go (err e) = (refl, refl, edited.1, edited.2)
      go (ok entry) =
          pin_guarded (rest entry) asked (refuse_unpinnable o path entry asked)
            (refuse_unpinnable-state entry asked) edited (guard_pin-Refused k asked edited)
