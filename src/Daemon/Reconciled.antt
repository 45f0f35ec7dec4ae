-- ===== src/Daemon/Reconciled.antt =====
-- What the reconciliation of daemon/src/sync.rs leaves in the record of a pinned file that it comes to.
use mathlib.Core.Path.{subst}
use kio_protondrive.Base.{
  ◌≡◌, sym, ap, ◌∙◌, suc, Text, some, [], ◌∷◌, ◌++◌, List, Result, ok, err, true, resume,
}
use kio_protondrive.Table.{UniqueKeys}
use kio_protondrive.Outside.{Outside, DriveError, Metadata, done, Entry}
use kio_protondrive.Store.{Store, Db, root_of}
use kio_protondrive.Store.Keeps.{Keeps, keeps_rules, Keeps-bind, Keeps-attempt}
use kio_protondrive.Cache.Pins.{remote_of}
use kio_protondrive.Daemon.Keyed.{go_on-Keeps}
use kio_protondrive.Daemon.Sync.{upload_if_needed, go_on, reconcile, path_max}
use kio_protondrive.Daemon.Synced.{upload_if_needed-IsSynced}
use kio_protondrive.Daemon.Walked.{
  IsStill, files_in, upload_files, upload_files-++, walk_and_upload-files,
}
use kio_protondrive.Daemon.Kept.{
  IsPinned, IsMeasured, found-IsMeasured, others_leave_row, others_leave_mark,
}

module _ {o : Outside} {I : Db → Type 0} where
  upload_files-Keeps :
      (files : List Text)
      → ((g : Text) → Keeps o I (upload_if_needed o g))
      → Keeps o I (upload_files o files)
  unfolding upload_files
  upload_files-Keeps [] k = search keeps_rules
  upload_files-Keeps (g ∷ files) k =
      Keeps-bind (Keeps-bind (Keeps-attempt (k g)) go_on-Keeps) λ _. upload_files-Keeps files k

  -- A file whose turn it was, and the files behind it.
  turned :
      (files : List Text) (r : Result (Unit {0}) DriveError × Store (o.World))
      → ((g : Text) → Keeps o I (upload_if_needed o g))
      → r.0 ≡ ok tt
      → I r.1.db
      → I (resume (go_on o r.0 r.1) (λ _. upload_files o files)).1.db
  turned files (ok _, s) k e h = (upload_files-Keeps files k).holds s h
  turned files (err _, s) k e h = absurd (cc)

module _ (o : Outside) (f remote : Text) (m : Metadata) where
  -- The file is there, and its time and size are these, whenever they are read.
  abbrev pub IsUntouched : Type 0
  IsUntouched = (w : o.World) → (o.is_file f w ≡ true) × (o.metadata f w ≡ done m)

  in_turn :
      (after : List Text) (q : Result (Unit {0}) DriveError × Store (o.World))
      → IsUntouched
      → q.0 ≡ ok tt
      → IsPinned f remote q.1.db
      → (upload_if_needed o f q.1).0 ≡ ok tt
      → IsMeasured remote m (resume q (λ _. upload_files o (f ∷ after))).1.db
  unfolding upload_files
  in_turn after (ok _, s) still e h k =
      let measured = λ (w : o.World). (still w).1 in
      let (pinned, same_as) =
        turned after (upload_if_needed o f s) (others_leave_mark o f remote m measured) k (
          (others_leave_row o f remote m measured f).holds s h,
          upload_if_needed-IsSynced o f remote m s (still s.world).0 (still s.world).1 h.1 k,
        ) in
      let r = upload_if_needed o f s in
      found-IsMeasured f remote m (resume (go_on o r.0 r.1) (λ _. upload_files o after)).1.db
        pinned.1 same_as
  in_turn after (err _, s) still e h k = absurd (cc)

  upload_files-IsMeasured :
      (before after : List Text) (s : Store (o.World))
      → IsUntouched
      → IsPinned f remote s.db
      → (upload_files o before s).0 ≡ ok tt
      → (upload_if_needed o f (upload_files o before s).1).0 ≡ ok tt
      → IsMeasured remote m (upload_files o (before ++ f ∷ after) s).1.db
  upload_files-IsMeasured before after s still h e k =
      subst (λ (q : Result (Unit {0}) DriveError × Store (o.World)). IsMeasured remote m q.1.db)
        (sym (upload_files-++ o before (f ∷ after) s))
        (in_turn after (upload_files o before s) still e
          ((upload_files-Keeps before (others_leave_row o f remote m λ w. (still w).1)).holds s h)
          k)

  -- Where the folders below the cache root show the same readable entries whenever they are read, and
  -- a pinned file among them is not edited meanwhile: if the uploads of the files in front of it do not
  -- show the session to be missing, and its own succeeds, there is a record of its remote path behind
  -- the reconciliation, with its time and size, however the reconciliation goes on and ends.
  pub reconcile-IsMeasured :
      (tree : Text → List Entry) (before after : List Text) (s : Store (o.World))
      → IsStill o tree (suc path_max) s.root
      → files_in tree (suc path_max) s.root ≡ before ++ f ∷ after
      → IsUntouched
      → UniqueKeys s.db.pins
      → remote_of f s.db.pins ≡ some remote
      → (upload_files o before s).0 ≡ ok tt
      → (upload_if_needed o f (upload_files o before s).1).0 ≡ ok tt
      → IsMeasured remote m (reconcile o s).1.db
  unfolding reconcile root_of
  reconcile-IsMeasured tree before after s fixed listed still u found e k =
      subst (λ (q : Result (Unit {0}) DriveError × Store (o.World)). IsMeasured remote m q.1.db)
        (sym (
          walk_and_upload-files o tree (suc path_max) s.root s fixed
          ∙ ap (λ files. upload_files o files s) listed))
        (upload_files-IsMeasured before after s still (u, found) e k)
