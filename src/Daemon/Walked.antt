-- ===== src/Daemon/Walked.antt =====
-- The walk of daemon/src/sync.rs over the cache root: its fuel, and the files that it gives to
-- `upload_if_needed`.
use kio_protondrive.Base.{
  ℕ, zero, suc, ◌+◌, ◌≤◌, ◌<◌, Text, [], ◌∷◌, ◌++◌, List, Result, ok, err, pure, attempt, resume,
  ◌>>=◌, ◌≡◌, refl, sym, ap, ◌∙◌, arith,
}
use kio_protondrive.Outside.{
  Outside, DriveError, Io, done, missing, failed, Entry, entry, unreadable, directory, regular,
  special,
}
use kio_protondrive.Ctrl.{length}
use kio_protondrive.Store.{Store, Op, look, root_of}
use kio_protondrive.Daemon.Sync.{
  path_max, walk_and_upload, reconcile, on_entries, on_folder, upload_if_needed, go_on,
}

-- The paths of the entries have more bytes than so many.
abbrev pub AreLonger : ℕ → List Entry → Type 0
AreLonger n [] = Unit
AreLonger n (entry path _ ∷ es) = (n < length path) × AreLonger n es
AreLonger n (unreadable _ ∷ es) = AreLonger n es

-- Linux opens no folder whose path has 4,096 bytes or more, and an entry's path is its folder's with a
-- name behind it.
pub record IsBounded (o : Outside) : Type 0 where
  pub too_long :
      (dir : Text) (w : o.World)
      → path_max ≤ length dir
      → (m : Text) × (o.read_dir dir w ≡ failed m)
  pub longer :
      (dir : Text) (w : o.World) (es : List Entry)
      → o.read_dir dir w ≡ done es
      → AreLonger (length dir) es

module _ (o : Outside) where
  abbrev pub Walk : Type 0
  Walk = Text → Op o (Unit {0})

  -- Two walks do the same on the paths of more bytes than so many.
  abbrev Agree : ℕ → Walk → Walk → Type 0
  Agree n f g = (path : Text) (s : Store (o.World)) → n < length path → f path s ≡ g path s

  resume_assoc :
      {A B C : Type 0} (r : Result A DriveError × Store (o.World)) (f : A → Op o B) (g : B → Op o C)
      → resume (resume r f) g ≡ resume r (λ a s. resume (f a s) g)
  resume_assoc (ok a, s) f g = refl
  resume_assoc (err e, s) f g = refl

  resumed-≡ :
      {A B : Type 0} (r : Result A DriveError × Store (o.World)) (f g : A → Op o B)
      → ((a : A) (s : Store (o.World)) → f a s ≡ g a s)
      → resume r f ≡ resume r g
  resumed-≡ (ok a, s) f g k = k a s
  resumed-≡ (err e, s) f g k = refl

  on_entries-Agree :
      (n : ℕ) (f g : Walk) (es : List Entry) (s : Store (o.World))
      → Agree n f g
      → AreLonger n es
      → on_entries o f es s ≡ on_entries o g es s
  unfolding on_entries
  on_entries-Agree n f g [] s k h = refl
  on_entries-Agree n f g (unreadable m ∷ es) s k h = refl
  on_entries-Agree n f g (entry path directory ∷ es) s k (l, h) =
      ap (λ r. resume r (λ _. on_entries o f es)) (k path s l)
      ∙ resumed-≡ (g path s) _ _ λ _ t. on_entries-Agree n f g es t k h
  on_entries-Agree n f g (entry path regular ∷ es) s k (l, h) =
      resumed-≡ ((attempt (upload_if_needed o path) >>= go_on o) s) _ _
        λ _ t. on_entries-Agree n f g es t k h
  on_entries-Agree n f g (entry path special ∷ es) s k (l, h) = on_entries-Agree n f g es s k h

  on_folder-Agree :
      (n : ℕ) (f g : Walk) (r : Io (List Entry)) (s : Store (o.World))
      → Agree n f g
      → ((es : List Entry) → r ≡ done es → AreLonger n es)
      → on_folder o f r s ≡ on_folder o g r s
  on_folder-Agree n f g (missing _) s k h = refl
  on_folder-Agree n f g (failed m) s k h = refl
  on_folder-Agree n f g (done es) s k h = on_entries-Agree n f g es s k (h es refl)

  walk_too_long :
      (n m : ℕ) (dir : Text) (s : Store (o.World))
      → IsBounded o
      → path_max ≤ length dir
      → walk_and_upload o (suc n) dir s ≡ walk_and_upload o (suc m) dir s
  unfolding walk_and_upload look
  walk_too_long n m dir s b l = rw ((b.too_long dir s.world l).1) refl

  walk_and_upload-fuel :
      (n m : ℕ) (dir : Text) (s : Store (o.World))
      → IsBounded o
      → path_max ≤ n + length dir
      → path_max ≤ m + length dir
      → walk_and_upload o (suc n) dir s ≡ walk_and_upload o (suc m) dir s
  unfolding walk_and_upload look
  walk_and_upload-fuel zero m dir s b l k = walk_too_long zero m dir s b (omega (arith, l))
  walk_and_upload-fuel (suc n) zero dir s b l k =
      walk_too_long (suc n) zero dir s b (omega (arith, k))
  walk_and_upload-fuel (suc n) (suc m) dir s b l k =
      on_folder-Agree (length dir) (walk_and_upload o (suc n)) (walk_and_upload o (suc m))
        (o.read_dir dir s.world) s
        (λ path t h. walk_and_upload-fuel n m path t b (omega (arith, l, h)) (omega (arith, k, h)))
        (b.longer dir s.world)

  -- Where no folder with a path of 4,096 bytes opens and entries have longer paths than their folders,
  -- the walk of the cache root with any higher fuel than the reconciliation's is the reconciliation.
  pub reconcile-fuel :
      (n : ℕ) (s : Store (o.World))
      → IsBounded o
      → path_max < n
      → (root_of o >>= walk_and_upload o n) s ≡ reconcile o s
  unfolding reconcile root_of
  reconcile-fuel zero s b l = absurd (omega (arith, l))
  reconcile-fuel (suc n) s b l =
      walk_and_upload-fuel n path_max s.root s b (omega (arith, l)) (omega arith)

-- The files that the entries of a folder lead to, in order, given those of a folder below.
abbrev pub files_of : (Text → List Text) → List Entry → List Text
files_of below [] = []
files_of below (entry path directory ∷ es) = below path ++ files_of below es
files_of below (entry path regular ∷ es) = path ∷ files_of below es
files_of below (entry path special ∷ es) = files_of below es
files_of below (unreadable _ ∷ es) = files_of below es

-- The files of a folder and of those below it, so many levels down.
unfoldable pub files_in : (Text → List Entry) → ℕ → Text → List Text
files_in tree zero dir = []
files_in tree (suc n) dir = files_of (files_in tree n) (tree dir)

abbrev pub AreStill : (Text → Type 0) → List Entry → Type 0
AreStill below [] = Unit
AreStill below (entry path directory ∷ es) = below path × AreStill below es
AreStill below (entry path regular ∷ es) = AreStill below es
AreStill below (entry path special ∷ es) = AreStill below es
AreStill below (unreadable _ ∷ es) = ⊥

module _ (o : Outside) where
  -- The folder and those below it, so many levels down, always show the entries of the tree.
  unfoldable pub IsStill : (Text → List Entry) → ℕ → Text → Type 0
  IsStill tree zero dir = Unit
  IsStill tree (suc n) dir =
      ((w : o.World) → o.read_dir dir w ≡ done (tree dir)) × AreStill (IsStill tree n) (tree dir)

  -- Each file in turn, up to the first that shows the session to be missing.
  unfoldable pub upload_files : List Text → Op o (Unit {0})
  upload_files [] = pure tt
  upload_files (f ∷ rest) = attempt (upload_if_needed o f) >>= go_on o >>= λ _. upload_files rest

  pub upload_files-++ :
      (fs gs : List Text) (s : Store (o.World))
      → upload_files (fs ++ gs) s ≡ resume (upload_files fs s) (λ _. upload_files gs)
  unfolding upload_files
  upload_files-++ [] gs s = refl
  upload_files-++ (f ∷ fs) gs s =
      resumed-≡ o r _ _ (λ _ t. upload_files-++ fs gs t)
      ∙ sym (resume_assoc o r (λ _. upload_files fs) (λ _. upload_files gs))
    where
      r : Result (Unit {0}) DriveError × Store (o.World)
      r = (attempt (upload_if_needed o f) >>= go_on o) s

  on_entries-files :
      (walk : Walk o) (below : Text → List Text) (still : Text → Type 0) (es : List Entry)
      → ((path : Text) (s : Store (o.World))
          → still path
          → walk path s ≡ upload_files (below path) s)
      → AreStill still es
      → (s : Store (o.World)) → on_entries o walk es s ≡ upload_files (files_of below es) s
  unfolding on_entries upload_files
  on_entries-files walk below still [] k h s = refl
  on_entries-files walk below still (unreadable m ∷ es) k h s = absurd h
  on_entries-files walk below still (entry path directory ∷ es) k (h, hs) s =
      ap (λ r. resume r (λ _. on_entries o walk es)) (k path s h)
      ∙ resumed-≡ o (upload_files (below path) s) _ _
          (λ _ t. on_entries-files walk below still es k hs t)
      ∙ sym (upload_files-++ (below path) (files_of below es) s)
  on_entries-files walk below still (entry path regular ∷ es) k h s =
      resumed-≡ o ((attempt (upload_if_needed o path) >>= go_on o) s) _ _
        λ _ t. on_entries-files walk below still es k h t
  on_entries-files walk below still (entry path special ∷ es) k h s =
      on_entries-files walk below still es k h s

  -- Where the folders below a folder show the same entries whenever they are read, and all of these
  -- are readable, the walk is the upload of the files below it, in the order of the entries, with what
  -- a folder holds in the place of the folder.
  pub walk_and_upload-files :
      (tree : Text → List Entry) (n : ℕ) (dir : Text) (s : Store (o.World))
      → IsStill tree n dir
      → walk_and_upload o n dir s ≡ upload_files (files_in tree n dir) s
  unfolding walk_and_upload files_in upload_files IsStill look
  walk_and_upload-files tree zero dir s h = refl
  walk_and_upload-files tree (suc n) dir s (still, h) =
      ap (λ r. on_folder o (walk_and_upload o n) r s) (still s.world)
      ∙ on_entries-files (walk_and_upload o n) (files_in tree n) (IsStill tree n) (tree dir)
          (λ path t k. walk_and_upload-files tree n path t k) h s
