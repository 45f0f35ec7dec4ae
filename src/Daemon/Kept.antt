-- ===== src/Daemon/Kept.antt =====
-- The record of one pinned file, while `upload_if_needed` of daemon/src/sync.rs runs on others.
use mathlib.Core.Option
use mathlib.Core.Path.{subst}
use kio_protondrive.Base.{
  ok, Bool-cases, ◌≢◌, ◌≡◌, inl, inr, refl, sym, ap, ◌∙◌, arith, ℕ, Text, same, Option, none, some,
  [], ◌∷◌, Bool, true, false, if◌then◌else◌,
}
use kio_protondrive.Table.{Table, find, update, UniqueKeys}
use kio_protondrive.Table.Laws.{find-update, update-UniqueKeys}
use kio_protondrive.Outside.{Outside, Metadata, Io, done}
use kio_protondrive.Store.{Store, Db, Pin}
use kio_protondrive.Store.Keeps.{Keeps}
use kio_protondrive.Cache.Pins.{remote_of, differs_from}
use kio_protondrive.Cache.Keyed.{synced_row}
use kio_protondrive.Cache.Effects.{remote_of-FoundBy}
use kio_protondrive.Cache.Spec.{FoundBy}
use kio_protondrive.Daemon.Sync.{upload_if_needed}
use kio_protondrive.Daemon.Synced.{upload_if_needed-IsSynced}
use kio_protondrive.Daemon.Recorded.{Marked, Recorded, upload_if_needed-Recorded}

remote_of-update :
    (local remote : Text) (a b t : ℕ) (pins : Table Pin)
    → remote_of local (update remote (synced_row a b t) pins) ≡ remote_of local pins
unfolding remote_of update
remote_of-update local remote a b t [] = refl
remote_of-update local remote a b t ((k, p) ∷ pins) =
    ground (arith, remote_of-update local remote a b t pins)

differs_from-resynced :
    (m : Metadata) (t : ℕ) (p : Option Pin)
    → differs_from (Option.map (synced_row m.mtime m.len t) p) m.mtime m.len ≡ false
differs_from-resynced m t none = refl
differs_from-resynced m t (some p) = ground arith

differs_from-marked :
    (b : Bool) (m m' : Metadata) (t : ℕ) (x : Option Pin)
    → (b ≡ true → m' ≡ m)
    → differs_from x m.mtime m.len ≡ false
    → differs_from (if b then Option.map (synced_row m'.mtime m'.len t) x else x) m.mtime m.len
      ≡ false
differs_from-marked true m m' t x k d = rw (k refl) (differs_from-resynced m t x)
differs_from-marked false m m' t x k d = d

done_value : (m m' : Metadata) → done m' ≡ done m → m' ≡ m
done_value m m' e = cc

-- The pins have one row for each remote path, and the first of a local path is this one's.
abbrev pub IsPinned : Text → Text → Db → Type 0
IsPinned local remote db = UniqueKeys db.pins × (remote_of local db.pins ≡ some remote)

same_row :
    (f g : Text) (x : Option Pin) (p q : Pin)
    → x ≡ some p
    → x ≡ some q
    → same p.local_path f ≡ true
    → same q.local_path g ≡ true
    → f ≡ g
same_row f g x p q e e' h h' = ground arith

same_file :
    (f g remote : Text) (db : Db) → IsPinned f remote db → remote_of g db.pins ≡ some remote → f ≡ g
same_file f g remote db (u, e) e' =
    let (p, at, h) =
      subst (λ r. FoundBy f r (λ k. find k db.pins)) e (remote_of-FoundBy f db.pins u) in
    let (q, at', h') =
      subst (λ r. FoundBy g r (λ k. find k db.pins)) e' (remote_of-FoundBy g db.pins u) in
    same_row f g (find remote db.pins) p q at at' h h'

-- A row of the remote path has the time and the size that were measured.
abbrev pub IsMeasured : Text → Metadata → Db → Type 0
IsMeasured remote m db =
    (p : Pin) × (find remote db.pins ≡ some p) × (p.local_mtime ≡ m.mtime) × (p.local_size ≡ m.len)

found_row :
    (remote : Text) (m : Metadata) (db : Db) (x : Option Pin)
    → find remote db.pins ≡ x
    → x ≢ none
    → differs_from x m.mtime m.len ≡ false
    → IsMeasured remote m db
found_row remote m db none e n d = absurd (n refl)
found_row remote m db (some p) e n d = (p, e, ground arith, ground arith)

remote_of-found :
    (local remote : Text) (pins : Table Pin)
    → remote_of local pins ≡ some remote
    → find remote pins ≢ none
unfolding remote_of find
remote_of-found local remote [] h = absurd (cc)
remote_of-found local remote ((k, p) ∷ pins) h = λ e. elim (Bool-cases (same k remote)) [
  | inl same_key ↦ absurd (ground arith)
  | inr other ↦ absurd (remote_of-found local remote pins (ground arith) (ground arith))
]

pub found-IsMeasured :
    (local remote : Text) (m : Metadata) (db : Db)
    → remote_of local db.pins ≡ some remote
    → differs_from (find remote db.pins) m.mtime m.len ≡ false
    → IsMeasured remote m db
found-IsMeasured local remote m db h d =
    found_row remote m db (find remote db.pins) refl (remote_of-found local remote db.pins h) d

-- The record of the pinned file is what was measured.
abbrev pub IsRecorded : Text → Text → Metadata → Db → Type 0
IsRecorded local remote m db =
    IsPinned local remote db × (differs_from (find remote db.pins) m.mtime m.len ≡ false)

Marked-IsPinned :
    (f remote r : Text) (m : Metadata) (db db' : Db)
    → Marked r m db db'
    → IsPinned f remote db
    → IsPinned f remote db'
Marked-IsPinned f remote r m db db' (inl e) h = rw e h
Marked-IsPinned f remote r m db db' (inr (t, e)) (u, h) =
    rw e (update-UniqueKeys r _ db.pins u, remote_of-update f r m.mtime m.len t db.pins ∙ h)

Marked-IsRecorded :
    (f remote r : Text) (m m' : Metadata) (db db' : Db)
    → Marked r m' db db'
    → (same r remote ≡ true → m' ≡ m)
    → IsRecorded f remote m db
    → IsRecorded f remote m db'
Marked-IsRecorded f remote r m m' db db' (inl e) k h = rw e h
Marked-IsRecorded f remote r m m' db db' (inr (t, e)) k (h, d) = (
  Marked-IsPinned f remote r m' db db' (inr (t, e)) h,
  rw (e, find-update r remote (synced_row m'.mtime m'.len t) db.pins)
      (differs_from-marked (same r remote) m m' t (find remote db.pins) k d),
)

module _ (o : Outside) (f remote : Text) (m : Metadata)
    (still : (w : o.World) → o.metadata f w ≡ done m) where
  Recorded-IsPinned :
      (g : Text) (x : Io Metadata) (db db' : Db)
      → Recorded g x db db'
      → IsPinned f remote db
      → IsPinned f remote db'
  Recorded-IsPinned g x db db' (inl e) h = rw e h
  Recorded-IsPinned g x db db' (inr (r, m', _, _, marked)) h =
      Marked-IsPinned f remote r m' db db' marked h

  same_text : {r q : Text} → same r q ≡ true → r ≡ q
  same_text h = ground arith

  same_measure :
      (g : Text) (w : o.World) (db : Db) (m' : Metadata)
      → remote_of g db.pins ≡ some remote
      → IsRecorded f remote m db
      → o.metadata g w ≡ done m'
      → m' ≡ m
  same_measure g w db m' found (h, _) ex =
      done_value m m'
        (sym ex ∙ ap (λ k. o.metadata k w) (sym (same_file f g remote db h found)) ∙ still w)

  Recorded-IsRecorded :
      (g : Text) (w : o.World) (db db' : Db)
      → Recorded g (o.metadata g w) db db'
      → IsRecorded f remote m db
      → IsRecorded f remote m db'
  Recorded-IsRecorded g w db db' (inl e) h = rw e h
  Recorded-IsRecorded g w db db' (inr (r, m', ex, found, marked)) h =
      Marked-IsRecorded f remote r m m' db db' marked
        (λ e. same_measure g w db m' (found ∙ ap some (same_text e)) h ex) h

  pub others_leave_row : (g : Text) → Keeps o (IsPinned f remote) (upload_if_needed o g)
  others_leave_row g = record {
    holds = λ s h.
        Recorded-IsPinned g (o.metadata g s.world) s.db _ (upload_if_needed-Recorded o g s) h;
  }

  pub others_leave_mark : (g : Text) → Keeps o (IsRecorded f remote m) (upload_if_needed o g)
  others_leave_mark g = record {
    holds = λ s h. Recorded-IsRecorded g s.world s.db _ (upload_if_needed-Recorded o g s) h;
  }

Marked-remote_of :
    (f r : Text) (m : Metadata) (db db' : Db)
    → Marked r m db db'
    → remote_of f db'.pins ≡ remote_of f db.pins
Marked-remote_of f r m db db' (inl e) = ap (λ (d : Db). remote_of f d.pins) e
Marked-remote_of f r m db db' (inr (t, e)) =
    ap (λ (d : Db). remote_of f d.pins) e ∙ remote_of-update f r m.mtime m.len t db.pins

Recorded-remote_of :
    (f g : Text) (x : Io Metadata) (db db' : Db)
    → Recorded g x db db'
    → remote_of f db'.pins ≡ remote_of f db.pins
Recorded-remote_of f g x db db' (inl e) = ap (λ (d : Db). remote_of f d.pins) e
Recorded-remote_of f g x db db' (inr (r, m, _, _, marked)) = Marked-remote_of f r m db db' marked

-- Where `upload_if_needed` succeeds on a pinned file, there is a record of its remote path behind it,
-- with the time and the size that the file had at the start.
pub upload_if_needed-IsMeasured :
    (o : Outside) (local remote : Text) (m : Metadata) (s : Store (o.World))
    → o.is_file local s.world ≡ true
    → o.metadata local s.world ≡ done m
    → remote_of local s.db.pins ≡ some remote
    → (upload_if_needed o local s).0 ≡ ok tt
    → IsMeasured remote m (upload_if_needed o local s).1.db
upload_if_needed-IsMeasured o local remote m s file meta found h =
    found-IsMeasured local remote m (upload_if_needed o local s).1.db
      (Recorded-remote_of local local (o.metadata local s.world) s.db _
          (upload_if_needed-Recorded o local s)
        ∙ found)
      (upload_if_needed-IsSynced o local remote m s file meta found h)
