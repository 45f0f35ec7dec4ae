-- ===== src/Cache/Effects.antt =====
-- What the results of core/src/cache.rs's operations on pins say of the rows, said of the map of
-- Cache/Spec.antt.
use mathlib.Core.Path.{fun_ext}
use kio_protondrive.Base.{
  ℕ, Text, same, Bool, true, false, Option, none, some, [], ◌∷◌, Result, ok, err, Bool-cases, ◌≡◌,
  ◌≢◌, ◌⊎◌, inl, inr, refl, sym, ◌∙◌, ap, arith, if◌then◌else◌,
}
use kio_protondrive.Table.{Table, find, UniqueKeys}
use kio_protondrive.Table.Laws.{find-upsert, find-delete, find-update}
use kio_protondrive.Outside.{DriveError, Metadata, Io, done}
use kio_protondrive.Store.{Db, Pin}
use kio_protondrive.Cache.Pins.{in_tree, tree_prefix, rekey, remote_of, is_some}
use kio_protondrive.Cache.Pinned.{Pinned}
use kio_protondrive.Cache.Unpin.{unpinned}
use kio_protondrive.Cache.Renamed.{find-rekey, replace_row_absent}
use kio_protondrive.Cache.Keyed.{synced_at, synced_row}
use kio_protondrive.Cache.Under.{IsAtOrBelow, in_tree-IsAtOrBelow, in_tree-Cleared}
use kio_protondrive.Cache.Thinned.{Thinned, view}
use kio_protondrive.Cache.Spec
use kio_protondrive.Cache.Spec.{
  PinMap, Seen, Call, Answer, Does, Succeeds, Fails, FoundBy, changed, rekeyed, synced, PinIndex,
}

here : {A : Type 0} (k : Text) (v w : A) → (if same k k then v else w) ≡ v
here k v w = ground arith

-- What is seen of the row that was recorded is seen of what it was recorded from.
row_values :
    (p : Pin) (m : Metadata) (local : Text) (t : ℕ) (x : Io Metadata)
    → some (Spec.row local m t) ≡ some p
    → x ≡ done (record { mtime = p.local_mtime; len = p.local_size })
    → x ≡ done m
row_values p m local t x e h = ground arith

pub pin-Does :
    (path : Text) (force : Bool) (seen : Seen) (r : Result Text DriveError) (db db' : Db)
    → Pinned path r db db'
    → ((local : Text)
        → r ≡ ok local
        → (p : Pin) × (find path db'.pins ≡ some p)
          × (seen.metadata local ≡ done (record { mtime = p.local_mtime; len = p.local_size })))
    → Does (Spec.pin path force) r seen (view db) (view db')
pin-Does path force seen (ok local) db db' (m, t, e) v =
    let (p, at, h) = v local refl in
    (
      m,
      t,
      row_values p m local t (seen.metadata local)
          (sym (find-upsert path path (Spec.row local m t) db.pins ∙ here path _ _)
            ∙ ap (λ (d : Db). find path d.pins) (sym e)
            ∙ at)
          h,
      rw e (fun_ext λ k. find-upsert path k (Spec.row local m t) db.pins),
    )
pin-Does path force seen (err _) db db' e v = ap view e

pub unpin-Does :
    (path : Text) (force : Bool) (seen : Seen) (r : Result (Unit {0}) DriveError) (db db' : Db)
    → db' ≡ unpinned path r db
    → Does (Spec.unpin path force) r seen (view db) (view db')
unpin-Does path force seen (ok _) db db' e =
    rw e (fun_ext λ k. ground (arith, find-delete path k db.pins))
unpin-Does path force seen (err _) db db' e = ap view e

rekey_absent :
    (old new local : Text) (t t' : Table Pin)
    → rekey old new local t ≡ some t'
    → is_some (find old t) ≡ false
    → t' ≡ t
unfolding rekey
rekey_absent old new local t t' e h = ground (arith, replace_row_absent old new local t)

view-rekey :
    (old new local : Text) (db db' : Db)
    → UniqueKeys db.pins
    → rekey old new local db.pins ≡ some db'.pins
    → view db' ≡ rekeyed old new local (view db)
view-rekey old new local db db' u e = elim (Bool-cases (is_some (find old db.pins))) [
  | inl h ↦ rw h (fun_ext λ k. find-rekey old new local k db.pins db'.pins u e h)
  | inr h ↦ rw h (
      ap {B = PinMap} (λ (t : Table Pin) k. find k t)
        (rekey_absent old new local db.pins db'.pins e h))
]

pub renamed-Does :
    (old new local : Text) (seen : Seen) (r : Result (Unit {0}) DriveError) (db db' : Db)
    → UniqueKeys db.pins
    → ((r ≡ ok tt) × (rekey old new local db.pins ≡ some db'.pins)) ⊎ ((r ≢ ok tt) × (db' ≡ db))
    → Does (Spec.rename old new local) r seen (view db) (view db')
renamed-Does old new local seen (ok _) db db' u (inl (_, e)) = view-rekey old new local db db' u e
renamed-Does old new local seen (ok _) db db' u (inr (n, e)) = absurd (n refl)
renamed-Does old new local seen (err _) db db' u (inl (h, e)) = absurd (cc)
renamed-Does old new local seen (err _) db db' u (inr (_, e)) = ap view e

pub synced-Does :
    (path : Text) (m n t : ℕ) (seen : Seen) (r : Result (Unit {0}) DriveError) (db db' : Db)
    → ((r ≡ ok tt) × (db' ≡ synced_at path m n t db)) ⊎ ((r ≢ ok tt) × (db' ≡ db))
    → Does (Spec.mark_synced path m n) r seen (view db) (view db')
synced-Does path m n t seen (ok _) db db' (inl (_, e)) =
    (t, rw e (fun_ext λ k. ground (arith, find-update path k (synced_row m n t) db.pins)))
synced-Does path m n t seen (ok _) db db' (inr (k, e)) = absurd (k refl)
synced-Does path m n t seen (err _) db db' (inl (h, e)) = absurd (cc)
synced-Does path m n t seen (err _) db db' (inr (_, e)) = ap view e

-- A row of another local path changes nothing of what is found behind it.
skipped-FoundBy :
    (local k : Text) (p : Pin) (t : Table Pin) (r : Option Text)
    → find k t ≡ none
    → same p.local_path local ≡ false
    → FoundBy local r (λ j. find j t)
    → FoundBy local r (λ j. find j ((k, p) ∷ t))
unfolding find
skipped-FoundBy local k p t none fresh h a = λ j q e. ground (arith, a j q)
skipped-FoundBy local k p t (some remote) fresh h (q, at, e) = (q, ground arith, e)

pub remote_of-FoundBy :
    (local : Text) (t : Table Pin)
    → UniqueKeys t
    → FoundBy local (remote_of local t) (λ k. find k t)
unfolding remote_of find
remote_of-FoundBy local [] u = λ k p e. absurd (cc)
remote_of-FoundBy local ((k, p) ∷ t) (fresh, u) = elim (Bool-cases (same p.local_path local)) [
  | inl h ↦ rw h (p, ground arith, h)
  | inr h ↦ rw h (skipped-FoundBy local k p t _ fresh h (remote_of-FoundBy local t u))
]

below_or_kept :
    (path k : Text) (before after : Option Pin)
    → (after ≡ before) ⊎ ((in_tree path (tree_prefix path) k ≡ true) × (after ≡ none))
    → (after ≡ before) ⊎ (IsAtOrBelow path k × (after ≡ none))
below_or_kept path k before after (inl e) = inl e
below_or_kept path k before after (inr (h, e)) = inr ((in_tree-IsAtOrBelow path k).0 h, e)

pub unpinned_tree-Does :
    (path : Text) (force : Bool) (seen : Seen) (r : Result (Unit {0}) DriveError) (db db' : Db)
    → (r ≡ ok tt
        → (k : Text)
        → find k db'.pins ≡ (if in_tree path (tree_prefix path) k then none else find k db.pins))
    → Thinned (in_tree path (tree_prefix path)) (view db) (view db')
    → Does (Spec.unpin_tree path force) r seen (view db) (view db')
unpinned_tree-Does path force seen (ok _) db db' c h = λ k. in_tree-Cleared path k _ _ (c refl k)
unpinned_tree-Does path force seen (err _) db db' c h = λ k. below_or_kept path k _ _ (h k)
