-- ===== src/Cache/Renamed.antt =====
-- `rename` of a pin.
use kio_protondrive.Base.{
  ◌≡◌, ◌≢◌, ◌⊎◌, inl, inr, refl, arith, Text, same, none, some, [], ◌∷◌, ok, true, false,
  if◌then◌else◌,
}
use kio_protondrive.Table.{Table, find, UniqueKeys}
use kio_protondrive.Outside.{Outside}
use kio_protondrive.Store.{Store, Pin}
use kio_protondrive.Cache.Spec.{moved}
use kio_protondrive.Cache.Pins.{rename, rekey, replace_row, is_some}

replace_row_fresh :
    (old new local j : Text) (t : Table Pin)
    → find j t ≡ none
    → same new j ≡ false
    → find j (replace_row old new local t) ≡ none
unfolding find replace_row
replace_row_fresh old new local j [] h d = refl
replace_row_fresh old new local j ((k, p) ∷ t) h d =
    ground (arith, replace_row_fresh old new local j t)

pub replace_row_absent :
    (old new local : Text) (t : Table Pin) → find old t ≡ none → replace_row old new local t ≡ t
unfolding find replace_row
replace_row_absent old new local [] h = refl
replace_row_absent old new local ((k, p) ∷ t) h = ground (arith, replace_row_absent old new local t)

replace_row-UniqueKeys :
    (old new local : Text) (t : Table Pin)
    → UniqueKeys t
    → (find new t ≡ none) ⊎ (same old new ≡ true)
    → UniqueKeys (replace_row old new local t)
unfolding find replace_row
replace_row-UniqueKeys old new local [] u c = tt
replace_row-UniqueKeys old new local ((k, p) ∷ t) (fresh, u) (inl c) =
    ground (arith, replace_row-UniqueKeys old new local t u, replace_row_fresh old new local k t)
replace_row-UniqueKeys old new local ((k, p) ∷ t) (fresh, u) (inr c) =
    ground (arith, replace_row-UniqueKeys old new local t u, replace_row_fresh old new local k t)

find-replace_row :
    (old new local j : Text) (t : Table Pin)
    → UniqueKeys t
    → (find new t ≡ none) ⊎ (same old new ≡ true)
    → is_some (find old t) ≡ true
    → find j (replace_row old new local t)
      ≡ (if same new j then moved local (find old t) else if same old j then none else find j t)
unfolding find replace_row
find-replace_row old new local j [] u c h = absurd (cc)
find-replace_row old new local j ((k, p) ∷ t) (fresh, u) (inl c) h =
    ground (arith, find-replace_row old new local j t u)
find-replace_row old new local j ((k, p) ∷ t) (fresh, u) (inr c) h =
    ground (arith, find-replace_row old new local j t u)

rekey-UniqueKeys :
    (old new local : Text) (t t' : Table Pin)
    → UniqueKeys t
    → rekey old new local t ≡ some t'
    → UniqueKeys t'
unfolding rekey
rekey-UniqueKeys old new local t t' u h =
    ground (arith, replace_row-UniqueKeys old new local t u, replace_row_absent old new local t)

pub find-rekey :
    (old new local j : Text) (t t' : Table Pin)
    → UniqueKeys t
    → rekey old new local t ≡ some t'
    → is_some (find old t) ≡ true
    → find j t'
      ≡ (if same new j then moved local (find old t) else if same old j then none else find j t)
unfolding rekey
find-rekey old new local j t t' u h k = ground (arith, find-replace_row old new local j t u)

module _ (o : Outside) where
  pub rename-rekey :
      (old new local : Text) (s : Store (o.World))
      → ((rename o old new local s).0 ≡ ok tt)
          × (rekey old new local s.db.pins ≡ some (rename o old new local s).1.db.pins)
        ⊎ ((rename o old new local s).0 ≢ ok tt) × ((rename o old new local s).1.db ≡ s.db)
  unfolding rename
  rename-rekey old new local s = ground arith

  pub rename-UniqueKeys :
      (old new local : Text) (s : Store (o.World))
      → UniqueKeys s.db.pins
      → UniqueKeys (rename o old new local s).1.db.pins
  rename-UniqueKeys old new local s u = elim (rename-rekey old new local s) [
    | inl (_, e) ↦ rekey-UniqueKeys old new local s.db.pins _ u e
    | inr (_, e) ↦ rw e u
  ]

  -- A successful `rename` of a pinned path moves its row, with the new local path, to the new key, and
  -- leaves every other row. One that fails leaves the database as it was.
  pub rename_lem :
      (old new local j : Text) (s : Store (o.World))
      → UniqueKeys s.db.pins
      → is_some (find old s.db.pins) ≡ true
      → (((rename o old new local s).0 ≡ ok tt)
          × (find j (rename o old new local s).1.db.pins ≡ (
              if same new j
              then moved local (find old s.db.pins)
              else if same old j
              then none
              else find j s.db.pins)))
        ⊎ (((rename o old new local s).0 ≢ ok tt) × ((rename o old new local s).1.db ≡ s.db))
  rename_lem old new local j s u k = elim (rename-rekey old new local s) [
    | inl (h, e) ↦ inl (h, find-rekey old new local j s.db.pins _ u e k)
    | inr c ↦ inr c
  ]
