-- ===== src/Table/Laws.antt =====
-- What a lookup gives after each statement, and that the statements keep the key primary.
use mathlib.Core.Option
use kio_protondrive.Base.{Text, same, Bool, none, some, [], ◌∷◌, ◌≡◌, refl, arith, if◌then◌else◌}
use kio_protondrive.Table.{Table, find, upsert, delete_where, delete, update, UniqueKeys}

module _ {ℓ} {V : Type ℓ} where
  pub find-upsert :
      (k j : Text) (v : V) (t : Table V)
      → find j (upsert k v t) ≡ (if same k j then some v else find j t)
  unfolding find upsert
  find-upsert k j v [] = refl
  find-upsert k j v (_ ∷ t) = ground (arith, find-upsert k j v t)

  pub find-delete_where :
      (p : Text → Bool) (j : Text) (t : Table V)
      → find j (delete_where p t) ≡ (if p j then none else find j t)
  unfolding find delete_where
  find-delete_where p j [] = ground arith
  find-delete_where p j (_ ∷ t) = ground (arith, find-delete_where p j t)

  pub find-delete :
      (k j : Text) (t : Table V) → find j (delete k t) ≡ (if same j k then none else find j t)
  unfolding delete
  find-delete k j t = find-delete_where (λ i. same i k) j t

  pub find-update :
      (k j : Text) (f : V → V) (t : Table V)
      → find j (update k f t) ≡ (if same k j then Option.map f (find j t) else find j t)
  unfolding find update
  find-update k j f [] = ground arith
  find-update k j f (_ ∷ t) = ground (arith, find-update k j f t)

  pub upsert-UniqueKeys :
      (k : Text) (v : V) (t : Table V) → UniqueKeys t → UniqueKeys (upsert k v t)
  unfolding upsert
  upsert-UniqueKeys k v [] _ = unfold find in (refl, tt)
  upsert-UniqueKeys k v ((j, _) ∷ t) (fresh, u) =
      ground (arith, upsert-UniqueKeys k v t u, find-upsert k j v t)

  pub delete_where-UniqueKeys :
      (p : Text → Bool) (t : Table V) → UniqueKeys t → UniqueKeys (delete_where p t)
  unfolding delete_where
  delete_where-UniqueKeys p [] u = u
  delete_where-UniqueKeys p ((j, _) ∷ t) (fresh, u) =
      ground (arith, delete_where-UniqueKeys p t u, find-delete_where p j t)

  pub delete-UniqueKeys : (k : Text) (t : Table V) → UniqueKeys t → UniqueKeys (delete k t)
  unfolding delete
  delete-UniqueKeys k t u = delete_where-UniqueKeys _ t u

  pub update-UniqueKeys :
      (k : Text) (f : V → V) (t : Table V) → UniqueKeys t → UniqueKeys (update k f t)
  unfolding update
  update-UniqueKeys k f [] u = u
  update-UniqueKeys k f ((j, _) ∷ t) (fresh, u) =
      ground (arith, update-UniqueKeys k f t u, find-update k j f t)
