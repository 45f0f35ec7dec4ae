-- ===== src/Table.antt =====
-- An SQLite table with a text primary key, and the statements that the program runs on one.
pub mod Laws
use kio_protondrive.Base.{Text, same, Bool, Option, none, some, List, [], ◌∷◌, ◌≡◌, if◌then◌else◌}

abbrev pub Table {ℓ} : Type ℓ → Type ℓ
Table V = List (Text × V)

module _ {ℓ} {V : Type ℓ} where
  -- `SELECT … WHERE key = ?`
  unfoldable pub find : Text → Table V → Option V
  find k [] = none
  find k ((j, v) ∷ t) = if same j k then some v else find k t

  -- `INSERT … ON CONFLICT(key) DO UPDATE SET` every other column
  unfoldable pub upsert : Text → V → Table V → Table V
  upsert k v [] = (k, v) ∷ []
  upsert k v ((j, w) ∷ t) = if same j k then (k, v) ∷ t else (j, w) ∷ upsert k v t

  -- `DELETE … WHERE` a condition on the key
  unfoldable pub delete_where : (Text → Bool) → Table V → Table V
  delete_where p [] = []
  delete_where p ((j, w) ∷ t) = let rest = delete_where p t in if p j then rest else (j, w) ∷ rest

  -- `DELETE … WHERE key = ?`
  unfoldable pub delete : Text → Table V → Table V
  unfolding delete_where
  delete k = delete_where (λ j. same j k)

  -- `UPDATE … SET` other columns `WHERE key = ?`
  unfoldable pub update : Text → (V → V) → Table V → Table V
  update k f [] = []
  update k f ((j, w) ∷ t) = if same j k then (j, f w) ∷ t else (j, w) ∷ update k f t

  -- `SELECT key FROM …`
  unfoldable pub keys : Table V → List Text
  keys [] = []
  keys ((j, _) ∷ t) = j ∷ keys t

  -- `SELECT key FROM … WHERE` a condition on the row
  unfoldable pub keys_where : (Text → V → Bool) → Table V → List Text
  keys_where p [] = []
  keys_where p ((j, w) ∷ t) = let rest = keys_where p t in if p j w then j ∷ rest else rest

  -- What `PRIMARY KEY` promises: no key stands in two rows.
  abbrev pub UniqueKeys : Table V → Type ℓ
  UniqueKeys [] = Unit
  UniqueKeys ((k, _) ∷ t) = (find k t ≡ none) × UniqueKeys t
