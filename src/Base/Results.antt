-- ===== src/Base/Results.antt =====
-- Rust's `Result`, and code that reads and writes a state and may return early through `?`.

pub data Result {ℓ} (A E : Type ℓ) : Type ℓ where
  ok : A → Result A E
  err : E → Result A E

abbrev pub map_err {ℓ} : {A E F : Type ℓ} → (E → F) → Result A E → Result A F
map_err f (ok a) = ok a
map_err f (err e) = err (f e)

-- `?` on a result
abbrev pub and_then {ℓ} : {A : Type ℓ} {B E : Type ℓ} → Result A E → (A → Result B E) → Result B E
and_then (ok a) f = f a
and_then (err e) f = err e

-- What an action wrote before it failed stays written.
abbrev pub Action : Type 0 → Type 0 → Type 0 → Type 0
Action S A E = S → Result A E × S

module _ {S A E : Type 0} where
  abbrev pub pure : A → Action S A E
  pure a s = (ok a, s)

  abbrev pub fail : E → Action S A E
  fail e s = (err e, s)

  abbrev pub lift : Result A E → Action S A E
  lift r s = (r, s)

  -- The result of an action as a value, for a `match` on it or for `let _ = …`.
  abbrev pub attempt : Action S A E → Action S (Result A E) E
  attempt m s = let (r, t) = m s in (ok r, t)

module _ {S A B E : Type 0} where
  abbrev pub resume : Result A E × S → (A → Action S B E) → Result B E × S
  resume (ok a, s) f = f a s
  resume (err e, s) f = (err e, s)

  infixl 5 ◌>>=◌ ◌>>◌
  abbrev pub ◌>>=◌ : Action S A E → (A → Action S B E) → Action S B E
  ◌>>=◌ m f s = resume (m s) f

  abbrev pub ◌>>◌ : Action S A E → Action S B E → Action S B E
  m >> n = m >>= λ _. n
