-- ===== src/Store/Keeps.antt =====
-- Actions that keep a condition on the database, put together from their parts.
use kio_protondrive.Base.{
  ◌≢◌, ◌⊎◌, inl, inr, Option-cases, Result, ok, err, pure, fail, lift, attempt, resume, ◌>>=◌,
  Action, ◌≡◌, refl, arith,
}
use kio_protondrive.Outside.{Outside, DriveError}
use kio_protondrive.Store.{Store, Db, Op, query, execute, outside, look, root_of}

-- Whatever the action gives, the condition holds behind it where it held before.
pub record Keeps (o : Outside) (I : Db → Type 0) {A : Type 0} (m : Op o A) : Type 0 where
  pub holds : (s : Store (o.World)) → I s.db → I (m s).1.db

module _ (o : Outside) where
  pub query-db : {A : Type 0} (f : Db → A) (s : Store (o.World)) → (query o f s).1.db ≡ s.db
  unfolding query
  query-db f s = ground arith

  pub query-value :
      {A : Type 0} (f : Db → A) (s : Store (o.World)) (a : A) → (query o f s).0 ≡ ok a → a ≡ f s.db
  unfolding query
  query-value f s a h = ground arith

  pub query-root : {A : Type 0} (f : Db → A) (s : Store (o.World)) → (query o f s).1.root ≡ s.root
  unfolding query
  query-root f s = ground arith

  -- A statement that writes is run as a whole or not at all.
  pub execute-db :
      (f : Db → Db) (s : Store (o.World))
      → (((execute o f s).0 ≡ ok tt) × ((execute o f s).1.db ≡ f s.db))
        ⊎ (((execute o f s).0 ≢ ok tt) × ((execute o f s).1.db ≡ s.db))
  unfolding execute
  execute-db f s = elim (Option-cases (o.db_error s.world).0) [
    | inl e ↦ rw (e, execute) (inl (refl, refl))
    | inr (m, e) ↦ rw (e, execute) (inr ((λ h. ground arith), refl))
  ]

module _ {o : Outside} {I : Db → Type 0} where
  open o use {World}

  pub Keeps-pure : {A : Type 0} (a : A) → Keeps o I (pure a)
  Keeps-pure a = record { holds = λ s h. h }

  pub Keeps-fail : {A : Type 0} (e : DriveError) → Keeps o I {A = A} (fail e)
  Keeps-fail e = record { holds = λ s h. h }

  pub Keeps-lift : {A : Type 0} (r : Result A DriveError) → Keeps o I (lift r)
  Keeps-lift r = record { holds = λ s h. h }

  pub Keeps-look : {A : Type 0} (f : World → A) → Keeps o I (look o f)
  unfolding look
  Keeps-look f = record { holds = λ s h. h }

  pub Keeps-root_of : Keeps o I (root_of o)
  unfolding root_of
  Keeps-root_of = record { holds = λ s h. h }

  pub Keeps-outside : {A : Type 0} (m : Action World A DriveError) → Keeps o I (outside o m)
  unfolding outside
  Keeps-outside m = record { holds = λ s h. h }

  pub Keeps-query : {A : Type 0} (f : Db → A) → Keeps o I (query o f)
  Keeps-query f = record { holds = λ s h. rw (query-db o f s) h }

  pub Keeps-execute : (f : Db → Db) → ((db : Db) → I db → I (f db)) → Keeps o I (execute o f)
  Keeps-execute f k = record {
    holds = λ s h. elim (execute-db o f s) [ inl (_, e) ↦ rw e (k s.db h) | inr (_, e) ↦ rw e h ];
  }

  resume-I :
      {A B : Type 0} (f : A → Op o B) (r : Result A DriveError × Store World)
      → ((a : A) → Keeps o I (f a))
      → I r.1.db
      → I (resume r f).1.db
  resume-I f (ok a, s) k h = (k a).holds s h
  resume-I f (err e, s) k h = h

  pub Keeps-bind :
      {A B : Type 0} {m : Op o A} {f : A → Op o B}
      → Keeps o I m
      → ((a : A) → Keeps o I (f a))
      → Keeps o I (m >>= f)
  Keeps-bind {m = m} {f = f} km kf = record { holds = λ s h. resume-I f (m s) kf (km.holds s h) }

  pub Keeps-attempt : {A : Type 0} {m : Op o A} → Keeps o I m → Keeps o I (attempt m)
  Keeps-attempt km = record { holds = λ s h. km.holds s h }

pub ruleset keeps_rules = (
  Keeps-pure, Keeps-fail, Keeps-lift, Keeps-look, Keeps-root_of, Keeps-outside, Keeps-query,
  Keeps-bind, Keeps-attempt,
)
