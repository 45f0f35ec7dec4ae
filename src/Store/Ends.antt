-- ===== src/Store/Ends.antt =====
-- What the result of an action says of the database before and behind it, where all but its last
-- statement only read.
use mathlib.Core.Path.{subst}
use kio_protondrive.Base.{Result, ok, err, resume, ◌>>=◌, ◌≡◌, refl, sym}
use kio_protondrive.Outside.{Outside, DriveError}
use kio_protondrive.Store.{Store, Db, Op}
use kio_protondrive.Store.Keeps.{Keeps}

pub record Ends (o : Outside) {A : Type 0} (Q : Result A DriveError → Db → Db → Type 0) (m : Op o A)
    : Type 0 where
  pub holds : (s : Store (o.World)) → Q (m s).0 s.db (m s).1.db

-- The database is as it was, whatever the action gives.
pub record Reads (o : Outside) {A : Type 0} (m : Op o A) : Type 0 where
  pub same_db : (c : Db) → Keeps o (λ db. db ≡ c) m

module _ {o : Outside} {A B : Type 0} {Q : Result B DriveError → Db → Db → Type 0} where
  resume-Q :
      (f : A → Op o B) (before : Db) (r : Result A DriveError × Store (o.World))
      → ((e : DriveError) → Q (err e) before before)
      → ((a : A) → Ends o Q (f a))
      → r.1.db ≡ before
      → Q (resume r f).0 before (resume r f).1.db
  resume-Q f before (ok a, s) q k e = subst (λ db. Q (f a s).0 db (f a s).1.db) e ((k a).holds s)
  resume-Q f before (err m, s) q k e = subst (λ db. Q (err m) before db) (sym e) (q m)

  pub Ends-bind :
      {m : Op o A} {f : A → Op o B}
      → Reads o m
      → ((e : DriveError) (db : Db) → Q (err e) db db)
      → ((a : A) → Ends o Q (f a))
      → Ends o Q (m >>= f)
  Ends-bind {m = m} {f = f} r q k = record {
    holds = λ s. resume-Q f s.db (m s) (λ e. q e s.db) k ((r.same_db s.db).holds s refl);
  }
