-- ===== src/Daemon/Cooldown.antt =====
-- `claim_revalidation` of daemon/src/fs_refresh.rs.
use kio_protondrive.Base.{
  ◌≡◌, refl, arith, ℕ, ◌+◌, ◌-◌, ltb, Text, Option, none, some, [], ◌∷◌, not, true, if◌then◌else◌,
}
use kio_protondrive.Table.{Table, find, UniqueKeys}
use kio_protondrive.Table.Laws.{find-upsert, upsert-UniqueKeys}
use kio_protondrive.Daemon.Refresh.{claim_revalidation, forget_old, revalidate_cooldown}
use kio_protondrive.Cache.Pins.{is_some}

abbrev if_recent : ℕ → Option ℕ → Option ℕ
if_recent now none = none
if_recent now (some at) = if ltb (now - at) revalidate_cooldown then some at else none

forget_old-fresh :
    (now : ℕ) (k : Text) (t : Table ℕ) → find k t ≡ none → find k (forget_old now t) ≡ none
unfolding find forget_old
forget_old-fresh now k [] h = refl
forget_old-fresh now k ((j, at) ∷ t) h = ground (arith, forget_old-fresh now k t)

find-forget_old :
    (now : ℕ) (k : Text) (t : Table ℕ)
    → UniqueKeys t
    → find k (forget_old now t) ≡ if_recent now (find k t)
unfolding find forget_old
find-forget_old now k [] u = refl
find-forget_old now k ((j, at) ∷ t) (fresh, u) =
    ground (arith, find-forget_old now k t u, forget_old-fresh now k t)

forget_old-UniqueKeys : (now : ℕ) (t : Table ℕ) → UniqueKeys t → UniqueKeys (forget_old now t)
unfolding forget_old
forget_old-UniqueKeys now [] u = u
forget_old-UniqueKeys now ((j, at) ∷ t) (fresh, u) =
    ground (arith, forget_old-UniqueKeys now t u, forget_old-fresh now j t)

-- A claim keeps the table's key.
pub claim_revalidation-UniqueKeys :
    (p : Text) (now : ℕ) (last : Table ℕ)
    → UniqueKeys last
    → UniqueKeys (claim_revalidation p now last).1
unfolding claim_revalidation
claim_revalidation-UniqueKeys p now last u = ground (
  arith,
  forget_old-UniqueKeys now last u,
  upsert-UniqueKeys p now (forget_old now last) (forget_old-UniqueKeys now last u),
)

claimed :
    (p : Text) (now : ℕ) (last : Table ℕ)
    → (claim_revalidation p now last).0 ≡ true
    → find p (claim_revalidation p now last).1 ≡ some now
unfolding claim_revalidation
claimed p now last h = ground (arith, find-upsert p p now (forget_old now last))

claim_revalidation-due :
    (p : Text) (now : ℕ) (last : Table ℕ)
    → UniqueKeys last
    → (claim_revalidation p now last).0 ≡ not (is_some (if_recent now (find p last)))
unfolding claim_revalidation
claim_revalidation-due p now last u = ground (arith, find-forget_old now p last u)

-- A folder that was granted a revalidation is granted another one exactly from the end of the
-- cooldown on.
pub claim_revalidation_twice :
    (p : Text) (now later : ℕ) (last : Table ℕ)
    → UniqueKeys last
    → (claim_revalidation p now last).0 ≡ true
    → (claim_revalidation p later (claim_revalidation p now last).1).0
      ≡ not (ltb later (now + revalidate_cooldown))
claim_revalidation_twice p now later last u granted = ground (
  arith,
  claimed p now last granted,
  claim_revalidation-due p later (claim_revalidation p now last).1
      (claim_revalidation-UniqueKeys p now last u),
)
