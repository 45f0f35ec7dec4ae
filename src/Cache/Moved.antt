-- ===== src/Cache/Moved.antt =====
-- What `rename_tree` of core/src/cache.rs leaves alone.
use mathlib.Core.Path.{subst}
use kio_protondrive.Base.{
  ◌≡◌, inl, inr, ◌⊎◌, refl, sym, ap, ◌∙◌, arith, Text, same, Bool, true, false, Option, none, some,
  [], ◌∷◌, ◌++◌, List, Result, ok, err, resume, append_assoc, append-nil, starts_with,
  trim_end_matches, pure, fail, ◌>>=◌, Bool-cases,
}
use kio_protondrive.Table.{find, UniqueKeys}
use kio_protondrive.Outside.{Outside, DriveError, Io, done, missing, failed, io}
use kio_protondrive.Store.{Store, Db, Pin}
use kio_protondrive.Store.Keeps.{
  Keeps, keeps_rules, Keeps-bind, Keeps-outside, query-db, query-value,
}
use kio_protondrive.Cache.Pins
use kio_protondrive.Cache.Pins.{in_tree, rows_in_tree, after}
use kio_protondrive.Cache.Paths
use kio_protondrive.Cache.Paths.{path_join}
use kio_protondrive.Cache.Renamed.{rename-UniqueKeys}
use kio_protondrive.Cache.Thinned.{AllKeys, rows_in_tree-AllKeys}
use kio_protondrive.Cache.Trees.{starts_with_rest}
use kio_protondrive.Cache.Under.{IsAtOrBelow}
use kio_protondrive.Cache.Spec
use kio_protondrive.Cache.Client.{Does-at}
use kio_protondrive.Cache.Refines.{rename-Does}

module _ {o : Outside} {I : Db → Type 0} where
  some_or_fail-Keeps :
      (e : DriveError) (name : Option Text) → Keeps o I (Pins.some_or_fail o e name)
  some_or_fail-Keeps e none = search keeps_rules
  some_or_fail-Keeps e (some a) = search keeps_rules

  make_target_dir-Keeps :
      (path : Text) (dir : Option Text) → Keeps o I (Paths.make_target_dir o path dir)
  unfolding Paths.make_target_dir
  make_target_dir-Keeps path none = search keeps_rules
  make_target_dir-Keeps path (some dir) = search keeps_rules

  target_dir_for-Keeps : (path : Text) → Keeps o I (Paths.target_dir_for o path)
  unfolding Paths.target_dir_for
  target_dir_for-Keeps path = search (keeps_rules, make_target_dir-Keeps)

  move_local-Keeps :
      (old new from to : Text)
      → Keeps o I (Pins.rename o new old from)
      → Keeps o I (Pins.move_local o old new from to)
  unfolding Pins.move_local
  move_local-Keeps old new from to back =
      Keeps-bind (Keeps-outside (λ w. let (r, w') = o.rename_file from to w in (ok r, w')))
        after_move
    where
      after_move :
          (r : Io (Unit {0}))
          → Keeps o I (elim r [
            | done _ ↦ pure tt
            | missing _ ↦ pure tt
            | failed m ↦ (Pins.rename o new old from >>= λ _. fail (io m))
          ])
      after_move (done _) = search keeps_rules
      after_move (missing _) = search keeps_rules
      after_move (failed m) = Keeps-bind back λ _. search keeps_rules

module _ (o : Outside) (I : Db → Type 0) where
  -- What both directions of a row's rename keep.
  abbrev pub MayMove : Text → Text → Text → Type 0
  MayMove old new remote =
      (local : Text)
      → Keeps o I (Pins.rename o remote (new ++ after old remote) local)
        × Keeps o I (Pins.rename o (new ++ after old remote) remote local)

  rename_row-Keeps :
      (old new remote local : Text)
      → MayMove old new remote
      → Keeps o I (Pins.rename_row o old new (remote, local))
  unfolding Pins.rename_row
  rename_row-Keeps old new remote local k = Keeps-bind (some_or_fail-Keeps _ _) λ name.
      Keeps-bind (target_dir_for-Keeps (new ++ after old remote)) λ dir.
        Keeps-bind (k (path_join dir name)).0 λ _.
          move_local-Keeps remote (new ++ after old remote) local (path_join dir name) (k local).1

  rename_each-Keeps :
      (p : Text → Bool) (old new : Text) (rows : List (Text × Text))
      → ((remote : Text) → p remote ≡ true → MayMove old new remote)
      → AllKeys p rows
      → Keeps o I (Pins.rename_each o old new rows)
  unfolding Pins.rename_each
  rename_each-Keeps p old new [] k a = search keeps_rules
  rename_each-Keeps p old new ((remote, local) ∷ rows) k (h, a) =
      Keeps-bind (rename_row-Keeps old new remote local (k remote h))
        λ _. rename_each-Keeps p old new rows k a

  each_found :
      (p : Text → Bool) (old new : Text) (db : Db)
      → ((remote : Text) → p remote ≡ true → MayMove old new remote)
      → I db
      → (r : Result (List (Text × Text)) DriveError × Store (o.World)) → r.1.db ≡ db
      → ((a : List (Text × Text)) → r.0 ≡ ok a → a ≡ rows_in_tree p db.pins)
      → I (resume r (Pins.rename_each o old new)).1.db
  each_found p old new db k h (ok rows, s) e v =
      (rename_each-Keeps p old new rows k
          (subst (AllKeys p) (sym (v rows refl)) (rows_in_tree-AllKeys p db.pins))).holds
        s (subst I (sym e) h)
  each_found p old new db k h (err m, s) e v = subst I (sym e) h

  -- What `rename_tree` keeps.
  pub rename_tree-Keeps :
      (old new : Text)
      → ((remote : Text)
          → in_tree (trim_end_matches b'/' old) (trim_end_matches b'/' old ++ b'/' ∷ []) remote
            ≡ true
          → MayMove (trim_end_matches b'/' old) (trim_end_matches b'/' new) remote)
      → Keeps o I (Pins.rename_tree o old new)
  unfolding Pins.rename_tree
  rename_tree-Keeps old new k =
      let base = trim_end_matches b'/' old in
      let p = in_tree base (base ++ b'/' ∷ []) in
      record {
        holds = λ s h.
            each_found p base (trim_end_matches b'/' new) s.db k h _
              (query-db o (λ db. rows_in_tree p db.pins) s)
              (query-value o (λ db. rows_in_tree p db.pins) s);
      }

after-prefix : (pre rest : Text) → after pre (pre ++ rest) ≡ rest
unfolding after
after-prefix [] rest = refl
after-prefix (c ∷ pre) rest = after-prefix pre rest

same_text : {r q : Text} → same r q ≡ true → r ≡ q
same_text h = ground arith

-- What the rows of a tree have for keys.
row_below :
    (old remote : Text)
    → in_tree old (old ++ b'/' ∷ []) remote ≡ true
    → (remote ≡ old) ⊎ ((rest : Text) × (remote ≡ old ++ b'/' ∷ rest))
unfolding in_tree
row_below old remote h = elim (Bool-cases (starts_with remote (old ++ b'/' ∷ []))) [
  | inl e ↦
      let (rest, k) = starts_with_rest remote (old ++ b'/' ∷ []) e in
      inr (rest, k ∙ append_assoc old (b'/' ∷ []) rest)
  | inr e ↦ inl (ground arith)
]

below_new :
    (old new remote : Text)
    → (remote ≡ old) ⊎ ((rest : Text) × (remote ≡ old ++ b'/' ∷ rest))
    → IsAtOrBelow new (new ++ after old remote)
below_new old new remote (inl e) = inl (
    ap (λ r. new ++ after old r) (e ∙ sym (append-nil old))
    ∙ ap (λ r. new ++ r) (after-prefix old [])
    ∙ append-nil new)
below_new old new remote (inr (rest, e)) = inr (
    inl
      (rest, ap (λ r. new ++ after old r) e ∙ ap (λ r. new ++ r) (after-prefix old (b'/' ∷ rest))))

below_old :
    (old remote : Text)
    → (remote ≡ old) ⊎ ((rest : Text) × (remote ≡ old ++ b'/' ∷ rest))
    → IsAtOrBelow old remote
below_old old remote (inl e) = inl e
below_old old remote (inr (rest, e)) = inr (inl (rest, e))

not_same : (path k j : Text) → ¬ IsAtOrBelow path k → IsAtOrBelow path j → same j k ≡ false
not_same path k j n u = elim (Bool-cases (same j k)) [
  | inl e ↦ absurd (n (subst (λ (x : Text). IsAtOrBelow path x) (same_text e) u))
  | inr e ↦ e
]

module _ (o : Outside) (key : Text) (x : Option Pin) where
  -- One row for each remote path, and this one of the key.
  abbrev HasRow : Db → Type 0
  HasRow db = UniqueKeys db.pins × (find key db.pins ≡ x)

  rename-HasRow :
      (old new local : Text)
      → same old key ≡ false
      → same new key ≡ false
      → Keeps o HasRow (Pins.rename o old new local)
  rename-HasRow old new local h h' = record {
    holds = λ s (u, e). (
      rename-UniqueKeys o old new local s u,
      Does-at key (Spec.rename old new local) _ _ _ _ (h, h') (rename-Does o old new local s u) ∙ e,
    );
  }

-- On a database with one row for each remote path, `rename_tree`, whether it succeeds or stops half-way,
-- leaves the pin of every path that is neither at or below the old path nor at or below the new one, both
-- without the slashes at their ends.
pub rename_tree_leaves :
    (o : Outside) (old new key : Text) (s : Store (o.World))
    → UniqueKeys s.db.pins
    → ¬ IsAtOrBelow (trim_end_matches b'/' old) key
    → ¬ IsAtOrBelow (trim_end_matches b'/' new) key
    → find key (Pins.rename_tree o old new s).1.db.pins ≡ find key s.db.pins
rename_tree_leaves o old new key s u n n' =
    let a = trim_end_matches b'/' old in
    let b = trim_end_matches b'/' new in
    ((rename_tree-Keeps o (HasRow o key (find key s.db.pins)) old new λ remote h local.
        let c = row_below a remote h in
        let x = not_same a key remote n (below_old a remote c) in
        let y = not_same b key (b ++ after a remote) n' (below_new a b remote c) in
        (
          rename-HasRow o key (find key s.db.pins) remote (b ++ after a remote) local x y,
          rename-HasRow o key (find key s.db.pins) (b ++ after a remote) remote local y x,
        )).holds
      s (u, refl)).1
