-- ===== src/Cache/Stored.antt =====
-- What is read back from the node caches, and what opening an index keeps.
use kio_protondrive.Base.{
  ◌≡◌, ◌≢◌, ◌⊎◌, zero, suc, inl, inr, refl, arith, ℕ, ltb, Text, Option, none, some, [], ◌∷◌, List,
  Result, ok, err, Bool, true, false, if◌then◌else◌, resume, ◌>>=◌, pure,
}
use kio_protondrive.Table.{Table, find, upsert}
use kio_protondrive.Table.Laws.{find-upsert}
use kio_protondrive.Outside.{Outside, DriveError, Json}
use kio_protondrive.Entry.{NodeEntry}
use kio_protondrive.Store.{Store, Db, Payload, execute, look}
use kio_protondrive.Store.Keeps.{
  Keeps, keeps_rules, Keeps-execute, Keeps-bind, Keeps-query, execute-db,
}
use kio_protondrive.Cache.Nodes
use kio_protondrive.Cli.Answer.{parsed}

-- What is written is read back: serde's promise for the type.
abbrev pub IsFaithful : {A : Type 0} → Json A → Type 0
IsFaithful {A} j = (a : A) (t : Text) → j.write a ≡ ok t → j.read t ≡ ok a

module _ (o : Outside) where
  store_stat-stats :
      (path : Text) (n : NodeEntry) (s : Store (o.World))
      → (Nodes.store_stat o path n s).0 ≡ ok tt
      → (t : Text) × (o.node_json.write n ≡ ok t)
        × ((Nodes.store_stat o path n s).1.db.stats
            ≡ upsert path (record { json = t; fetched_at = o.now s.world }) s.db.stats)
  unfolding Nodes.store_stat
  store_stat-stats path n s h = ground arith

  cached_stat-value :
      (path : Text) (t : Text) (p : Payload) (n : NodeEntry) (s : Store (o.World))
      (r : Option NodeEntry)
      → find path s.db.stats ≡ some p
      → o.node_json.read p.json ≡ ok n
      → (Nodes.cached_stat o path s).0 ≡ ok r
      → r ≡ some n
  unfolding Nodes.cached_stat
  cached_stat-value path t p n s r f e h = ground arith

  -- Where both run, a stat is read back from the cache as it was stored.
  pub cached_stat-store_stat :
      IsFaithful (o.node_json)
      → (path : Text) (n : NodeEntry) (s : Store (o.World)) (r : Option NodeEntry)
      → (Nodes.store_stat o path n s).0 ≡ ok tt
      → (Nodes.cached_stat o path (Nodes.store_stat o path n s).1).0 ≡ ok r
      → r ≡ some n
  cached_stat-store_stat faithful path n s r h k =
      let (t, w, e) = store_stat-stats path n s h in
      cached_stat-value path t (record { json = t; fetched_at = o.now s.world }) n
        (Nodes.store_stat o path n s).1 r
        (rw e (
          ground (
            arith,
            find-upsert path path (record { json = t; fetched_at = o.now s.world }) s.db.stats,
          )))
        (faithful n t w) k

  abbrev HasListings : Table Payload → Db → Type 0
  HasListings l db = db.listings ≡ l

  store_stat-Keeps :
      (path : Text) (n : NodeEntry) (l : Table Payload)
      → Keeps o (HasListings l) (Nodes.store_stat o path n)
  unfolding Nodes.store_stat
  store_stat-Keeps path n l = search (keeps_rules, Keeps-execute)

  store_children-Keeps :
      (path : Text) (ns : List NodeEntry) (l : Table Payload)
      → Keeps o (HasListings l) (Nodes.store_children o path ns)
  unfolding Nodes.store_children
  store_children-Keeps path [] l = search keeps_rules
  store_children-Keeps path (n ∷ ns) l =
      Keeps-bind (store_stat-Keeps _ n l) λ _. store_children-Keeps path ns l

  abbrev ListedAt : Text → List NodeEntry → ℕ → Table Payload → Table Payload → Type 0
  ListedAt path ns now before after =
      (t : Text) × (o.nodes_json.write ns ≡ ok t)
      × (after ≡ upsert path (record { json = t; fetched_at = now }) before)

  abbrev list_json : Text → Text → ℕ → Db → Db
  list_json path t now db = record db {
    listings = upsert path (record { json = t; fetched_at = now }) db.listings;
  }

  children-listings :
      (path : Text) (ns : List NodeEntry) (l : Table Payload)
      → (r : Result (Unit {0}) DriveError × Store (o.World))
      → ((r.0 ≡ ok tt) × (HasListings l r.1.db)) ⊎ ((r.0 ≢ ok tt) × Unit {0})
      → (resume r (λ _. Nodes.store_children o path ns)).0 ≡ ok tt
      → HasListings l (resume r (λ _. Nodes.store_children o path ns)).1.db
  children-listings path ns l (ok _, s) (inl (_, e)) h = (store_children-Keeps path ns l).holds s e
  children-listings path ns l (ok _, s) (inr (n, _)) h = absurd (n refl)
  children-listings path ns l (err m, s) c h = absurd (cc)

  store_listing-listings :
      (path : Text) (ns : List NodeEntry) (s : Store (o.World))
      → (Nodes.store_listing o path ns s).0 ≡ ok tt
      → ListedAt path ns
          (o.now s.world)
          s.db.listings
          (Nodes.store_listing o path ns s).1.db.listings
  unfolding Nodes.store_listing look
  store_listing-listings path ns s h = go (o.nodes_json.write ns) refl h
    where
      go :
          (w : Result Text Text)
          → o.nodes_json.write ns ≡ w
          → (resume
              (parsed w, s)
              (λ t. look o o.now >>= λ now.
                execute o (list_json path t now) >>= λ _. Nodes.store_children o path ns)).0
            ≡ ok tt
          → ListedAt path ns
              (o.now s.world)
              s.db.listings
              (resume
                (parsed w, s)
                (λ t. look o o.now >>= λ now. execute o (list_json path t now) >>= λ _.
                  Nodes.store_children o path ns)).1.db.listings
      go (ok t) e k = (
        t,
        e,
        children-listings path ns _ (execute o (list_json path t (o.now s.world)) s)
            (elim (execute-db o (list_json path t (o.now s.world)) s) [
              | inl (h, e) ↦ inl (h, rw e refl)
              | inr (h, e) ↦ inr (h, tt)
            ])
            k,
      )
      go (err m) e k = absurd (cc)

  pub set_up-Keeps : (I : Db → Type 0) (n : ℕ) → Keeps o I (Nodes.set_up o n)
  unfolding Nodes.set_up
  set_up-Keeps I zero = search keeps_rules
  set_up-Keeps I (suc n) = Keeps-bind (Keeps-execute _ λ db h. h) λ _. set_up-Keeps I n

  pub make_parent-Keeps : (I : Db → Type 0) (d : Option Text) → Keeps o I (Nodes.make_parent o d)
  unfolding Nodes.make_parent Nodes.make_dir
  make_parent-Keeps I none = search keeps_rules
  make_parent-Keeps I (some d) = search keeps_rules

  migrate-Keeps :
      (I : Db → Type 0)
      → ((db : Db) → I db → I (Nodes.empty_node_caches db))
      → (version : ℕ) → Keeps o I (Nodes.migrate o version)
  unfolding Nodes.migrate
  migrate-Keeps I k version = either (ltb version Nodes.node_cache_version)
    where
      either : (b : Bool) → Keeps o I (if b then execute o Nodes.empty_node_caches else pure tt)
      either true = Keeps-execute _ k
      either false = search keeps_rules

  -- The end of `open_at`: the connection knows its root.
  rooted-Keeps :
      (I : Db → Type 0) (root : Text)
      → Keeps o I {A = Unit {0}} (λ s. (ok tt, record s { root = root }))
  rooted-Keeps I root = record { holds = λ s h. h }

  pub open_at-Keeps :
      (I : Db → Type 0)
      → ((db : Db) → I db → I (Nodes.empty_node_caches db))
      → (folder : Option Text) (root : Text) → Keeps o I (Nodes.open_at o folder root)
  unfolding Nodes.open_at Nodes.make_dir
  open_at-Keeps I k folder root = Keeps-bind (make_parent-Keeps I folder) λ _.
      Keeps-bind (search keeps_rules) λ _. Keeps-bind (set_up-Keeps I 8) λ _.
        Keeps-bind (Keeps-query (λ db. db.user_version))
          λ version. Keeps-bind (migrate-Keeps I k version) λ _. rooted-Keeps I root

  abbrev HasFiles : Db → Db → Type 0
  HasFiles old db = (db.pins ≡ old.pins) × (db.cached_files ≡ old.cached_files)

  -- Opening an index keeps its pins and cached files, whether it succeeds or not and whether or not
  -- its version is an old one.
  pub open_at_keeps :
      (folder : Option Text) (root : Text) (s : Store (o.World))
      → ((Nodes.open_at o folder root s).1.db.pins ≡ s.db.pins)
        × ((Nodes.open_at o folder root s).1.db.cached_files ≡ s.db.cached_files)
  open_at_keeps folder root s =
      (open_at-Keeps (HasFiles s.db) (λ db h. unfold Nodes.empty_node_caches in h) folder
          root).holds
        s (refl, refl)

  cached_listing-value :
      (path : Text) (p : Payload) (ns : List NodeEntry) (s : Store (o.World))
      (r : Option (List NodeEntry))
      → find path s.db.listings ≡ some p
      → o.nodes_json.read p.json ≡ ok ns
      → (Nodes.cached_listing o path s).0 ≡ ok r
      → r ≡ some ns
  unfolding Nodes.cached_listing
  cached_listing-value path p ns s r f e h = ground arith

  -- Where both run, a listing is read back from the cache as it was stored, whatever the stats of its
  -- children.
  pub cached_listing-store_listing :
      IsFaithful (o.nodes_json)
      → (path : Text) (ns : List NodeEntry) (s : Store (o.World)) (r : Option (List NodeEntry))
      → (Nodes.store_listing o path ns s).0 ≡ ok tt
      → (Nodes.cached_listing o path (Nodes.store_listing o path ns s).1).0 ≡ ok r
      → r ≡ some ns
  cached_listing-store_listing faithful path ns s r h k =
      let (t, w, e) = store_listing-listings path ns s h in
      cached_listing-value path (record { json = t; fetched_at = o.now s.world }) ns
        (Nodes.store_listing o path ns s).1 r
        (rw e (
          ground (
            arith,
            find-upsert path path (record { json = t; fetched_at = o.now s.world }) s.db.listings,
          )))
        (faithful ns t w) k
