-- ===== src/Bridge/Badge.antt =====
-- The shared badge of core/src/bridge.rs behind a change of the sharing.
use mathlib.Core.Path.{subst}
use kio_protondrive.Base.{
  ◌≡◌, ltb, refl, sym, arith, ◌||◌, Text, Option, some, Result, ok, err, Bool, false, resume,
  attempt, ◌>>=◌,
}
use kio_protondrive.Table.{find}
use kio_protondrive.Table.Laws.{find-upsert}
use kio_protondrive.Outside.{Outside, DriveError}
use kio_protondrive.Entry.{NodeEntry}
use kio_protondrive.Store.{Store, Db, Payload, Op, execute, query, outside, look}
use kio_protondrive.Store.Keeps.{keeps_rules}
use kio_protondrive.Store.Ends.{Ends, Ends-bind}
use kio_protondrive.Cache.Nodes.{
  open_at, migrate, make_dir, empty_node_caches, node_cache_version, store_stat, cached_stat,
}
use kio_protondrive.Cache.Stored.{IsFaithful, set_up-Keeps, make_parent-Keeps}
use kio_protondrive.Cli.Commands
use kio_protondrive.Bridge.Entries.{Places, open_cache, with_cache, if_open}
use kio_protondrive.Bridge.Trashed.{IsWorking, open_cache-ok}
use kio_protondrive.Bridge.Reads.{lookup_shared}
use kio_protondrive.Bridge.Shares.{refresh_stat_cache, on_fresh_stat, notify_overlay_changed}

-- The node caches are of this version or of a later one.
abbrev IsCurrent : Db → Type 0
IsCurrent db = ltb db.user_version node_cache_version ≡ false

-- An index of this version is opened as it is, and every index that is opened is of this version.
abbrev Opens : Result (Unit {0}) DriveError → Db → Db → Type 0
Opens r before after = (IsCurrent before → after ≡ before) × (r ≡ ok tt → IsCurrent after)

module _ (o : Outside) where
  -- The end of `open_at`.
  versioned : Text → Op o (Unit {0})
  versioned root = query o (λ db. db.user_version) >>= λ version.
      migrate o version >>= λ _ s. (ok tt, record s { root = root })

  versioned-Opens : (root : Text) → Ends o Opens (versioned root)
  unfolding versioned query migrate execute empty_node_caches
  versioned-Opens root = record { holds = λ s. (λ h. ground arith, λ h. ground arith) }

  open_at-Opens : (folder : Option Text) (root : Text) → Ends o Opens (open_at o folder root)
  unfolding open_at versioned
  open_at-Opens folder root =
      Ends-bind (record { same_db = λ c. make_parent-Keeps o (λ db. db ≡ c) folder }) failed
        λ _.
          Ends-bind (record { same_db = λ c. unfold make_dir in search keeps_rules }) failed
            λ _.
              Ends-bind (record { same_db = λ c. set_up-Keeps o (λ db. db ≡ c) 8 }) failed
                λ _. versioned-Opens root
    where
      failed : (e : DriveError) (db : Db) → Opens (err e) db db
      failed e db = (λ _. refl, λ h. absurd (cc))

module _ (o : Outside) (at : Places) where
  open_cache-Opens : Ends o Opens (open_cache o at)
  unfolding open_cache
  open_cache-Opens = open_at-Opens o at.db_folder at.root

  -- What the badge shows of a node.
  shows : NodeEntry → Bool
  shows n = n.is_shared || n.is_shared_by_url

  -- The stat of the path is that node.
  abbrev HasStat : Text → NodeEntry → Db → Type 0
  HasStat path n db =
      IsCurrent db
      × (p : Payload) × (find path db.stats ≡ some p)
      × (o.node_json.read p.json ≡ ok n)

  cached_stat-HasStat :
      (path : Text) (n : NodeEntry) (s : Store (o.World))
      → IsWorking o at
      → HasStat path n s.db
      → (cached_stat o path s).0 ≡ ok (some n)
  unfolding cached_stat query
  cached_stat-HasStat path n s k (c, p, f, e) = ground (arith, k.0 s.world)

  behind_open :
      (path : Text) (n : NodeEntry) (db : Db) (r : Result (Unit {0}) DriveError × Store (o.World))
      → IsWorking o at
      → HasStat path n db
      → ((a : Unit {0}) × (r.0 ≡ ok a))
      → Opens r.0 db r.1.db
      → (resume r (λ _. cached_stat o path)).0 ≡ ok (some n)
  behind_open path n db (ok tt, s) k h a (keeps, _) =
      cached_stat-HasStat path n s k (subst (HasStat path n) (sym (keeps h.0)) h)
  behind_open path n db (err m, s) k h (a, e) _ = absurd (cc)

  lookup_shared-HasStat :
      (path : Text) (n : NodeEntry) (s : Store (o.World))
      → IsWorking o at
      → HasStat path n s.db
      → (lookup_shared o at path s).0 ≡ ok (shows n)
  unfolding lookup_shared shows
  lookup_shared-HasStat path n s k h =
      rw
        (behind_open path n s.db (open_cache o at s) k h ((open_cache-ok o at k).holds s)
          (open_cache-Opens.holds s))
        refl

  -- serde reads back what it writes, and writes the node.
  abbrev IsWritten : NodeEntry → Type 0
  IsWritten n = IsFaithful (o.node_json) × ((t : Text) × (o.node_json.write n ≡ ok t))

  on_fresh_stat-HasStat :
      (path : Text) (n : NodeEntry) (s : Store (o.World))
      → IsWorking o at
      → IsWritten n
      → IsCurrent s.db
      → HasStat path n (on_fresh_stat o path (ok n) s).1.db
  unfolding store_stat look execute outside notify_overlay_changed
  on_fresh_stat-HasStat path n s k (faithful, (t, w)) c =
      let stored : Payload = record { json = t; fetched_at = o.now s.world } in
      rw (w, k.0 s.world, execute)
        (c, stored, ground (arith, find-upsert path path stored s.db.stats), faithful n t w)

  stat_answered :
      (path : Text) (n : NodeEntry) (s : Store (o.World))
      (r : Result NodeEntry DriveError × o.World)
      → IsWorking o at
      → IsWritten n
      → IsCurrent s.db
      → r.0 ≡ ok n
      → HasStat path n (on_fresh_stat o path r.0 (record s { world = r.1 })).1.db
  stat_answered path n s (r, w) k written c e =
      subst (λ q. HasStat path n (on_fresh_stat o path q (record s { world = w })).1.db) (sym e)
        (on_fresh_stat-HasStat path n (record s { world = w }) k written c)

  refreshed :
      (path : Text) (n : NodeEntry) (db : Db) (r : Result (Unit {0}) DriveError × Store (o.World))
      → IsWorking o at
      → IsWritten n
      → ((a : Unit {0}) × (r.0 ≡ ok a))
      → Opens r.0 db r.1.db
      → (Commands.stat_path o path r.1.world).0 ≡ ok n
      → HasStat path n
          (resume (attempt (λ _. r) r.1) (
            if_open o at
              (attempt (outside o (Commands.stat_path o path)) >>= on_fresh_stat o path))).1.db
  unfolding outside
  refreshed path n db (ok tt, s) k written h (_, current) e =
      stat_answered path n s (Commands.stat_path o path s.world) k written (current refl) e
  refreshed path n db (err m, s) k written (a, h) _ e = absurd (cc)

  -- Where the index can be opened and SQLite runs its statements, and serde writes the node and reads
  -- back what it writes: behind the refresh that follows a change of the sharing, in which the CLI
  -- answers with the node, the badge shows the sharing of that node.
  pub refresh_stat_cache-lookup_shared :
      IsWorking o at
      → (path : Text) (n : NodeEntry) (s : Store (o.World)) → IsWritten n
      → (Commands.stat_path o path (open_cache o at s).1.world).0 ≡ ok n
      → (lookup_shared o at path (refresh_stat_cache o at path s).1).0
        ≡ ok (n.is_shared || n.is_shared_by_url)
  unfolding refresh_stat_cache with_cache shows
  refresh_stat_cache-lookup_shared k path n s written e =
      lookup_shared-HasStat path n (refresh_stat_cache o at path s).1 k (
        refreshed path n s.db (open_cache o at s) k written ((open_cache-ok o at k).holds s)
          (open_cache-Opens.holds s) e)
