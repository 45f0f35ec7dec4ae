-- ===== src/Daemon/Due.antt =====
-- How long the loop of daemon/src/main.rs waits, and what is due behind the wait.
use kio_protondrive.Base.{
  ℕ, ◌+◌, ◌-◌, ◌≤◌, leb, Bool, true, ◌||◌, List, some, ◌≡◌, ◌∙◌, sym, refl, arith,
}
use kio_protondrive.Entry.{NodeEntry}
use kio_protondrive.Outside.{Outside}
use kio_protondrive.Bridge.Entries.{Places}
use kio_protondrive.Daemon.Notices.{Desktop}
use kio_protondrive.Daemon.Versions.{Updates}
use kio_protondrive.Daemon.State.{Running}
use kio_protondrive.Daemon.Loop.{
  Timers, Loop, Received, timed_out, wait_time, wall_clock_elapsed, version_check_due,
  fs_refresh_due, open_folders_due, cache_eviction_due, min, pass, jobs,
}

-- No job has run later than now.
pub record IsPast (now wake : ℕ) (t : Timers) : Type 0 where
  pub version_check : t.last_version_check ≤ now
  pub fs_refresh : t.last_fs_refresh ≤ wake
  pub open_folders : t.last_open_folders_refresh ≤ wake
  pub cache_eviction : t.last_cache_eviction ≤ now

-- Some job is due.
unfoldable pub any_due : ℕ → ℕ → Timers → Bool
any_due now wake t =
    version_check_due now t
    || (fs_refresh_due wake t || (open_folders_due wake t || cache_eviction_due now t))

min-leb : (a b e : ℕ) → leb (min a b) e ≡ (leb a e || leb b e)
min-leb a b e = ground arith

wait-due :
    (interval now last e : ℕ)
    → last ≤ now
    → leb (interval - (now - last)) e ≡ leb interval (now + e - last)
wait-due interval now last e h = ground arith

elapsed-past : (now since : ℕ) → since ≤ now → wall_clock_elapsed now since ≡ now - since
unfolding wall_clock_elapsed
elapsed-past now since h = ground arith

wall-due :
    (interval now last e : ℕ)
    → last ≤ now
    → leb (interval - wall_clock_elapsed now last) e
      ≡ leb interval (wall_clock_elapsed (now + e) last)
wall-due interval now last e h =
    rw (elapsed-past now last h, elapsed-past (now + e) last (omega arith))
      (wait-due interval now last e h)

or-eq : {a b c e : Bool} → a ≡ b → c ≡ e → (a || c) ≡ (b || e)
or-eq p q = λ i. p i || q i

four : (a b c e : Bool) → (((a || b) || c) || e) ≡ (a || (b || (c || e)))
four a b c e = ground arith

-- Where no clock is behind a timer: the loop waits up to the time at which the first job is due, and
-- no longer.
pub wait_time-any_due :
    (now wake e : ℕ) (t : Timers)
    → IsPast now wake t
    → leb (wait_time now wake t) e ≡ any_due (now + e) (wake + e) t
unfolding wait_time any_due version_check_due fs_refresh_due open_folders_due cache_eviction_due
wait_time-any_due now wake e t h =
    min-leb _ _ e
    ∙ or-eq
        (min-leb _ _ e
          ∙ or-eq
              (min-leb _ _ e
                ∙ or-eq (wall-due _ now t.last_version_check e h.version_check)
                    (wait-due _ wake t.last_fs_refresh e h.fs_refresh))
              (wait-due _ wake t.last_open_folders_refresh e h.open_folders))
        (wall-due _ now t.last_cache_eviction e h.cache_eviction)
    ∙ four (version_check_due (now + e) t) (fs_refresh_due (wake + e) t)
        (open_folders_due (wake + e) t) (cache_eviction_due (now + e) t)

module _ (o : Outside) (at : Places) (d : Desktop (o.World)) (u : Updates (o.World))
    (equal : List NodeEntry → List NodeEntry → Bool) (retention : ℕ)
    (receive : ℕ → Running (o.World) → Received × Running (o.World)) where
  -- Where no clock is behind a timer, and no batch comes while the loop waits as long as it has asked
  -- for: the pass goes on to its jobs, with one of them due.
  pub pass-any_due :
      (l : Loop (o.World)) (r : Running (o.World)) (e : ℕ)
      → let w = wait_time (o.now l.running.store.world) (d.awake l.running.store.world) l.timers in
        receive w l.running ≡ (timed_out, r)
        → IsPast (o.now l.running.store.world) (d.awake l.running.store.world) l.timers
        → w ≤ e
        → o.now r.store.world ≡ o.now l.running.store.world + e
        → d.awake r.store.world ≡ d.awake l.running.store.world + e
        → (pass o at d u equal retention receive l
            ≡ some (jobs o at d u equal retention (record l { running = r })))
          × (any_due (o.now r.store.world) (d.awake r.store.world) l.timers ≡ true)
  unfolding pass
  pass-any_due l r e h past k p q =
      (rw h refl, rw (p, q) (sym (wait_time-any_due _ _ e l.timers past) ∙ ground arith))
