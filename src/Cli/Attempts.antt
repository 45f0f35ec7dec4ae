-- ===== src/Cli/Attempts.antt =====
-- How often `run` starts the process.
use kio_protondrive.Base.{
  ◌≡◌, ◌≤◌, refl, arith, ℕ, zero, suc, ◌+◌, ◌*◌, Bool, resume, Text, true, false, List, Result, ok,
  err,
}
use kio_protondrive.Outside.{
  Outside, DriveError, CommandOutput, Ending, exited, not_spawned, wait_failed, timed_out,
  disconnected,
}
use kio_protondrive.Cli.Answer.{is_transient_lock_contention}
use kio_protondrive.Cli.Runner.{run, run_once, retry, ended}

-- The same world, with the number of processes that were started.
abbrev pub counted : Outside → Outside
counted o = record o {
  World = o.World × ℕ;
  process = λ args t w. let (e, w') = o.process args t w.0 in (e, (w', w.1 + 1));
  kill = λ w. (o.kill w.0, w.1);
  sleep = λ ms w. (o.sleep ms w.0, w.1);
  launch = λ args w. (o.launch args w.0, w.1);
  now = λ w. o.now w.0;
  db_error = λ w. let (e, w') = o.db_error w.0 in (e, (w', w.1));
  is_file = λ p w. o.is_file p w.0;
  metadata = λ p w. o.metadata p w.0;
  read_dir = λ p w. o.read_dir p w.0;
  remove_file = λ p w. let (r, w') = o.remove_file p w.0 in (r, (w', w.1));
  rename_file = λ p q w. let (r, w') = o.rename_file p q w.0 in (r, (w', w.1));
  create_dir_all = λ p w. let (r, w') = o.create_dir_all p w.0 in (r, (w', w.1));
}

module _ (o : Outside) where
  -- The same result and world, with so many starts.
  abbrev pub tallied :
      ℕ
      → Result CommandOutput DriveError × o.World
      → Result CommandOutput DriveError × (o.World × ℕ)
  tallied m r = (r.0, (r.1, m))

  abbrev pub Tally :
      ℕ
      → ℕ
      → Result CommandOutput DriveError × (o.World × ℕ)
      → Result CommandOutput DriveError × o.World
      → Type 0
  Tally least most r q = (m : ℕ) × (r ≡ tallied m q) × (least ≤ m) × (m ≤ most)

  ended-counted :
      (t : ℕ) (e : Ending) (w : o.World) (n : ℕ)
      → ended (counted o) t e (w, n) ≡ tallied n (ended o t e w)
  unfolding ended
  ended-counted t (exited out) w n = refl
  ended-counted t (not_spawned e) w n = refl
  ended-counted t (wait_failed e) w n = refl
  ended-counted t timed_out w n = refl
  ended-counted t disconnected w n = refl

  run_once-counted :
      (args : List Text) (t : ℕ) (w : o.World) (n : ℕ)
      → run_once (counted o) args t (w, n) ≡ tallied (n + 1) (run_once o args t w)
  unfolding run_once
  run_once-counted args t w n =
      ended-counted t (o.process args t w).0 (o.process args t w).1 (n + 1)

  resume-counted :
      (least most : ℕ)
      → (f : CommandOutput → o.World × ℕ → Result CommandOutput DriveError × (o.World × ℕ))
      → (g : CommandOutput → o.World → Result CommandOutput DriveError × o.World) → (n : ℕ)
      → least ≤ n
      → n ≤ most
      → ((out : CommandOutput) (w : o.World) → Tally least most (f out (w, n)) (g out w))
      → (q : Result CommandOutput DriveError × o.World)
      → Tally least most (resume (tallied n q) f) (resume q g)
  resume-counted least most f g n l m k (ok out, w) = k out w
  resume-counted least most f g n l m k (err e, w) = (n, refl, l, m)

  widen :
      (least n left : ℕ)
      → {r : Result CommandOutput DriveError × (o.World × ℕ)}
      → {q : Result CommandOutput DriveError × o.World} → Tally least (n + 1 + left) r q
      → Tally least (n + suc left) r q
  widen least n left (m, e, l, h) = (m, e, l, omega arith)

  retry-counted :
      (least left attempt : ℕ) (args : List Text) (t : ℕ) (out : CommandOutput) (w : o.World)
      (n : ℕ)
      → least ≤ n
      → Tally least
          (n + left)
          (retry (counted o) left attempt args t out (w, n))
          (retry o left attempt args t out w)
  unfolding retry
  retry-counted least zero attempt args t out w n l = (n, refl, l, omega arith)
  retry-counted least (suc left) attempt args t out w n l =
      retry_by (is_transient_lock_contention out) (
        rw (run_once-counted args t (o.sleep (300 * attempt) w) n) (
          resume-counted least (n + suc left) (retry (counted o) left (attempt + 1) args t)
            (retry o left (attempt + 1) args t) (n + 1) (omega arith) (omega arith)
            (λ out' w'.
              widen least n left
                (retry-counted least left (attempt + 1) args t out' w' (n + 1) (omega arith)))
            (run_once o args t (o.sleep (300 * attempt) w))))
    where
      retry_by :
          (b : Bool)
          → Tally least
              (n + suc left)
              (resume
                (run_once (counted o) args t (o.sleep (300 * attempt) w, n))
                (retry (counted o) left (attempt + 1) args t))
              (resume
                (run_once o args t (o.sleep (300 * attempt) w))
                (retry o left (attempt + 1) args t))
          → Tally least
              (n + suc left)
              (elim b as (λ _. Result CommandOutput DriveError × (o.World × ℕ)) [
                | false ↦ (ok out, (w, n))
                | true ↦
                    resume
                      (run_once (counted o) args t (o.sleep (300 * attempt) w, n))
                      (retry (counted o) left (attempt + 1) args t)
              ])
              (elim b as (λ _. Result CommandOutput DriveError × o.World) [
                | false ↦ (ok out, w)
                | true ↦
                    resume
                      (run_once o args t (o.sleep (300 * attempt) w))
                      (retry o left (attempt + 1) args t)
              ])
      retry_by false k = (n, refl, l, omega arith)
      retry_by true k = k

  -- A command is started once at least and three times at most, and what it gives does not depend on
  -- counting that.
  pub run_attempts :
      (args : List Text) (t : ℕ) (w : o.World)
      → Tally 1 3 (run (counted o) args t (w, 0)) (run o args t w)
  unfolding run
  run_attempts args t w = rw (run_once-counted args t w 0) (
      resume-counted 1 3 _ _ 1 (omega arith) (omega arith)
        (λ out w'. retry-counted 1 2 1 args t out w' 1 (omega arith)) (run_once o args t w))
