-- ===== src/Cli/Runner.antt =====
-- `RealCommandRunner` of core/src/cli.rs: one run with a timeout, and the bounded retries.
use kio_protondrive.Base.{
  ℕ, zero, suc, ◌+◌, ◌-◌, ◌*◌, Text, str, true, false, List, ok, err, Action, ◌>>=◌,
}
use kio_protondrive.Outside.{
  Outside, DriveError, CommandOutput, Ending, not_spawned, exited, wait_failed, timed_out,
  disconnected, spawn, timeout,
}
use kio_protondrive.Cli.Answer.{is_transient_lock_contention}

abbrev pub metadata_timeout : ℕ
metadata_timeout = 30

abbrev pub transfer_timeout : ℕ
transfer_timeout = 1800

abbrev pub lock_contention_retries : ℕ
lock_contention_retries = 3

-- In milliseconds.
abbrev pub lock_contention_retry_delay : ℕ
lock_contention_retry_delay = 300

module _ (o : Outside) where
  open o use {World, process, kill, sleep}

  unfoldable pub ended : ℕ → Ending → Action World CommandOutput DriveError
  ended t (exited out) w = (ok out, w)
  ended t (not_spawned e) w = (err (spawn e), w)
  ended t (wait_failed e) w = (err (spawn e), w)
  ended t timed_out w = (err (timeout t), kill w)
  ended t disconnected w =
      (err (spawn (str "proton-drive's output thread vanished without a result")), w)

  unfoldable pub run_once : List Text → ℕ → Action World CommandOutput DriveError
  unfolding ended
  run_once args t w = let (e, w') = process args t w in ended t e w'

  -- `for attempt in 1..LOCK_CONTENTION_RETRIES`, with the rounds that are left.
  unfoldable pub retry :
      ℕ → ℕ → List Text → ℕ → CommandOutput → Action World CommandOutput DriveError
  retry zero attempt args t out w = (ok out, w)
  retry (suc left) attempt args t out w = elim (is_transient_lock_contention out) [
    | false ↦ (ok out, w)
    | true ↦
        (run_once args t >>= retry left (attempt + 1) args t)
          (sleep (lock_contention_retry_delay * attempt) w)
  ]

  unfoldable pub run : List Text → ℕ → Action World CommandOutput DriveError
  run args t = do out ← run_once args t; retry (lock_contention_retries - 1) 1 args t out
