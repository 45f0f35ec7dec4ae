-- ===== src/Transfer.antt =====
-- core/src/transfer.rs: a transfer that the worker polls and may cancel.
pub mod Rate
pub mod Ends
pub mod Estimated
pub mod Attempts
use kio_protondrive.Base.{
  ℕ, ◌+◌, ◌*◌, Text, str, ltb, Bool, true, false, not, ◌&&◌, List, Result, ok, err, if◌then◌else◌,
}
use kio_protondrive.Outside.{DriveError, CommandOutput, spawn}
use kio_protondrive.Cli.Answer.{is_transient_lock_contention}
use kio_protondrive.Transfer.Rate.{Floats, Throughput, bytes_per_sec, recorded, estimate}
use kio_protondrive.Cli.Runner.{lock_contention_retries, lock_contention_retry_delay}

pub data Direction : Type 0 where
  upload download : Direction

-- What `recv_timeout` on the channel of the waiting thread gives.
pub data Received : Type 0 where
  output : CommandOutput → Received
  wait_failed : Text → Received
  still_running : Received
  disconnected : Received

-- Processes, the clock and the two statics of the worker. `elapsed` is the seconds since an `Instant`.
pub record Processes (World F : Type 0) : Type 0 where
  pub start : List Text → World → Result ℕ Text × World
  pub receive : ℕ → World → Received × World
  pub kill_group : ℕ → World → World
  pub sleep : ℕ → World → World
  pub instant : World → ℕ
  pub elapsed : ℕ → World → F
  pub throughput : Direction → World → Throughput F
  pub set_throughput : Direction → Throughput F → World → World
  pub floats : Floats F

-- The arguments hold the program in front.
pub record TransferHandle (F : Type 0) : Type 0 where
  pub args : List Text
  pub direction : Direction
  pub total_bytes : ℕ
  pub started_at : ℕ
  pub bytes_per_sec_estimate : F
  pub attempts_made : ℕ
  pub cancelled : Bool
  pub pid : ℕ

pub data TransferPoll : Type 0 where
  pending : ℕ → TransferPoll
  finished : Result CommandOutput DriveError → TransferPoll

module _ {World F : Type 0} (p : Processes World F) where
  open p use {
    start, receive, kill_group, sleep, instant, elapsed, throughput, set_throughput, floats,
  }

  unfoldable pub start_program :
      Direction → List Text → ℕ → World → Result (TransferHandle F) DriveError × World
  unfolding bytes_per_sec
  start_program direction args total w =
      let (r, w') = start args w in
      elim r [
        | err m ↦ (err (spawn m), w')
        | ok pid ↦ (
          ok (record {
            args = args;
            direction = direction;
            total_bytes = total;
            started_at = instant w';
            bytes_per_sec_estimate = bytes_per_sec floats (throughput direction w');
            attempts_made = 1;
            cancelled = false;
            pid = pid;
          }),
          w',
        )
      ]

  unfoldable pub progress : TransferHandle F → World → ℕ
  unfolding estimate
  progress h w = estimate floats (elapsed h.started_at w) h.bytes_per_sec_estimate h.total_bytes

  unfoldable pub record_throughput : TransferHandle F → World → World
  unfolding recorded
  record_throughput h w =
      set_throughput h.direction
        (recorded floats h.total_bytes (elapsed h.started_at w) (throughput h.direction w)) w

  abbrev pub Polled : Type 0
  Polled = TransferPoll × TransferHandle F × World

  -- A new attempt after lock contention.
  abbrev respawned : TransferHandle F → Result ℕ Text × World → Polled
  respawned h (err m, w) = (finished (err (spawn m)), h, w)
  respawned h (ok pid, w) =
      (pending (progress h w), record h { attempts_made = h.attempts_made + 1; pid = pid }, w)

  unfoldable pub may_retry : TransferHandle F → CommandOutput → Bool
  may_retry h out =
      not h.cancelled
      && (is_transient_lock_contention out && ltb h.attempts_made lock_contention_retries)

  unfoldable pub on_output : TransferHandle F → CommandOutput → World → Polled
  unfolding may_retry
  on_output h out w =
      if may_retry h out
      then respawned h (start h.args (sleep (lock_contention_retry_delay * h.attempts_made) w))
      else (finished (ok out), h, (if out.success then record_throughput h w else w))

  abbrev on_received : TransferHandle F → Received → World → Polled
  on_received h (output out) w = on_output h out w
  on_received h (wait_failed m) w = (finished (err (spawn m)), h, w)
  on_received h still_running w = (pending (progress h w), h, w)
  on_received h disconnected w =
      (finished (err (spawn (str "proton-drive's output thread vanished without a result"))), h, w)

  unfoldable pub poll : TransferHandle F → World → Polled
  unfolding on_output
  poll h w = let (r, w') = receive h.pid w in on_received h r w'

  unfoldable pub cancel : TransferHandle F → World → TransferHandle F × World
  cancel h w = (record h { cancelled = true }, kill_group h.pid w)

  -- `drop`
  unfoldable pub drop : TransferHandle F → World → World
  drop h w = kill_group h.pid w
