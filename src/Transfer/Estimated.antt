-- ===== src/Transfer/Estimated.antt =====
-- The progress that a running transfer reports.
use kio_protondrive.Base.{ℕ, ◌≤◌, ◌≡◌, true, arith, ◌*◌}
use kio_protondrive.Cli.Runner.{lock_contention_retry_delay}
use kio_protondrive.Transfer.{Processes, TransferHandle, pending, poll, on_output, progress}
use kio_protondrive.Transfer.Rate.{Floats, estimate}

-- What is used of `f64`: `min` with a number is no more than it, and `as` takes a smaller float to a
-- smaller integer, takes what is below 0 to 0, and rounds 0.95 of an integer to no more than it.
pub record IsSound {F : Type 0} (f : Floats F) : Type 0 where
  pub min_le :
      (x : F) (n : ℕ) → let y = f.mul (f.of_u64 n) (f.hundredths 95) in f.is_le (f.min x y) y ≡ true
  pub to_u64_mono : (x y : F) → f.is_le x y ≡ true → f.to_u64 x ≤ f.to_u64 y
  pub to_u64_max : (x : F) → f.to_u64 (f.max x (f.of_u64 0)) ≡ f.to_u64 x
  pub to_u64_cap : (n : ℕ) → f.to_u64 (f.mul (f.of_u64 n) (f.hundredths 95)) ≤ n

estimate-le :
    {F : Type 0} (f : Floats F) (elapsed rate : F) (total : ℕ)
    → IsSound f
    → estimate f elapsed rate total ≤ total
unfolding estimate
estimate-le f elapsed rate total k =
    let cap = f.mul (f.of_u64 total) (f.hundredths 95) in
    let x = f.min (f.mul elapsed rate) cap in
    omega (
      arith,
      k.to_u64_max x,
      k.to_u64_mono x cap (k.min_le (f.mul elapsed rate) total),
      k.to_u64_cap total,
    )

module _ {World F : Type 0} (p : Processes World F) where
  progress-le :
      (h : TransferHandle F) (w : World) → IsSound (p.floats) → progress p h w ≤ h.total_bytes
  unfolding progress
  progress-le h w k =
      estimate-le p.floats (p.elapsed h.started_at w) h.bytes_per_sec_estimate h.total_bytes k

  -- While a transfer runs, and when it is started again, no poll reports more bytes than it has.
  pub poll-pending :
      (h : TransferHandle F) (w : World) (n : ℕ)
      → IsSound (p.floats)
      → (poll p h w).0 ≡ pending n
      → n ≤ h.total_bytes
  unfolding poll on_output
  poll-pending h w n k e =
      let v = (p.receive h.pid w).1 in
      let u = (p.start h.args (p.sleep (lock_contention_retry_delay * h.attempts_made) v)).1 in
      ground (arith, progress-le h v k, progress-le h u k)
