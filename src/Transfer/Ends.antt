-- ===== src/Transfer/Ends.antt =====
-- A transfer whose processes end is polled to its end.
use kio_protondrive.Base.{
  ℕ, zero, suc, ◌+◌, ◌≤◌, ◌<◌, Bool, true, false, ◌≡◌, refl, arith, if◌then◌else◌, Bool-cases, inl,
  inr,
}
use kio_protondrive.Transfer.{
  Processes, TransferHandle, TransferPoll, Received, still_running, pending, finished, poll,
  on_output, may_retry,
}

abbrev pub is_finished : TransferPoll → Bool
is_finished (pending _) = false
is_finished (finished _) = true

abbrev pub is_running : Received → Bool
is_running still_running = true
is_running _ = false

module _ {World F : Type 0} (p : Processes World F) where
  -- So many polls, up to the first that finishes.
  unfoldable pub poll_until : ℕ → TransferHandle F → World → Bool
  poll_until zero h w = false
  poll_until (suc n) h w =
      let later = poll_until n (poll p h w).1 (poll p h w).2 in
      if is_finished (poll p h w).0 then true else later

  poll-progress :
      (h : TransferHandle F) (w : World)
      → is_running (p.receive h.pid w).0 ≡ false
      → is_finished (poll p h w).0 ≡ false
      → (h.attempts_made < 3) × ((poll p h w).1.attempts_made ≡ h.attempts_made + 1)
  unfolding poll on_output may_retry
  poll-progress h w r f = ground arith

  -- Where no process runs any more when it is asked, a transfer is finished by one poll for each
  -- attempt that is left of three, however often the CLI fails for a locked database.
  pub poll_until_finished :
      ((pid : ℕ) (w : World) → is_running (p.receive pid w).0 ≡ false)
      → (n : ℕ) (h : TransferHandle F) (w : World) → 1 ≤ n
      → 4 ≤ h.attempts_made + n
      → poll_until n h w ≡ true
  unfolding poll_until
  poll_until_finished k zero h w l b = absurd (omega arith)
  poll_until_finished k (suc n) h w l b = elim (Bool-cases (is_finished (poll p h w).0)) [
    | inl e ↦ rw e refl
    | inr e ↦
        let (a, s) = poll-progress h w (k h.pid w) e in
        rw e (poll_until_finished k n (poll p h w).1 (poll p h w).2 (omega arith) (omega arith))
  ]
