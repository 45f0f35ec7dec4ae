-- ===== src/Transfer/Attempts.antt =====
-- The attempts of a transfer over any run of polls and cancels.
use kio_protondrive.Base.{ℕ, ◌+◌, ◌≤◌, Text, true, List, ◌≡◌, arith, ok}
use kio_protondrive.Transfer.{
  Processes, TransferHandle, poll, cancel, start_program, Direction, on_output, pending, may_retry,
  record_throughput,
}

-- The same processes, with the number of those that were started, whether they came up or not.
abbrev pub counted : {World F : Type 0} → Processes World F → Processes (World × ℕ) F
counted p = record {
  start = λ args w. let (r, w') = p.start args w.0 in (r, (w', w.1 + 1));
  receive = λ pid w. let (r, w') = p.receive pid w.0 in (r, (w', w.1));
  kill_group = λ pid w. (p.kill_group pid w.0, w.1);
  sleep = λ ms w. (p.sleep ms w.0, w.1);
  instant = λ w. p.instant w.0;
  elapsed = λ t w. p.elapsed t w.0;
  throughput = λ d w. p.throughput d w.0;
  set_throughput = λ d t w. (p.set_throughput d t w.0, w.1);
  floats = p.floats;
}

module _ {World F : Type 0} (p : Processes World F) where
  -- A transfer from its start, with nothing started before it, over any polls that do not finish it and
  -- any cancels, while the world moves as it likes: its handle, the world and what was started.
  pub data Run : TransferHandle F → World × ℕ → Type 0 where
    started :
        {h : TransferHandle F} (d : Direction) (args : List Text) (total : ℕ) (w : World)
        → (start_program (counted p) d args total (w, 0)).0 ≡ ok h
        → Run h (start_program (counted p) d args total (w, 0)).1
    polled :
        {h : TransferHandle F} {w : World × ℕ} (bytes : ℕ)
        → Run h w
        → (poll (counted p) h w).0 ≡ pending bytes
        → Run (poll (counted p) h w).1 (poll (counted p) h w).2
    cancelled :
        {h : TransferHandle F} {w : World × ℕ}
        → Run h w
        → Run (cancel (counted p) h w).0 (cancel (counted p) h w).1
    world_moved : {h : TransferHandle F} {w : World × ℕ} (v : World) → Run h w → Run h (v, w.1)

  -- The handle has counted every start.
  abbrev IsTallied : TransferHandle F → ℕ → Type 0
  IsTallied h n = (1 ≤ n) × (n ≤ 3) × (n ≡ h.attempts_made)

  poll-IsTallied :
      (h : TransferHandle F) (w : World × ℕ) (bytes : ℕ)
      → IsTallied h w.1
      → (poll (counted p) h w).0 ≡ pending bytes
      → IsTallied (poll (counted p) h w).1 (poll (counted p) h w).2.1
  unfolding poll on_output may_retry
  poll-IsTallied h w bytes b e = ground arith

  poll-count :
      (h : TransferHandle F) (w : World × ℕ) → IsTallied h w.1 → (poll (counted p) h w).2.1 ≤ 3
  unfolding poll on_output may_retry record_throughput
  poll-count h w b = ground arith

  cancel-IsTallied :
      (h : TransferHandle F) (w : World × ℕ)
      → IsTallied h w.1
      → IsTallied (cancel (counted p) h w).0 (cancel (counted p) h w).1.1
  unfolding cancel
  cancel-IsTallied h w b = b

  start-IsTallied :
      (d : Direction) (args : List Text) (total : ℕ) (w : World) {h : TransferHandle F}
      → (start_program (counted p) d args total (w, 0)).0 ≡ ok h
      → IsTallied h (start_program (counted p) d args total (w, 0)).1.1
  unfolding start_program
  start-IsTallied d args total w e = ground arith

  Run-IsTallied : {h : TransferHandle F} {w : World × ℕ} → Run h w → IsTallied h w.1
  Run-IsTallied (started d args total w e) = start-IsTallied d args total w e
  Run-IsTallied (polled {h} {w} bytes r e) = poll-IsTallied h w bytes (Run-IsTallied r) e
  Run-IsTallied (cancelled {h} {w} r) = cancel-IsTallied h w (Run-IsTallied r)
  Run-IsTallied (world_moved v r) = Run-IsTallied r

  -- A transfer has started its program once at least and three times at most, however it was polled and
  -- cancelled while it ran, and three times at most behind the next poll too, which may finish it.
  pub Run-IsBounded :
      {h : TransferHandle F} {w : World × ℕ}
      → Run h w
      → (1 ≤ w.1) × (w.1 ≤ 3) × ((poll (counted p) h w).2.1 ≤ 3)
  Run-IsBounded {h} {w} r =
      let (least, most, e) = Run-IsTallied r in (least, most, poll-count h w (Run-IsTallied r))

  -- Once a transfer is cancelled no poll starts another process: the handle stays as it is.
  pub poll-cancelled : (h : TransferHandle F) (w : World) → h.cancelled ≡ true → (poll p h w).1 ≡ h
  unfolding poll
  poll-cancelled h w c = ground arith
