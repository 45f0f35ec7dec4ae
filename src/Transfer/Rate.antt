-- ===== src/Transfer/Rate.antt =====
-- core/src/transfer.rs: the throughput that finished transfers had, and the estimate of progress from it.
-- The arithmetic of `f64` is a parameter.
use kio_protondrive.Base.{ℕ, ◌+◌, ◌%◌, ◌^◌, Bool, if◌then◌else◌}

-- `to_u64` is `as u64`, `hundredths` a literal with two digits behind the point.
pub record Floats (F : Type 0) : Type 0 where
  pub of_u64 : ℕ → F
  pub to_u64 : F → ℕ
  pub add : F → F → F
  pub mul : F → F → F
  pub div : F → F → F
  pub min : F → F → F
  pub max : F → F → F
  pub is_le : F → F → Bool
  pub is_gt : F → F → Bool
  pub hundredths : ℕ → F

pub record Throughput (F : Type 0) : Type 0 where
  pub total_bytes : ℕ
  pub total_secs : F

module _ {F : Type 0} (f : Floats F) where
  open f use {of_u64, to_u64, add, mul, div, min, max, is_le, is_gt, hundredths}

  abbrev pub zero_float : F
  zero_float = of_u64 0

  abbrev pub default_throughput_bytes_per_sec : F
  default_throughput_bytes_per_sec = mul (mul (of_u64 3) (of_u64 1024)) (of_u64 1024)

  -- 0.95
  abbrev pub estimate_cap_fraction : F
  estimate_cap_fraction = hundredths 95

  unfoldable pub bytes_per_sec : Throughput F → F
  bytes_per_sec t =
      if is_le t.total_secs zero_float
      then default_throughput_bytes_per_sec
      else div (of_u64 t.total_bytes) t.total_secs

  -- `Throughput::record`
  unfoldable pub recorded : ℕ → F → Throughput F → Throughput F
  recorded bytes secs t =
      if is_gt secs zero_float
      then record {
        total_bytes = (t.total_bytes + bytes) % 2 ^ 64;
        total_secs = add t.total_secs secs;
      }
      else t

  -- `TransferHandle::estimate`, given the seconds since the start.
  unfoldable pub estimate : F → F → ℕ → ℕ
  estimate elapsed rate total =
      to_u64 (max (min (mul elapsed rate) (mul (of_u64 total) estimate_cap_fraction)) zero_float)
