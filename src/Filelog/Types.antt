-- ===== src/Filelog/Types.antt =====
-- internal/filelog/types.go: the configuration and its checks. Sizes are Go ints of which the checks
-- refuse 0 and everything below; they stand here as natural numbers, and so does Linger.
use gigaquizz.Common.{
  ℕ, ◌+◌, ◌-◌, ◌/◌, ◌%◌, ◌^◌, ◌≤◌, ◌<◌, ◌≡◌, Bool, true, not, ◌&&◌, ◌||◌, List, [], bit_and, zero,
  suc, ltb, leb, ◌==◌, arith,
}
use gigaquizz.Common.Bytes.{Bytes, bytes_eq, zeros}
use gigaquizz.GoTime.{second, minute, apart, year_start, InNanoRange, years-InNanoRange}

pub record Config : Type 0 where
  pub directory : Bytes
  pub poll_id : Bytes
  pub starts_at : ℕ
  pub ends_at : ℕ
  pub allowed_mask : ℕ
  pub multiple : Bool
  pub batch_size : ℕ
  pub queue_per_partition : ℕ
  pub linger : ℕ
  pub partitions : ℕ

abbrev pub zero_token : Bytes
zero_token = zeros 16

-- `Config.validate`, as the test that it does not return ErrInvalid
unfoldable pub valid : Config → Bool
valid c =
    not (bytes_eq c.directory [])
    && not (bytes_eq c.poll_id zero_token)
    && c.partitions == 1
    && leb (year_start 1678) c.starts_at
    && ltb c.ends_at (year_start 2262)
    && apart c.starts_at c.ends_at minute
    && not (c.allowed_mask == 0)
    && leb 1 c.batch_size
    && leb c.batch_size 131072
    && leb 1 c.queue_per_partition
    && leb c.queue_per_partition 1048576
    && leb c.linger second

-- `bits.OnesCount32`
unfoldable pub ones_count : ℕ → ℕ → ℕ
ones_count zero m = 0
ones_count (suc n) m = m % 2 + ones_count n (m / 2)

-- `Config.validChoice`
unfoldable pub valid_choice : Config → ℕ → Bool
valid_choice c choice =
    not (choice == 0)
    && bit_and choice (2 ^ 32 - 1 - c.allowed_mask) == 0
    && (c.multiple || ones_count 32 choice == 1)

pub record Input : Type 0 where
  pub token : Bytes
  pub choice : ℕ

pub record Vote : Type 0 where
  pub token : Bytes
  pub choice : ℕ
  pub admitted_at : ℕ

pub record FrameReceipt : Type 0 where
  pub partition : ℕ
  pub offset : ℕ
  pub count : ℕ
  pub admitted_at : ℕ

pub record Position : Type 0 where
  pub partition : ℕ
  pub offset : ℕ
  pub index : ℕ

pub record PartitionEnd : Type 0 where
  pub partition : ℕ
  pub offset : ℕ

abbrev pub Manifest : Type 0
Manifest = List PartitionEnd

pub record ScanResult : Type 0 where
  pub manifest : Manifest
  pub closed : Bool
  pub incomplete_tail : Bool
  pub frames : ℕ
  pub votes : ℕ
  pub valid_bytes : ℕ

-- The instant of admission lies in the poll's window.
pub record InWindow (c : Config) (t : ℕ) : Type 0 where
  pub from : c.starts_at ≤ t
  pub until : t < c.ends_at

-- What a valid configuration says of its window.
pub valid_window : (c : Config) → valid c ≡ true → (t : ℕ) → InWindow c t → InNanoRange t
unfolding valid
valid_window c v t w = years-InNanoRange t (ground arith) (ground arith)
