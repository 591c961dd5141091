-- ===== src/Votelog.antt =====
-- internal/votelog/types.go: the configuration and the records of the journal on a broker. SHA-256 is a
-- parameter, and so is the check of a broker's address, which calls package net. Sizes and durations are
-- Go ints of which `validate` refuses what is below 1; they stand here as natural numbers.
pub mod Records
pub mod Frame
pub mod Scan
pub mod Replay
pub mod Audit
pub mod Store
mod Tests
use gigaquizz.Common.{
  ℕ, zero, suc, ◌+◌, ◌-◌, ◌*◌, ◌/◌, ◌%◌, ◌^◌, Bool, true, false, not, ◌&&◌, ◌||◌, List, [], ◌∷◌,
  ◌++◌, Option, none, some, bit_and, ltb, leb, ◌==◌, if◌then◌else◌, length, get_or, take,
}
use gigaquizz.Common.Bytes.{Bytes, bytes_eq, zeros, slice, be, from_be}
use gigaquizz.GoTime.{
  second, millisecond, minute, apart, before, is_zero, unix_nano, from_unix_nano,
}

pub record Config : Type 0 where
  pub brokers : List Bytes
  pub topic : Bytes
  pub poll_id : Bytes
  pub partitions : ℕ
  pub starts_at : ℕ
  pub ends_at : ℕ
  pub allowed_mask : ℕ
  pub multiple : Bool
  pub batch_size : ℕ
  pub linger : ℕ
  pub queue_per_partition : ℕ
  pub transaction_timeout : ℕ

pub record Input : Type 0 where
  pub token : Bytes
  pub choice : ℕ

pub record Receipt : Type 0 where
  pub partition : ℕ
  pub offset : ℕ
  pub index : ℕ
  pub admitted_at : ℕ

pub record Position : Type 0 where
  pub partition : ℕ
  pub offset : ℕ
  pub index : ℕ

pub record Vote : Type 0 where
  pub token : Bytes
  pub choice : ℕ
  pub admitted_at : ℕ

abbrev pub zero_token : Bytes
zero_token = zeros 16

-- `Vote{}`
abbrev pub no_vote : Vote
no_vote = record { token = zero_token; choice = 0; admitted_at = 0 }

abbrev pub record_vote : ℕ
record_vote = 1

abbrev pub record_boot : ℕ
record_boot = 2

abbrev pub record_closed : ℕ
record_closed = 3

-- What is left of `b` behind `prefix`, if it begins with that.
pub behind : Bytes → Bytes → Option Bytes
behind [] b = some b
behind (x ∷ prefix) [] = none
behind (x ∷ prefix) (y ∷ b) = if x == y then behind prefix b else none

-- `[a-z0-9_]`
pub topic_char : ℕ → Bool
topic_char c = (leb b'a' c && leb c b'z') || (leb b'0' c && leb c b'9') || c == b'_'

pub topic_chars : Bytes → Bool
topic_chars [] = true
topic_chars (c ∷ b) = topic_char c && topic_chars b

-- "gqlog_" and "gigaquizz_logbench_"
abbrev pub topic_prefix : Bytes
topic_prefix = b'g' ∷ b'q' ∷ b'l' ∷ b'o' ∷ b'g' ∷ b'_' ∷ []

abbrev pub bench_prefix : Bytes
bench_prefix =
    b'g' ∷ b'i' ∷ b'g' ∷ b'a' ∷ b'q' ∷ b'u' ∷ b'i' ∷ b'z' ∷ b'z' ∷ b'_' ∷ b'l' ∷ b'o' ∷ b'g' ∷ b'b'
    ∷ b'e' ∷ b'n' ∷ b'c' ∷ b'h' ∷ b'_' ∷ []

-- `[a-z0-9_]{8,100}$`
pub topic_rest : Option Bytes → Bool
topic_rest none = false
topic_rest (some b) = leb 8 (length b) && leb (length b) 100 && topic_chars b

-- `ownedTopic.MatchString`
pub owned_topic : Bytes → Bool
owned_topic b = topic_rest (behind topic_prefix b) || topic_rest (behind bench_prefix b)

-- The first test of `validate`, negated.
pub in_bounds : Config → Bool
in_bounds c =
    owned_topic c.topic
    && not (bytes_eq c.poll_id zero_token)
    && leb 1 c.partitions
    && leb c.partitions 256
    && apart c.starts_at c.ends_at minute
    && not (is_zero c.starts_at)
    && not (c.allowed_mask == 0)
    && leb 1 c.batch_size
    && leb c.batch_size 4096
    && leb 1 c.queue_per_partition
    && leb c.queue_per_partition 8192
    && leb millisecond c.linger
    && leb c.linger second
    && leb second c.transaction_timeout
    && leb c.transaction_timeout (30 * second)

-- The loop over the brokers.
pub all_loopback : (Bytes → Bool) → List Bytes → Bool
all_loopback loopback [] = true
all_loopback loopback (b ∷ bs) = loopback b && all_loopback loopback bs

pub data ConfigError : Type 0 where
  invalid_config remote_broker : ConfigError

-- `Config.validate`; `none` is no error.
pub validate : (Bytes → Bool) → Config → Option ConfigError
validate loopback c =
    if not (in_bounds c)
    then some invalid_config
    else if ltb (length c.brokers) 1 || ltb 3 (length c.brokers)
    then some invalid_config
    else if all_loopback loopback c.brokers
    then none
    else some remote_broker

-- `bits.OnesCount32`
unfoldable pub ones_count : ℕ → ℕ → ℕ
ones_count zero m = 0
ones_count (suc n) m = m % 2 + ones_count n (m / 2)

-- `Config.validChoice`
pub valid_choice : Config → ℕ → Bool
valid_choice c choice =
    not (choice == 0)
    && bit_and choice (2 ^ 32 - 1 - c.allowed_mask) == 0
    && (c.multiple || ones_count 32 choice == 1)

-- `Config.Partition`
unfoldable pub partition : (Bytes → Bytes) → Config → Bytes → ℕ
partition sha256 c token = from_be (take 8 (sha256 (c.poll_id ++ token))) % c.partitions

-- `b[40:48]` of a record
pub stamp : ℕ → Bytes
stamp t = if is_zero t then zeros 8 else be 8 (unix_nano t)

-- `encodeRecord`
pub encode_record : Config → ℕ → Vote → Bytes
encode_record c kind v =
    1
    ∷ kind
    ∷ (if c.multiple then 1 else 0)
    ∷ 0
    ∷ (be 4 v.choice
        ++ (c.poll_id
            ++ (v.token
                ++ (stamp v.admitted_at
                    ++ (be 8 (unix_nano c.starts_at)
                        ++ (be 8 (unix_nano c.ends_at)
                            ++ (be 4 c.partitions ++ (be 4 c.allowed_mask ++ zeros 8))))))))

pub data RecordError : Type 0 where
  other_poll invalid_vote invalid_control : RecordError

pub data Decoded : Type 0 where
  decoded : ℕ → Vote → Decoded
  refused : RecordError → Decoded

-- The first test of `decodeRecord`, negated.
pub matches : Config → Bytes → Bool
matches c b =
    length b == 80
    && get_or b 0 0 == 1
    && leb record_vote (get_or b 1 0)
    && leb (get_or b 1 0) record_closed
    && leb (get_or b 2 0) 1
    && get_or b 3 0 == 0
    && (if c.multiple then get_or b 2 0 == 1 else not (get_or b 2 0 == 1))
    && bytes_eq (slice 8 16 b) c.poll_id
    && from_be (slice 48 8 b) == unix_nano c.starts_at
    && from_be (slice 56 8 b) == unix_nano c.ends_at
    && from_be (slice 64 4 b) == c.partitions
    && from_be (slice 68 4 b) == c.allowed_mask
    && from_be (slice 72 8 b) == 0

pub valid_vote : Config → Vote → Bool
valid_vote c v =
    not (bytes_eq v.token zero_token)
    && valid_choice c v.choice
    && not (before v.admitted_at c.starts_at)
    && before v.admitted_at c.ends_at

-- `decodeRecord`
pub decode_record : Config → Bytes → Decoded
decode_record c b =
    let choice = from_be (slice 4 4 b) in
    let token = slice 24 16 b in
    let voted : Vote = record {
      token = token;
      choice = choice;
      admitted_at = from_unix_nano (from_be (slice 40 8 b));
    } in
    if not (matches c b)
    then refused other_poll
    else if get_or b 1 0 == record_vote
    then (if valid_vote c voted then decoded record_vote voted else refused invalid_vote)
    else if not (bytes_eq token zero_token)
        || not (choice == 0)
        || not (from_be (slice 40 8 b) == 0)
    then refused invalid_control
    else decoded (get_or b 1 0) (record { token = token; choice = choice; admitted_at = 0 })
