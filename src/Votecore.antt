-- ===== src/Votecore.antt =====
-- internal/votecore/engine.go: the bounded in-memory voting core. A method runs on the engine and
-- the clock reading that it takes, and returns the new engine. SHA-256 is a parameter, of which the
-- core uses nothing but that it is a function.
mod Counts
mod Shards
mod Cases
mod Routing
pub mod Agreement
mod Setup
mod Invariant
mod Sealing
mod History
mod Interleaving
mod Tests
use gigaquizz.Common.{
  ℕ, zero, suc, ◌+◌, ◌-◌, ◌*◌, ◌/◌, ◌%◌, ◌^◌, Bool, true, false, not, ◌&&◌, ◌||◌, List, [], ◌∷◌,
  ◌++◌, Option, none, some, bit_and, ltb, leb, ◌==◌, if◌then◌else◌, length, get_or, set, take,
}
use gigaquizz.Common.Bytes.{Bytes, bytes_eq, from_be, zeros}
use gigaquizz.Common.Assoc.{Assoc, lookup, put}
use gigaquizz.GoTime.{minute, is_zero, apart, unix_nano, int64_lt}

pub record Config : Type 0 where
  pub poll_id : Bytes
  pub starts_at : ℕ
  pub ends_at : ℕ
  pub allowed_mask : ℕ
  pub multiple : Bool
  pub shards : ℕ
  pub capacity : ℕ

pub record Input : Type 0 where
  pub token : Bytes
  pub choice : ℕ

pub data Status : Type 0 where
  accepted duplicate closed not_open invalid capacity_exceeded : Status

pub record Result : Type 0 where
  pub status : Status
  pub choice : ℕ

pub record Snapshot : Type 0 where
  pub total : ℕ
  pub counts : List ℕ
  pub closed : Bool

pub record Shard : Type 0 where
  pub votes : Assoc ℕ
  pub counts : List ℕ
  pub capacity : ℕ

pub record Engine : Type 0 where
  pub cfg : Config
  pub start_ns : ℕ
  pub end_ns : ℕ
  pub shards : List Shard
  pub sealed : Bool

-- `[16]byte{}`
abbrev pub zero_token : Bytes
zero_token = zeros 16

-- `bits.OnesCount32` on the low `n` bits
unfoldable pub ones_count : ℕ → ℕ → ℕ
ones_count zero m = 0
ones_count (suc n) m = m % 2 + ones_count n (m / 2)

-- `bits.TrailingZeros32` on the low `n` bits
unfoldable pub trailing_zeros : ℕ → ℕ → ℕ
trailing_zeros zero m = 0
trailing_zeros (suc n) m = let rest = trailing_zeros n (m / 2) in if m % 2 == 1 then 0 else suc rest

-- `x & ^mask` on uint32
abbrev pub outside_mask : ℕ → ℕ → ℕ
outside_mask x mask = bit_and x (2 ^ 32 - 1 - mask)

-- The test of `New`, negated.
unfoldable pub valid_config : Config → Bool
valid_config c =
    not (bytes_eq c.poll_id zero_token)
    && not (is_zero c.starts_at)
    && apart c.starts_at c.ends_at minute
    && not (c.allowed_mask == 0)
    && leb 1 c.shards
    && leb c.shards 4096
    && bit_and c.shards (c.shards - 1) == 0
    && leb c.shards c.capacity
    && leb c.capacity 200_000_000

pub empty_shard : ℕ → Shard
empty_shard capacity = record { votes = []; counts = zeros 32; capacity = capacity }

-- The loop over `e.shards`: shard `i` first, `n` shards in all.
pub make_shards : ℕ → ℕ → ℕ → ℕ → List Shard
make_shards zero i base extra = []
make_shards (suc n) i base extra =
    empty_shard (if ltb i extra then base + 1 else base) ∷ make_shards n (i + 1) base extra

-- `New`; `none` is ErrInvalidConfig.
pub new : Config → Option Engine
new c =
    if valid_config c
    then some (record {
      cfg = c;
      start_ns = unix_nano c.starts_at;
      end_ns = unix_nano c.ends_at;
      shards = make_shards c.shards 0 (c.capacity / c.shards) (c.capacity % c.shards);
      sealed = false;
    })
    else none

-- The first test of `Submit`, negated.
unfoldable pub valid_input : Config → Input → Bool
valid_input c i =
    not (bytes_eq i.token zero_token)
    && not (i.choice == 0)
    && outside_mask i.choice c.allowed_mask == 0
    && (c.multiple || ones_count 32 i.choice == 1)

-- `s.counts[i]++` on uint64
pub bump : List ℕ → ℕ → List ℕ
bump counts i = set counts i ((get_or counts i 0 + 1) % 2 ^ 64)

-- `for mask := choice; mask != 0; mask &= mask - 1`; a uint32 has at most 32 ones, so 32 rounds do.
pub count_bits : ℕ → ℕ → List ℕ → List ℕ
count_bits zero mask counts = counts
count_bits (suc n) mask counts =
    let rest = count_bits n (bit_and mask (mask - 1)) (bump counts (trailing_zeros 32 mask)) in
    if mask == 0 then counts else rest

-- `m[k]` of a Go map of numbers: 0 where the key is missing.
abbrev pub map_get : Bytes → Assoc ℕ → ℕ
map_get k m = elim (lookup k m) [ none ↦ 0 | some v ↦ v ]

-- From the duplicate test on, under the shard's lock.
pub store_vote : Shard → Input → Shard × Result
store_vote s i =
    let previous = map_get i.token s.votes in
    if not (previous == 0)
    then (s, record { status = duplicate; choice = previous })
    else if leb s.capacity (length s.votes)
    then (s, record { status = capacity_exceeded; choice = 0 })
    else (
      record s { votes = put i.token i.choice s.votes; counts = count_bits 32 i.choice s.counts },
      record { status = accepted; choice = i.choice },
    )

abbrev refused : Status → Result
refused s = record { status = s; choice = 0 }

-- The critical section of `Submit` on shard `p`, after it has found `e.sealed` unset; `now` is what
-- `e.now()` returns in it.
pub after_load : Engine → ℕ → Input → ℕ → Engine × Result
after_load e p i now =
    if int64_lt (unix_nano now) e.start_ns
    then (e, refused not_open)
    else if not (int64_lt (unix_nano now) e.end_ns)
    then (record e { sealed = true }, refused closed)
    else let (s, r) = store_vote (get_or e.shards p (empty_shard 0)) i in
      (record e { shards = set e.shards p s }, r)

-- The critical section of `Submit` on shard `p`.
pub admit : Engine → ℕ → Input → ℕ → Engine × Result
unfolding after_load
admit e p i now = if e.sealed then (e, refused closed) else after_load e p i now

-- The loop of `Seal` over the shards.
pub add_counts : List ℕ → List ℕ → List ℕ
add_counts [] ms = []
add_counts (n ∷ ns) [] = n ∷ ns
add_counts (n ∷ ns) (m ∷ ms) = ((n + m) % 2 ^ 64) ∷ add_counts ns ms

pub collect : List Shard → Snapshot → Snapshot
collect [] r = r
collect (s ∷ rest) r = collect rest (record r {
  total = (r.total + length s.votes) % 2 ^ 64;
  counts = add_counts r.counts s.counts;
})

-- `Seal`; `none` is ErrStillOpen. The clock is read only while the engine is not sealed.
pub seal : Engine → ℕ → Engine × Option Snapshot
seal e now = if not e.sealed && int64_lt (unix_nano now) e.end_ns then (e, none) else (
  record e { sealed = true },
  some (collect e.shards (record { total = 0; counts = zeros 32; closed = true })),
)

module _ (sha256 : Bytes → Bytes) where
  pub partition : Engine → Bytes → ℕ
  partition e token =
      bit_and (from_be (take 8 (sha256 (e.cfg.poll_id ++ token)))) (length e.shards - 1)

  pub submit : Engine → Input → ℕ → Engine × Result
  submit e i now =
      if valid_input e.cfg i then admit e (partition e i.token) i now else (e, refused invalid)

  -- `Lookup` returns `s.votes[token]` and whether it is there.
  pub find_vote : Engine → Bytes → Option ℕ
  find_vote e token = lookup token (get_or e.shards (partition e token) (empty_shard 0)).votes
