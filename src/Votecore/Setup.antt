-- ===== src/Votecore/Setup.antt =====
-- What `New` sets up.
use gigaquizz.Common.{
  ℕ, zero, suc, ◌+◌, ◌-◌, ◌*◌, ◌/◌, ◌%◌, ◌^◌, ◌≤◌, ◌<◌, ◌≡◌, refl, ap, true, false, List, [], ◌∷◌,
  some, length, arith, min, Bool-cases, bit_and, inl, inr,
}
use gigaquizz.Common.Bytes.{Bytes, get_or-zeros}
use gigaquizz.Common.Total.{sum_of}
use gigaquizz.GoTime.{minute, unix_nano}
use gigaquizz.Votecore.{Config, Engine, Shard, valid_config, make_shards, empty_shard, new}
use gigaquizz.Votecore.Shards.{ShardInv}
use native.Mathlib.Nat.{div-add-mod, mod-lt}

abbrev pub capacities : List Shard → ℕ
capacities = sum_of (λ (s : Shard). s.capacity)

-- Every shard from index `i` on keeps its invariant.
abbrev pub ShardsInv : (Bytes → ℕ) → ℕ → List Shard → Type 0
ShardsInv route i [] = Unit {0}
ShardsInv route i (s ∷ ss) = ShardInv route i s × ShardsInv route (suc i) ss

pub empty_ShardInv :
    (route : Bytes → ℕ) (p cap : ℕ) → cap < 2 ^ 32 → ShardInv route p (empty_shard cap)
unfolding empty_shard
empty_ShardInv route p cap h = record {
  width = refl;
  counted = λ b k. get_or-zeros 32 b;
  bounded = omega arith;
  small = h;
  stored = tt;
  unique = tt;
}

length-make_shards : (n i base extra : ℕ) → length (make_shards n i base extra) ≡ n
unfolding make_shards
length-make_shards zero i base extra = refl
length-make_shards (suc n) i base extra = ap suc (length-make_shards n (i + 1) base extra)

make_shards-ShardsInv :
    (route : Bytes → ℕ) (n i p base extra : ℕ)
    → base + 1 < 2 ^ 32
    → ShardsInv route p (make_shards n i base extra)
unfolding make_shards
make_shards-ShardsInv route zero i p base extra h = tt
make_shards-ShardsInv route (suc n) i p base extra h = (
  empty_ShardInv route p _ (ground arith),
  make_shards-ShardsInv route n (i + 1) (suc p) base extra h,
)

capacities-make_shards :
    (n i base extra : ℕ) → capacities (make_shards n i base extra) ≡ n * base + min (extra - i) n
unfolding make_shards empty_shard
capacities-make_shards zero i base extra = omega arith
capacities-make_shards (suc n) i base extra =
    ground (arith, capacities-make_shards n (i + 1) base extra)

pub record Accepts (c : Config) : Type 0 where
  pub some_shards : 0 < c.shards
  pub few_shards : c.shards ≤ 4096
  pub power : bit_and c.shards (c.shards - 1) ≡ 0
  pub enough : c.shards ≤ c.capacity
  pub limited : c.capacity ≤ 200_000_000
  pub window : c.ends_at ≡ c.starts_at + minute
  pub some_choice : 0 < c.allowed_mask
  pub valid : valid_config c ≡ true

pub valid_config-Accepts : (c : Config) → valid_config c ≡ true → Accepts c
unfolding valid_config
valid_config-Accepts c h = record {
  some_shards = ground arith;
  few_shards = ground arith;
  power = ground arith;
  enough = ground arith;
  limited = ground arith;
  window = ground arith;
  some_choice = ground arith;
  valid = h;
}

abbrev pub started : Config → Engine
started c = record {
  cfg = c;
  start_ns = unix_nano c.starts_at;
  end_ns = unix_nano c.ends_at;
  shards = make_shards c.shards 0 (c.capacity / c.shards) (c.capacity % c.shards);
  sealed = false;
}

pub new-started : (c : Config) (e : Engine) → new c ≡ some e → Accepts c × (e ≡ started c)
unfolding new
new-started c e h = elim (Bool-cases (valid_config c)) [
  | inl v ↦ (valid_config-Accepts c v, ground arith)
  | inr v ↦ absurd (ground arith)
]

-- What the accepted configuration of `New` gives: one shard for each that was asked for, all of them
-- empty, and the capacities of the shards add up to the configured capacity exactly.
pub record Fresh (route : Bytes → ℕ) (c : Config) (e : Engine) : Type 0 where
  pub cfg : e.cfg ≡ c
  pub open_ : e.sealed ≡ false
  pub shard_count : length e.shards ≡ c.shards
  pub total_capacity : capacities e.shards ≡ c.capacity
  pub inv : ShardsInv route 0 e.shards

pub started-Fresh : (route : Bytes → ℕ) (c : Config) → Accepts c → Fresh route c (started c)
started-Fresh route c a = record {
  cfg = refl;
  open_ = refl;
  shard_count = length-make_shards c.shards 0 _ _;
  total_capacity = omega (
    arith,
    capacities-make_shards c.shards 0 (c.capacity / c.shards) (c.capacity % c.shards),
    div-add-mod c.capacity c.shards,
    mod-lt c.capacity a.some_shards,
    a.some_shards,
  );
  inv = make_shards-ShardsInv route c.shards 0 0 _ _ (ground (arith, a.limited));
}
