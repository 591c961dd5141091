-- ===== src/Votecore/Sealing.antt =====
-- Seal: what the snapshot counts.
use gigaquizz.Common.{
  ℕ, zero, suc, ◌+◌, ◌%◌, ◌^◌, ◌≤◌, ◌<◌, ◌≡◌, refl, ◌∙◌, true, false, not, ◌&&◌, ◌↔◌, inl, inr,
  List, [], ◌∷◌, none, some, length, get_or, arith, Bool-cases,
}
use gigaquizz.Common.Bytes.{Bytes, zeros, get_or-zeros}
use gigaquizz.Common.Total.{sum_of}
use gigaquizz.GoTime.{unix_nano, int64_lt}
use gigaquizz.Votecore.{Engine, Shard, Snapshot, add_counts, collect, seal}
use gigaquizz.Votecore.Shards.{tally, tally-le}
use gigaquizz.Votecore.Routing.{route}
use gigaquizz.Votecore.Setup.{ShardsInv, capacities}
use gigaquizz.Votecore.Invariant.{EngineInv}

-- The stored votes of all shards, and those among them for option `b`.
abbrev pub stored_votes : List Shard → ℕ
stored_votes = sum_of (λ (s : Shard). length s.votes)

abbrev pub stored_for : ℕ → List Shard → ℕ
stored_for b = sum_of (λ (s : Shard). tally b s.votes)

get_or-add_counts :
    (ns ms : List ℕ) (b : ℕ)
    → length ns ≡ length ms
    → get_or ns b 0 + get_or ms b 0 < 2 ^ 64
    → get_or (add_counts ns ms) b 0 ≡ get_or ns b 0 + get_or ms b 0
unfolding add_counts
get_or-add_counts [] [] b h k = refl
get_or-add_counts [] (m ∷ ms) b h k = absurd (omega arith)
get_or-add_counts (n ∷ ns) [] b h k = absurd (omega arith)
get_or-add_counts (n ∷ ns) (m ∷ ms) zero h k = omega arith
get_or-add_counts (n ∷ ns) (m ∷ ms) (suc b) h k = get_or-add_counts ns ms b (omega arith) k

length-add_counts : (ns ms : List ℕ) → length (add_counts ns ms) ≡ length ns
unfolding add_counts
length-add_counts [] ms = refl
length-add_counts (n ∷ ns) [] = refl
length-add_counts (n ∷ ns) (m ∷ ms) = omega (arith, length-add_counts ns ms)

collect-total :
    (there : Bytes → ℕ) (i : ℕ) (ss : List Shard) (r : Snapshot)
    → ShardsInv there i ss
    → r.total + capacities ss < 2 ^ 64
    → (collect ss r).total ≡ r.total + stored_votes ss
unfolding collect
collect-total there i [] r v h = omega arith
collect-total there i (s ∷ ss) r v h =
    let n = (r.total + length s.votes) % 2 ^ 64 in
    let r' : Snapshot = record r { total = n; counts = add_counts r.counts s.counts } in
    omega (arith, collect-total there (suc i) ss r' v.1 (omega (arith, v.0.bounded)), v.0.bounded)

collect-counts :
    (there : Bytes → ℕ) (i : ℕ) (ss : List Shard) (r : Snapshot) (b : ℕ)
    → ShardsInv there i ss
    → b < 32
    → length r.counts ≡ 32
    → get_or r.counts b 0 + capacities ss < 2 ^ 64
    → get_or (collect ss r).counts b 0 ≡ get_or r.counts b 0 + stored_for b ss
unfolding collect
collect-counts there i [] r b v k w h = omega arith
collect-counts there i (s ∷ ss) r b v k w h =
    let n = (r.total + length s.votes) % 2 ^ 64 in
    let r' : Snapshot = record r { total = n; counts = add_counts r.counts s.counts } in
    let c = v.0.counted b k in
    let small : tally b s.votes ≤ s.capacity = omega (arith, tally-le b s.votes, v.0.bounded) in
    let up = get_or-add_counts r.counts s.counts b (omega (arith, v.0.width)) (omega arith) in
    collect-counts there (suc i) ss r' b v.1 k (length-add_counts r.counts s.counts ∙ w)
      (omega arith)
    ∙ omega arith

stored_votes-le :
    (there : Bytes → ℕ) (i : ℕ) (ss : List Shard)
    → ShardsInv there i ss
    → stored_votes ss ≤ capacities ss
stored_votes-le there i [] v = omega arith
stored_votes-le there i (s ∷ ss) v =
    omega (arith, v.0.bounded, stored_votes-le there (suc i) ss v.1)

abbrev pub first : Snapshot
first = record { total = 0; counts = zeros 32; closed = true }

seal-some :
    (e : Engine) (now : ℕ) (r : Snapshot)
    → (seal e now).1 ≡ some r
    → ((seal e now).0 ≡ record e { sealed = true }) × (collect e.shards first ≡ r)
unfolding seal
seal-some e now r h = elim (Bool-cases (not e.sealed && int64_lt (unix_nano now) e.end_ns)) [
  | inl k ↦ absurd (ground arith)
  | inr k ↦ rw k (refl, ground arith)
]

-- When Seal answers with a snapshot, that reports exactly what the shards store: the total is the
-- number of stored votes, the count of each of the 32 options is the number of stored votes that
-- chose it, the total is within the configured capacity, and the engine is sealed and otherwise
-- unchanged.
pub seal-snapshot :
    (sha256 : Bytes → Bytes) (e : Engine) (now : ℕ) (r : Snapshot) (b : ℕ)
    → EngineInv sha256 e
    → (seal e now).1 ≡ some r
    → b < 32
    → (r.total ≡ stored_votes e.shards)
      × (get_or r.counts b 0 ≡ stored_for b e.shards)
      × (r.total ≤ e.cfg.capacity)
      × ((seal e now).0 ≡ record e { sealed = true })
seal-snapshot sha256 e now r b v h k =
    let (s, q) = seal-some e now r h in
    let there = route sha256 e.cfg.poll_id e.cfg.shards in
    let small : capacities e.shards ≤ 200_000_000 =
      omega (arith, v.total_capacity, v.accepts.limited) in
    let t = collect-total there 0 e.shards first v.shards (omega arith) in
    rw (← q) (
      t ∙ omega arith,
      collect-counts there 0 e.shards first b v.shards k refl (omega (arith, get_or-zeros 32 b))
          ∙ omega (arith, get_or-zeros 32 b),
      omega (arith, t, stored_votes-le there 0 e.shards v.shards, v.total_capacity),
      s,
    )

-- Seal answers ErrStillOpen exactly while the engine is not sealed and the clock is before the end,
-- and then it changes nothing.
pub seal-still_open :
    (e : Engine) (now : ℕ)
    → ((seal e now ≡ (e, none)) ↔ ((e.sealed ≡ false) × (int64_lt (unix_nano now) e.end_ns ≡ true)))
unfolding seal
seal-still_open e now = elim (Bool-cases (not e.sealed && int64_lt (unix_nano now) e.end_ns)) [
  | inl k ↦ rw k ((λ _. (ground arith, ground arith)), λ _. refl)
  | inr k ↦ rw k ((λ p. cc), λ p. absurd (ground arith))
]
