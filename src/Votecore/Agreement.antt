-- ===== src/Votecore/Agreement.antt =====
-- internal/votecore/engine.go and internal/votelog/types.go: the core and the journal on the broker
-- choose the same partition, the one by a mask and the other by a remainder.
use gigaquizz.Common.{◌≡◌, ◌%◌, sym, ap, ap₂, ◌∙◌, length, subst, ◌<◌, arith}
use native.Mathlib.Nat.{mod-lt}
use gigaquizz.Common.Bytes.{Bytes}
use gigaquizz.Votecore.{Engine}
use gigaquizz.Votecore.Routing.{digest, route, route-eq-mod, partition-route}
use gigaquizz.Votecore.Invariant.{EngineInv}
use gigaquizz.Votecore
use gigaquizz.Votelog

-- For an engine that satisfies the invariant of New and Submit, and a journal of the same poll with
-- as many partitions as the engine's configuration has shards, votecore's Partition and
-- votelog's Partition of a token are the same number, and it is below the number of shards.
pub partition-eq-partition :
    (sha256 : Bytes → Bytes) (e : Engine) (c : Votelog.Config) (token : Bytes)
    → EngineInv sha256 e
    → c.poll_id ≡ e.cfg.poll_id
    → c.partitions ≡ e.cfg.shards
    → (Votecore.partition sha256 e token ≡ Votelog.partition sha256 c token)
      × (Votelog.partition sha256 c token < length e.shards)
unfolding Votelog.partition
partition-eq-partition sha256 e c token v poll count =
    let same : Votecore.partition sha256 e token ≡ Votelog.partition sha256 c token =
      partition-route sha256 e token
      ∙ ap (λ n. route sha256 e.cfg.poll_id n token) v.shard_count
      ∙ route-eq-mod sha256 e.cfg.poll_id e.cfg.shards token v.accepts.some_shards v.accepts.power
      ∙ ap₂ (λ p n. digest sha256 p token % n) (sym poll) (sym count) in
    (
      same,
      subst (λ n. Votelog.partition sha256 c token < n) (count ∙ sym v.shard_count)
          (mod-lt (digest sha256 c.poll_id token) (omega (arith, count, v.accepts.some_shards))),
    )
