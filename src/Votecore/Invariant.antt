-- ===== src/Votecore/Invariant.antt =====
-- The engine's invariant: it holds after New, and Submit keeps it, whatever the input and the clock.
use gigaquizz.Common.{
  ℕ, zero, suc, ◌+◌, ◌^◌, ◌<◌, ◌≡◌, ◌≢◌, refl, ap, ◌∙◌, true, List, [], ◌∷◌, some, length, get_or,
  set, length-set, arith, if_cases, Option, subst,
}
use gigaquizz.Common.Bytes.{Bytes}
use gigaquizz.GoTime.{unix_nano}
use gigaquizz.Votecore.{
  Config, Engine, Shard, Input, empty_shard, store_vote, admit, partition, submit, new, Snapshot,
  seal,
}
use gigaquizz.Votecore.Cases.{admit_cases, submit_cases, valid_input-choice}
use gigaquizz.Votecore.Shards.{ShardInv, store_vote-ShardInv}
use gigaquizz.Votecore.Routing.{route, partition-route, route-lt}
use gigaquizz.Votecore.Setup.{ShardsInv, capacities, Accepts, Fresh, started-Fresh, new-started}

pub record EngineInv (sha256 : Bytes → Bytes) (e : Engine) : Type 0 where
  pub accepts : Accepts e.cfg
  pub start : e.start_ns ≡ unix_nano e.cfg.starts_at
  pub end : e.end_ns ≡ unix_nano e.cfg.ends_at
  pub shard_count : length e.shards ≡ e.cfg.shards
  pub total_capacity : capacities e.shards ≡ e.cfg.capacity
  pub shards : ShardsInv (route sha256 e.cfg.poll_id e.cfg.shards) 0 e.shards

-- An accepted configuration gives an open engine with empty shards, as many as it asks for, whose
-- capacities add up to the configured capacity, and the invariant holds of it.
pub new-EngineInv :
    (sha256 : Bytes → Bytes) (c : Config) (e : Engine)
    → new c ≡ some e
    → EngineInv sha256 e × Fresh (route sha256 c.poll_id c.shards) c e
new-EngineInv sha256 c e h =
    let (a, q) = new-started c e h in
    let f = started-Fresh (route sha256 c.poll_id c.shards) c a in
    rw q (
      record {
        accepts = a;
        start = refl;
        end = refl;
        shard_count = f.shard_count;
        total_capacity = f.total_capacity;
        shards = f.inv;
      },
      f,
    )

pub ShardsInv-get :
    (route : Bytes → ℕ) (i p : ℕ) (ss : List Shard)
    → ShardsInv route i ss
    → p < length ss
    → ShardInv route (i + p) (get_or ss p (empty_shard 0))
ShardsInv-get route i p [] v h = absurd (omega arith)
ShardsInv-get route i zero (s ∷ ss) v h = subst (λ j. ShardInv route j s) (omega arith) v.0
ShardsInv-get route i (suc p) (s ∷ ss) v h =
    subst (λ j. ShardInv route j (get_or ss p (empty_shard 0))) (omega arith)
      (ShardsInv-get route (suc i) p ss v.1 (omega arith))

ShardsInv-set :
    (route : Bytes → ℕ) (i p : ℕ) (ss : List Shard) (s : Shard)
    → ShardsInv route i ss
    → ShardInv route (i + p) s
    → ShardsInv route i (set ss p s)
ShardsInv-set route i p [] s v h = tt
ShardsInv-set route i zero (x ∷ ss) s v h = (subst (λ j. ShardInv route j s) (omega arith) h, v.1)
ShardsInv-set route i (suc p) (x ∷ ss) s v h =
    (v.0, ShardsInv-set route (suc i) p ss s v.1 (subst (λ j. ShardInv route j s) (omega arith) h))

capacities-set :
    (p : ℕ) (ss : List Shard) (s : Shard)
    → s.capacity ≡ (get_or ss p (empty_shard 0)).capacity
    → capacities (set ss p s) ≡ capacities ss
capacities-set p [] s h = refl
capacities-set zero (x ∷ ss) s h = omega arith
capacities-set (suc p) (x ∷ ss) s h = omega (arith, capacities-set p ss s h)

capacity-store_vote : (s : Shard) (i : Input) → (store_vote s i).0.capacity ≡ s.capacity
unfolding store_vote
capacity-store_vote s i = ground arith

pub sealed-EngineInv :
    (sha256 : Bytes → Bytes) (e : Engine)
    → EngineInv sha256 e
    → EngineInv sha256 (record e { sealed = true })
sealed-EngineInv sha256 e v = record {
  accepts = v.accepts;
  start = v.start;
  end = v.end;
  shard_count = v.shard_count;
  total_capacity = v.total_capacity;
  shards = v.shards;
}

-- Under the invariant the shard index is computed over the configured number of shards.
pub partition-shards :
    (sha256 : Bytes → Bytes) (e : Engine) (token : Bytes)
    → EngineInv sha256 e
    → partition sha256 e token ≡ route sha256 e.cfg.poll_id e.cfg.shards token
partition-shards sha256 e token v =
    partition-route sha256 e token ∙ ap (λ n. route sha256 e.cfg.poll_id n token) v.shard_count

module _ (sha256 : Bytes → Bytes) (e : Engine) (i : Input) (v : EngineInv sha256 e)
    (word : i.choice < 2 ^ 32) (some_choice : i.choice ≢ 0) where
  abbrev there : Bytes → ℕ
  there = route sha256 e.cfg.poll_id e.cfg.shards

  abbrev shard : Shard
  shard = get_or e.shards (there i.token) (empty_shard 0)

  in_range : there i.token < length e.shards
  in_range = omega (
    arith,
    v.shard_count,
    route-lt sha256 e.cfg.poll_id e.cfg.shards i.token v.accepts.some_shards,
  )

  stored-EngineInv :
      EngineInv sha256 (record e { shards = set e.shards (there i.token) (store_vote shard i).0 })
  stored-EngineInv = record {
    accepts = v.accepts;
    start = v.start;
    end = v.end;
    shard_count = length-set e.shards (there i.token) _ ∙ v.shard_count;
    total_capacity =
        capacities-set (there i.token) e.shards _ (capacity-store_vote shard i) ∙ v.total_capacity;
    shards = ShardsInv-set there 0 (there i.token) e.shards _ v.shards (
        subst (λ j. ShardInv there j (store_vote shard i).0) (omega arith)
          (store_vote-ShardInv there (there i.token) shard i
            (subst (λ j. ShardInv there j shard) (omega arith)
              (ShardsInv-get there 0 (there i.token) e.shards v.shards in_range))
            word some_choice refl));
  }

  admit-EngineInv : (now : ℕ) → EngineInv sha256 (admit e (there i.token) i now).0
  admit-EngineInv now =
      admit_cases (λ r. EngineInv sha256 r.0) e (there i.token) i now (λ _. v) (λ _ _. v)
        (λ _ _. sealed-EngineInv sha256 e v) (λ _ _. stored-EngineInv)

-- Submit keeps the invariant, for every uint32 choice and every clock reading: in each shard the 32
-- counters count the stored choices, no token is stored twice or in another shard than its own, the
-- stored choices are not 0, and the votes stay within the shard's capacity.
pub submit-EngineInv :
    (sha256 : Bytes → Bytes) (e : Engine) (i : Input) (now : ℕ)
    → EngineInv sha256 e
    → i.choice < 2 ^ 32
    → EngineInv sha256 (submit sha256 e i now).0
submit-EngineInv sha256 e i now v word =
    submit_cases sha256 (λ r. EngineInv sha256 r.0) e i now (λ _. v)
      λ ok.
        rw (partition-shards sha256 e i.token v)
          (admit-EngineInv sha256 e i v word (valid_input-choice e.cfg i ok) now)

-- Seal keeps the invariant of the engine at every clock reading.
pub seal-EngineInv :
    (sha256 : Bytes → Bytes) (e : Engine) (now : ℕ)
    → EngineInv sha256 e
    → EngineInv sha256 (seal e now).0
unfolding seal
seal-EngineInv sha256 e now v =
    if_cases (λ (r : Engine × Option Snapshot). EngineInv sha256 r.0) _ _ _ (λ _. v)
      (λ _. sealed-EngineInv sha256 e v)
