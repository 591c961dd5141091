-- ===== src/Votecore/Shards.antt =====
-- One shard: what its counters and its map say of each other, and that the locked part of Submit
-- keeps it.
use gigaquizz.Common.{
  ℕ, ◌+◌, ◌^◌, ◌≤◌, ◌<◌, ◌≡◌, ◌≢◌, refl, inl, inr, List, [], ◌∷◌, ◌++◌, none, length, length-append,
  get_or, All, arith, Bool-cases, leb, ◌==◌,
}
use gigaquizz.Common.Bytes.{Bytes}
use gigaquizz.Common.Assoc.{Assoc, lookup, put, put_fresh, UniqueKeys, UniqueKeys-snoc}
use gigaquizz.Common.Total.{sum_of, sum_of-append, sum_of-le}
use gigaquizz.Votecore.{Shard, Input, store_vote, count_bits, map_get}
use gigaquizz.Common.Bits.{bit, bit-le}
use gigaquizz.Votecore.Counts.{count_bits_lem}

-- A stored choice is a uint32 other than 0, in the shard `p` of its token.
abbrev pub Stored : (Bytes → ℕ) → ℕ → Bytes × ℕ → Type 0
Stored route p (token, choice) = (choice ≢ 0) × (choice < 2 ^ 32) × (route token ≡ p)

-- The votes of a shard that chose option `b`.
abbrev pub tally : ℕ → Assoc ℕ → ℕ
tally b votes = sum_of (λ (v : Bytes × ℕ). bit b v.1) votes

pub record ShardInv (route : Bytes → ℕ) (p : ℕ) (s : Shard) : Type 0 where
  pub width : length s.counts ≡ 32
  pub counted : (b : ℕ) → b < 32 → get_or s.counts b 0 ≡ tally b s.votes
  pub bounded : length s.votes ≤ s.capacity
  pub small : s.capacity < 2 ^ 32
  pub stored : All (Stored route p) s.votes
  pub unique : UniqueKeys s.votes

All-snoc {ℓ κ} :
    {A : Type ℓ} (P : A → Type κ) (xs : List A) (x : A) → All P xs → P x → All P (xs ++ x ∷ [])
All-snoc P [] x h p = (p, tt)
All-snoc P (y ∷ xs) x h p = (h.0, All-snoc P xs x h.1 p)

pub tally-le : (b : ℕ) (votes : Assoc ℕ) → tally b votes ≤ length votes
tally-le b votes = sum_of-le (λ (v : Bytes × ℕ). bit b v.1) (λ v. bit-le b v.1) votes

-- A token with a stored vote reads as a number other than 0.
pub map_get-stored :
    (route : Bytes → ℕ) (p : ℕ) (k : Bytes) (m : Assoc ℕ)
    → All (Stored route p) m
    → map_get k m ≡ 0
    → lookup k m ≡ none
unfolding lookup
map_get-stored route p k [] h e = refl
map_get-stored route p k ((j, v) ∷ m) h e = ground (arith, map_get-stored route p k m h.1)

module _ (route : Bytes → ℕ) (p : ℕ) (s : Shard) (i : Input) (v : ShardInv route p s)
    (word : i.choice < 2 ^ 32) (some_choice : i.choice ≢ 0) (routed : route i.token ≡ p) where
  added_ShardInv :
      lookup i.token s.votes ≡ none
      → length s.votes < s.capacity
      → ShardInv route p (record s {
        votes = put i.token i.choice s.votes;
        counts = count_bits 32 i.choice s.counts;
      })
  added_ShardInv fresh room = rw (put_fresh i.token i.choice s.votes fresh) (record {
    width = (step 0 (omega arith)).1;
    counted = λ b h. omega (
      arith,
      (step b h).0,
      v.counted b h,
      sum_of-append (λ (v : Bytes × ℕ). bit b v.1) s.votes ((i.token, i.choice) ∷ []),
    );
    bounded = omega (arith, length-append s.votes ((i.token, i.choice) ∷ []));
    small = v.small;
    stored = All-snoc (Stored route p) s.votes _ v.stored (some_choice, word, routed);
    unique = UniqueKeys-snoc i.token i.choice s.votes v.unique fresh;
  })
    where
      step :
          (b : ℕ)
          → b < 32
          → (get_or (count_bits 32 i.choice s.counts) b 0 ≡ get_or s.counts b 0 + bit b i.choice)
            × (length (count_bits 32 i.choice s.counts) ≡ 32)
      step b h =
          count_bits_lem i.choice s.counts b word v.width (
            omega (arith, v.counted b h, tally-le b s.votes, v.bounded, v.small, bit-le b i.choice))

  -- The locked part of Submit keeps the shard's invariant, whatever its answer.
  pub store_vote-ShardInv : ShardInv route p (store_vote s i).0
  unfolding store_vote
  store_vote-ShardInv = elim (Bool-cases (map_get i.token s.votes == 0)) [
    | inr old ↦ rw old v
    | inl new ↦ rw new (elim (Bool-cases (leb s.capacity (length s.votes))) [
      | inl full ↦ rw full v
      | inr room ↦ rw room (
          added_ShardInv (map_get-stored route p i.token s.votes v.stored (ground arith))
            (ground arith))
    ])
  ]
