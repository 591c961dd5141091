-- ===== src/Votecore/Interleaving.antt =====
-- Submit and Seal of internal/votecore/engine.go as other goroutines can interleave with them.
-- Submit holds its shard's lock from its read of `sealed` to its last write; Seal stores `sealed`
-- first and then takes the shards' locks one by one. The steps below are what lies between two
-- places where another goroutine can run.
use gigaquizz.Common.{
  ℕ, zero, suc, ◌+◌, ◌≤◌, ◌<◌, ◌≡◌, refl, sym, ap, ◌∙◌, true, false, not, ◌&&◌, List, [], ◌∷◌, ◌++◌,
  Option, none, some, length, get_or, set, take, take-all, length-set, arith, subst,
}
use native.Mathlib.Decide.{dec_lt}
use gigaquizz.GoTime.{unix_nano, int64_lt}
use gigaquizz.Votecore.{Engine, Shard, Input, Snapshot, empty_shard, after_load, collect}
use gigaquizz.Votecore.Cases.{after_load_cases, shard_at}
use gigaquizz.Votecore.Sealing.{first}

-- `holders` has for each shard the input of the Submit that holds its lock and has found `sealed`
-- unset; `sealer` is how many shards Seal has added up, and their sums.
pub record Threads : Type 0 where
  pub engine : Engine
  pub holders : List (Option Input)
  pub sealer : Option (ℕ × Snapshot)

abbrev holder : Threads → ℕ → Option Input
holder c p = get_or c.holders p none

pub data Step (c d : Threads) : Type 0 where
  -- Submit takes the lock of shard `p` and loads `sealed`.
  enter :
      (p : ℕ) (i : Input)
      → holder c p ≡ none
      → c.engine.sealed ≡ false
      → d ≡ record c { holders = set c.holders p (some i) }
      → Step c d
  -- Submit finds `sealed` set, or its input is invalid, and returns.
  turn_away : d ≡ c → Step c d
  -- Submit reads the clock, does the rest, and releases the lock. It loaded `sealed` before.
  leave :
      (p : ℕ) (i : Input) (now : ℕ)
      → holder c p ≡ some i
      → d ≡ record c { engine = (after_load c.engine p i now).0; holders = set c.holders p none }
      → Step c d
  -- Seal passes its first test and stores `sealed`.
  start_seal :
      (now : ℕ)
      → (not c.engine.sealed && int64_lt (unix_nano now) c.engine.end_ns) ≡ false
      → c.sealer ≡ none
      → d ≡ record c { engine = record c.engine { sealed = true }; sealer = some (0, first) }
      → Step c d
  -- Seal takes the lock of the next shard and adds up its votes.
  read_shard :
      (k : ℕ) (r : Snapshot)
      → c.sealer ≡ some (k, r)
      → k < length c.engine.shards
      → holder c k ≡ none
      → d ≡ record c { sealer = some (k + 1, collect (shard_at c.engine k ∷ []) r) }
      → Step c d

pub data Reach (s : Threads) : Threads → Type 0 where
  here : Reach s s
  next : {t u : Threads} → Reach s t → Step t u → Reach s u

-- What Seal has added up so far is what those shards hold, and none of them can change any more.
abbrev Summed : Engine → List (Option Input) → Option (ℕ × Snapshot) → Type 0
Summed e holders none = Unit {0}
Summed e holders (some (k, r)) =
    (e.sealed ≡ true)
    × (k ≤ length e.shards)
    × (r ≡ collect (take k e.shards) first)
    × ((j : ℕ) → j < k → get_or holders j none ≡ none)

record Safe (c : Threads) : Type 0 where
  locks : length c.holders ≡ length c.engine.shards
  summed : Summed c.engine c.holders c.sealer

take-set : {A : Type 0} (k p : ℕ) (xs : List A) (x : A) → k ≤ p → take k (set xs p x) ≡ take k xs
take-set zero p xs x h = refl
take-set (suc k) p [] x h = refl
take-set (suc k) zero (y ∷ xs) x h = absurd (omega arith)
take-set (suc k) (suc p) (y ∷ xs) x h = ap (λ t. y ∷ t) (take-set k p xs x (omega arith))

take-next :
    {A : Type 0} (k : ℕ) (xs : List A) (d : A)
    → k < length xs
    → take (k + 1) xs ≡ take k xs ++ get_or xs k d ∷ []
take-next k [] d h = absurd (omega arith)
take-next zero (x ∷ xs) d h = refl
take-next (suc k) (x ∷ xs) d h =
    let e : suc k + 1 ≡ suc (k + 1) = omega arith in
    rw e (ap (λ t. x ∷ t) (take-next k xs d (omega arith)))

collect-append :
    (xs ys : List Shard) (r : Snapshot) → collect (xs ++ ys) r ≡ collect ys (collect xs r)
unfolding collect
collect-append [] ys r = refl
collect-append (x ∷ xs) ys r = collect-append xs ys _

-- After its load of `sealed`, a Submit changes no other shard than its own, and never unsets `sealed`.
record Local (e e' : Engine) (p : ℕ) : Type 0 where
  size : length e'.shards ≡ length e.shards
  sealed : e.sealed ≡ true → e'.sealed ≡ true
  before : (k : ℕ) → k ≤ p → take k e'.shards ≡ take k e.shards

after_load-Local : (e : Engine) (p : ℕ) (i : Input) (now : ℕ) → Local e (after_load e p i now).0 p
after_load-Local e p i now =
    after_load_cases (λ r. Local e r.0 p) e p i now
      (λ _. record { size = refl; sealed = λ h. h; before = λ k _. refl })
      (λ _. record { size = refl; sealed = λ h. refl; before = λ k _. refl })
      (λ _. record {
        size = length-set e.shards p _;
        sealed = λ h. h;
        before = λ k h. take-set k p e.shards _ h;
      })

holder_in_range : (c : Threads) (p : ℕ) (i : Input) → holder c p ≡ some i → p < length c.holders
holder_in_range c p i h = in_range c.holders p h
  where
    in_range : (hs : List (Option Input)) (p : ℕ) → get_or hs p none ≡ some i → p < length hs
    in_range [] p h = cc
    in_range (x ∷ hs) zero h = omega arith
    in_range (x ∷ hs) (suc p) h = omega (arith, in_range hs p h)

free-set :
    (hs : List (Option Input)) (p j : ℕ)
    → get_or hs j none ≡ none
    → get_or (set hs p none) j none ≡ none
free-set [] p j h = refl
free-set (x ∷ hs) zero zero h = refl
free-set (x ∷ hs) zero (suc j) h = h
free-set (x ∷ hs) (suc p) zero h = h
free-set (x ∷ hs) (suc p) (suc j) h = free-set hs p j h

held_above :
    (hs : List (Option Input)) (k p : ℕ) (i : Input)
    → get_or hs p none ≡ some i
    → ((j : ℕ) → j < k → get_or hs j none ≡ none)
    → k ≤ p
held_above hs k p i h free = elim (dec_lt p k) [
  | yes below ↦ cc (free p below)
  | no above ↦ omega arith
]

leave-Summed :
    (e e' : Engine) (hs : List (Option Input)) (s : Option (ℕ × Snapshot)) (p : ℕ) (i : Input)
    → get_or hs p none ≡ some i
    → Local e e' p
    → Summed e hs s
    → Summed e' (set hs p none) s
leave-Summed e e' hs none p i h l v = tt
leave-Summed e e' hs (some (k, r)) p i h l (s, n, q, free) = (
  l.sealed s,
  omega (arith, l.size),
  q ∙ ap (λ xs. collect xs first) (sym (l.before k (held_above hs k p i h free))),
  λ j b. free-set hs p j (free j b),
)

enter-Summed :
    (e : Engine) (hs hs' : List (Option Input)) (s : Option (ℕ × Snapshot))
    → e.sealed ≡ false
    → Summed e hs s
    → Summed e hs' s
enter-Summed e hs hs' none h v = tt
enter-Summed e hs hs' (some (k, r)) h v = cc (h, v.0)

read-Summed :
    (e : Engine) (hs : List (Option Input)) (k : ℕ) (r : Snapshot)
    → Summed e hs (some (k, r))
    → k < length e.shards
    → get_or hs k none ≡ none
    → Summed e hs (some (k + 1, collect (shard_at e k ∷ []) r))
read-Summed e hs k r (s, n, q, free) h f = (
  s,
  omega arith,
  ap (collect (shard_at e k ∷ [])) q
      ∙ sym (collect-append (take k e.shards) (shard_at e k ∷ []) first)
      ∙ ap (λ xs. collect xs first) (sym (take-next k e.shards (empty_shard 0) h)),
  λ j b. elim (dec_lt j k) [
    | yes c ↦ free j c
    | no c ↦ subst (λ m. get_or hs m none ≡ none) (omega arith) f
  ],
)

Step-Safe : {c d : Threads} → Step c d → Safe c → Safe d
unfolding collect
Step-Safe {c} (enter p i idle open_ e) v = rw e (record {
  locks = length-set c.holders p (some i) ∙ v.locks;
  summed = enter-Summed c.engine c.holders _ c.sealer open_ v.summed;
})
Step-Safe {c} (turn_away e) v = rw e v
Step-Safe {c} (leave p i now held e) v =
    let l = after_load-Local c.engine p i now in
    rw e (record {
      locks = length-set c.holders p none ∙ v.locks ∙ sym l.size;
      summed = leave-Summed c.engine _ c.holders c.sealer p i held l v.summed;
    })
Step-Safe {c} (start_seal now past idle e) v =
    rw e
      (record { locks = v.locks; summed = (refl, omega arith, refl, λ j b. absurd (omega arith)) })
Step-Safe {c} (read_shard k r at more idle e) v = rw e (record {
  locks = v.locks;
  summed = read-Summed c.engine c.holders k r (rw at at v.summed) more idle;
})

Reach-Safe : {s c : Threads} → Reach s c → Safe s → Safe c
Reach-Safe here v = v
Reach-Safe (next r st) v = Step-Safe st (Reach-Safe r v)

-- Seal has read every shard.
abbrev pub Done : Threads → Snapshot → Type 0
Done c r = c.sealer ≡ some (length c.engine.shards, r)

Step-Done : {c d : Threads} (r : Snapshot) → Step c d → Safe c → Done c r → d ≡ c
Step-Done {c} r (enter p i idle open_ e) v h =
    let w : Summed c.engine c.holders (some (length c.engine.shards, r)) = rw h at v.summed in
    cc (w.0, open_)
Step-Done {c} r (turn_away e) v h = e
Step-Done {c} r (leave p i now held e) v h =
    let w : Summed c.engine c.holders (some (length c.engine.shards, r)) = rw h at v.summed in
    cc (held, w.3 p (omega (arith, v.locks, holder_in_range c p i held)))
Step-Done {c} r (start_seal now past idle e) v h = cc (idle, h)
Step-Done {c} r (read_shard k x at more idle e) v h =
    let q : some (k, x) ≡ some (length c.engine.shards, r) = sym at ∙ h in absurd (ground arith)

Reach-Done : {c d : Threads} (r : Snapshot) → Reach c d → Safe c → Done c r → d ≡ c
Reach-Done r here v h = refl
Reach-Done {c} r (next {t = t} more st) v h =
    let e : t ≡ c = Reach-Done r more v h in Step-Done r st (Reach-Safe more v) (rw e h) ∙ e

-- Goroutines that run Submit on any shards, interleaved with one Seal, from a state with one lock for
-- each shard and no Seal under way: when Seal has read the last shard, its sums are those of
-- all the shards' contents at that moment, as if it had read them at once, and no later step changes
-- any shard, so that no accepted vote is left out of the snapshot.
pub seal_is_final :
    (s c d : Threads) (r : Snapshot)
    → length s.holders ≡ length s.engine.shards
    → s.sealer ≡ none
    → Reach s c
    → Done c r
    → Reach c d
    → (r ≡ collect c.engine.shards first) × (d.engine.shards ≡ c.engine.shards)
seal_is_final s c d r locks idle before done after =
    let safe : Safe s = record { locks = locks; summed = rw idle tt } in
    let v = Reach-Safe before safe in
    let w : Summed c.engine c.holders (some (length c.engine.shards, r)) = rw done at v.summed in
    (
      w.2 ∙ ap (λ xs. collect xs first) (take-all c.engine.shards),
      ap (λ (t : Threads). t.engine.shards) (Reach-Done r after v done),
    )
