-- ===== src/Votecore/History.antt =====
-- Histories of calls: the first accepted choice of a token stays, and a sealed engine takes no vote.
use gigaquizz.Common.{
  ℕ, ◌^◌, ◌<◌, ◌≡◌, ◌≢◌, refl, sym, ◌∙◌, true, false, inl, inr, ◌⊎◌, ◌↔◌, List, [], ◌∷◌, Option,
  none, some, length, get_or, get_or-set_self, get_or-set_ne, set-get_or, length-set, set, All,
  arith, Bool-cases, ==_iff, ◌==◌, subst, if_cases,
}
use gigaquizz.Common.Bytes.{Bytes, bytes_eq, bytes_eq_sound, bytes_eq_refl}
use gigaquizz.Common.Assoc.{Assoc, lookup, lookup-put}
use gigaquizz.GoTime.{unix_nano, int64_lt}
use gigaquizz.Votecore.{
  Engine, Shard, Input, Result, Snapshot, accepted, duplicate, valid_input, empty_shard, store_vote,
  admit, partition, submit, seal, find_vote,
}
use gigaquizz.Votecore.Cases.{InWindow, shard_at, stored, admit_cases, submit_cases}
use gigaquizz.Votecore.Shards.{ShardInv, Stored, map_get-stored}
use gigaquizz.Votecore.Routing.{route, route-lt}
use gigaquizz.Votecore.Invariant.{
  EngineInv, ShardsInv-get, partition-shards, submit-EngineInv, seal-EngineInv,
}

-- A stored choice reads back as a number other than 0.
lookup-Stored :
    (there : Bytes → ℕ) (p : ℕ) (k : Bytes) (m : Assoc ℕ) (c : ℕ)
    → All (Stored there p) m
    → lookup k m ≡ some c
    → c ≢ 0
unfolding lookup
lookup-Stored there p k [] c h e = λ _. ground arith
lookup-Stored there p k ((j, v) ∷ m) c h e = elim (Bool-cases (bytes_eq j k)) [
  | inl f ↦ λ q. h.0.0 (ground (arith, q))
  | inr f ↦ lookup-Stored there p k m c h.1 (ground arith)
]

lookup-store_vote :
    (s : Shard) (i : Input) (k : Bytes) (c : ℕ)
    → c ≢ 0
    → lookup k s.votes ≡ some c
    → lookup k (store_vote s i).0.votes ≡ some c
unfolding store_vote
lookup-store_vote s i k c h e = elim (Bool-cases (bytes_eq i.token k)) [
  | inl f ↦
      subst (λ t. lookup k (store_vote s (record i { token = t })).0.votes ≡ some c)
        (sym (bytes_eq_sound i.token k f)) (ground arith)
  | inr f ↦ ground (arith, lookup-put i.token k i.choice s.votes)
]

module _ (sha256 : Bytes → Bytes) where
  abbrev home : Engine → Bytes → ℕ
  home e t = partition sha256 e t

  home-lt : (e : Engine) (t : Bytes) → EngineInv sha256 e → home e t < length e.shards
  home-lt e t v = omega (
    arith,
    partition-shards sha256 e t v,
    route-lt sha256 e.cfg.poll_id e.cfg.shards t v.accepts.some_shards,
    v.shard_count,
  )

  home-ShardInv :
      (e : Engine) (t : Bytes)
      → EngineInv sha256 e
      → ShardInv (route sha256 e.cfg.poll_id e.cfg.shards) (home e t) (shard_at e (home e t))
  home-ShardInv e t v =
      subst (λ j. ShardInv (route sha256 e.cfg.poll_id e.cfg.shards) j (shard_at e (home e t)))
        (omega arith)
        (ShardsInv-get (route sha256 e.cfg.poll_id e.cfg.shards) 0 (home e t) e.shards v.shards
          (home-lt e t v))

  home-stored : (e : Engine) (p : ℕ) (i : Input) (t : Bytes) → home (stored e p i) t ≡ home e t
  unfolding partition
  home-stored e p i t = rw (length-set e.shards p (store_vote (shard_at e p) i).0)

  find_vote-stored :
      (e : Engine) (i : Input) (t : Bytes) (c : ℕ)
      → EngineInv sha256 e
      → find_vote sha256 e t ≡ some c
      → find_vote sha256 (stored e (home e i.token) i) t ≡ some c
  unfolding find_vote
  find_vote-stored e i t c v h =
      rw (home-stored e (home e i.token) i t) (at_home (home e i.token) (home e t) refl)
    where
      at_home :
          (p q : ℕ)
          → q ≡ home e t
          → lookup t
              (get_or
                (set e.shards p (store_vote (shard_at e p) i).0)
                (home e t)
                (empty_shard 0)).votes
            ≡ some c
      at_home p q f = elim (Bool-cases (p == home e t)) [
        | inl g ↦ rw ((==_iff p (home e t)).0 g) (
            rw
              (get_or-set_self e.shards (home e t) (store_vote (shard_at e (home e t)) i).0
                (empty_shard 0) (home-lt e t v))
              (lookup-store_vote (shard_at e (home e t)) i t c
                (lookup-Stored _ _ t _ c (home-ShardInv e t v).stored h) h))
        | inr g ↦
            rw
              (get_or-set_ne e.shards p (home e t) (store_vote (shard_at e p) i).0 (empty_shard 0)
                (λ r. ground (arith, r)))
              h
      ]

  -- Submit never changes or removes a stored choice, of whatever token.
  find_vote-submit :
      (e : Engine) (i : Input) (now : ℕ) (t : Bytes) (c : ℕ)
      → EngineInv sha256 e
      → find_vote sha256 e t ≡ some c
      → find_vote sha256 (submit sha256 e i now).0 t ≡ some c
  find_vote-submit e i now t c v h =
      submit_cases sha256 (λ r. find_vote sha256 r.0 t ≡ some c) e i now (λ _. h)
        λ ok.
          admit_cases (λ r. find_vote sha256 r.0 t ≡ some c) e (home e i.token) i now (λ _. h)
            (λ _ _. h) (λ _ _. unfold find_vote partition in h)
            (λ _ _. find_vote-stored e i t c v h)

  find_vote-home :
      (e : Engine) (i : Input)
      → EngineInv sha256 e
      → find_vote sha256 (stored e (home e i.token) i) i.token
        ≡ lookup i.token (store_vote (shard_at e (home e i.token)) i).0.votes
  unfolding find_vote
  find_vote-home e i v = rw (home-stored e (home e i.token) i i.token) (
      rw (
        get_or-set_self e.shards (home e i.token) (store_vote (shard_at e (home e i.token)) i).0
          (empty_shard 0) (home-lt e i.token v)))

-- The locked part of Submit accepts exactly a token that is not stored, while there is room, and
-- then it stores the choice.
store_vote-accepts :
    (there : Bytes → ℕ) (p : ℕ) (s : Shard) (i : Input)
    → ShardInv there p s
    → ((store_vote s i).1.status ≡ accepted)
      ↔ ((lookup i.token s.votes ≡ none) × (length s.votes < s.capacity))
unfolding store_vote
store_vote-accepts there p s i v = (
  (λ h. (map_get-stored there p i.token s.votes v.stored (ground arith), ground arith)),
  (λ h. ground arith),
)

store_vote-stores :
    (s : Shard) (i : Input)
    → (store_vote s i).1.status ≡ accepted
    → ((store_vote s i).1.choice ≡ i.choice)
      × (lookup i.token (store_vote s i).0.votes ≡ some i.choice)
unfolding store_vote
store_vote-stores s i h =
    ground (arith, lookup-put i.token i.token i.choice s.votes, bytes_eq_refl i.token)

store_vote-duplicate :
    (s : Shard) (i : Input) (c : ℕ)
    → lookup i.token s.votes ≡ some c
    → c ≢ 0
    → store_vote s i ≡ (s, record { status = duplicate; choice = c })
unfolding store_vote
store_vote-duplicate s i c h k = ground arith

-- A call of the engine, with the clock reading that it takes.
pub data Call : Type 0 where
  submits : Input → ℕ → Call
  seals : ℕ → Call

-- Choices are uint32.
abbrev pub Typed : Call → Type 0
Typed (submits i now) = i.choice < 2 ^ 32
Typed (seals now) = Unit {0}

-- Why a vote is not even looked up: it is invalid, the engine is sealed, or the clock is outside the
-- window.
abbrev pub Declined : Engine → Input → ℕ → Type 0
Declined e j later =
    (valid_input e.cfg j ≡ false)
    ⊎ ((e.sealed ≡ true)
        ⊎ ((int64_lt (unix_nano later) e.start_ns ≡ true)
            ⊎ (int64_lt (unix_nano later) e.end_ns ≡ false)))

module _ (sha256 : Bytes → Bytes) where
  unfoldable pub step : Engine → Call → Engine
  step e (submits i now) = (submit sha256 e i now).0
  step e (seals now) = (seal e now).0

  unfoldable pub run : Engine → List Call → Engine
  run e [] = e
  run e (c ∷ cs) = run (step e c) cs

  pub step-EngineInv :
      (e : Engine) (c : Call) → EngineInv sha256 e → Typed c → EngineInv sha256 (step e c)
  unfolding step
  step-EngineInv e (submits i now) v h = submit-EngineInv sha256 e i now v h
  step-EngineInv e (seals now) v h = seal-EngineInv sha256 e now v

  -- After any history of calls, in any order and at any clock readings, the invariant holds.
  pub run-EngineInv :
      (e : Engine) (cs : List Call)
      → EngineInv sha256 e
      → All Typed cs
      → EngineInv sha256 (run e cs)
  unfolding run
  run-EngineInv e [] v h = v
  run-EngineInv e (c ∷ cs) v h = run-EngineInv (step e c) cs (step-EngineInv e c v h.0) h.1

  find_vote-step :
      (e : Engine) (k : Call) (t : Bytes) (c : ℕ)
      → EngineInv sha256 e
      → find_vote sha256 e t ≡ some c
      → find_vote sha256 (step e k) t ≡ some c
  unfolding step
  find_vote-step e (submits i now) t c v h = find_vote-submit sha256 e i now t c v h
  find_vote-step e (seals now) t c v h =
      unfold seal find_vote partition in
      if_cases
        (λ (r : Engine × Option Snapshot).
          lookup t (shard_at r.0 (partition sha256 r.0 t)).votes ≡ some c)
        _ _ _ (λ _. h) (λ _. h)

  find_vote-run :
      (e : Engine) (cs : List Call) (t : Bytes) (c : ℕ)
      → EngineInv sha256 e
      → All Typed cs
      → find_vote sha256 e t ≡ some c
      → find_vote sha256 (run e cs) t ≡ some c
  unfolding run
  find_vote-run e [] t c v h f = f
  find_vote-run e (k ∷ ks) t c v h f =
      find_vote-run (step e k) ks t c (step-EngineInv e k v h.0) h.1 (find_vote-step e k t c v f)

  -- What Submit accepts is stored.
  accepted-find_vote :
      (e : Engine) (i : Input) (now : ℕ)
      → EngineInv sha256 e
      → (submit sha256 e i now).1.status ≡ accepted
      → find_vote sha256 (submit sha256 e i now).0 i.token ≡ some i.choice
  accepted-find_vote e i now v =
      submit_cases sha256 Found e i now (λ _ p. cc)
        λ ok.
          admit_cases Found e (home sha256 e i.token) i now (λ _ p. cc) (λ _ _ p. cc) (λ _ _ p. cc)
            λ _ _ p. find_vote-home sha256 e i v ∙ (store_vote-stores _ i p).1
    where
      Found : Engine × Result → Type 0
      Found r = r.1.status ≡ accepted → find_vote sha256 r.0 i.token ≡ some i.choice

  submit_open :
      (e : Engine) (i : Input) (now : ℕ)
      → valid_input e.cfg i ≡ true
      → e.sealed ≡ false
      → InWindow e now
      → submit sha256 e i now ≡ (
        stored e (home sha256 e i.token) i,
        (store_vote (shard_at e (home sha256 e i.token)) i).1,
      )
  unfolding submit admit
  submit_open e i now ok s w = ground (arith, w.from, w.until)

  -- Submit accepts a vote exactly when the input is valid, the engine is not sealed, the clock is in
  -- the window, the token has no stored vote, and its shard has room.
  pub submit-accepts :
      (e : Engine) (i : Input) (now : ℕ)
      → EngineInv sha256 e
      → ((submit sha256 e i now).1.status ≡ accepted) ↔ (
          (valid_input e.cfg i ≡ true)
          × (e.sealed ≡ false)
          × InWindow e now
          × (find_vote sha256 e i.token ≡ none)
          × (length (shard_at e (partition sha256 e i.token)).votes
              < (shard_at e (partition sha256 e i.token)).capacity))
  unfolding find_vote
  submit-accepts e i now v =
      let a =
        store_vote-accepts _ _ (shard_at e (home sha256 e i.token)) i
          (home-ShardInv sha256 e i.token v) in
      (
        submit_cases sha256 Says e i now (λ _ p. cc)
            (λ ok.
              admit_cases Says e (home sha256 e i.token) i now (λ _ p. cc) (λ _ _ p. cc)
                (λ _ _ p. cc) λ s w p. let (f, room) = a.0 p in (ok, s, w, f, room)),
        (λ (ok, s, w, f, room). rw (submit_open e i now ok s w) (a.1 (f, room))),
      )
    where
      Says : Engine × Result → Type 0
      Says r =
          r.1.status ≡ accepted
          → (valid_input e.cfg i ≡ true)
            × (e.sealed ≡ false)
            × InWindow e now
            × (find_vote sha256 e i.token ≡ none)
            × (length (shard_at e (partition sha256 e i.token)).votes
                < (shard_at e (partition sha256 e i.token)).capacity)

  submit-duplicate :
      (e : Engine) (j : Input) (now c : ℕ)
      → EngineInv sha256 e
      → find_vote sha256 e j.token ≡ some c
      → valid_input e.cfg j ≡ true
      → e.sealed ≡ false
      → InWindow e now
      → submit sha256 e j now ≡ (e, record { status = duplicate; choice = c })
  unfolding find_vote
  submit-duplicate e j now c v h ok s w =
      let d =
        store_vote-duplicate (shard_at e (home sha256 e j.token)) j c h
          (lookup-Stored _ _ j.token _ c (home-ShardInv sha256 e j.token v).stored h) in
      submit_open e j now ok s w
      ∙ rw d (rw (set-get_or e.shards (home sha256 e j.token) (empty_shard 0)))

  submit_stored :
      (e : Engine) (j : Input) (later c : ℕ)
      → EngineInv sha256 e
      → find_vote sha256 e j.token ≡ some c
      → (submit sha256 e j later ≡ (e, record { status = duplicate; choice = c }))
        ⊎ Declined e j later
  submit_stored e j later c v h = elim (Bool-cases (valid_input e.cfg j)) [
    | inr invalid_ ↦ inr (inl invalid_)
    | inl ok ↦ elim (Bool-cases e.sealed) [
      | inl shut ↦ inr (inr (inl shut))
      | inr open_ ↦ elim (Bool-cases (int64_lt (unix_nano later) e.start_ns)) [
        | inl early ↦ inr (inr (inr (inl early)))
        | inr from ↦ elim (Bool-cases (int64_lt (unix_nano later) e.end_ns)) [
          | inr late ↦ inr (inr (inr (inr late)))
          | inl until ↦
              inl
                (submit-duplicate e j later c v h ok open_ (record { from = from; until = until }))
        ]
      ]
    ]
  ]

  -- A vote that Submit has accepted is the token's vote for good: after any further calls of Submit and
  -- Seal, at any clock readings, whether they seal the engine or not, Lookup finds its choice. And a
  -- further vote with that token, at any clock reading, is answered as a duplicate with the first choice
  -- and changes nothing, unless it is invalid, the engine is sealed or the clock is outside the window.
  pub first_choice_stays :
      (e e' : Engine) (i j : Input) (now later : ℕ) (cs : List Call)
      → EngineInv sha256 e
      → i.choice < 2 ^ 32
      → All Typed cs
      → (submit sha256 e i now).1.status ≡ accepted
      → run (submit sha256 e i now).0 cs ≡ e'
      → j.token ≡ i.token
      → (find_vote sha256 e' i.token ≡ some i.choice)
        × ((submit sha256 e' j later ≡ (e', record { status = duplicate; choice = i.choice }))
            ⊎ Declined e' j later)
  first_choice_stays e e' i j now later cs v word typed ok after same =
      let u = submit-EngineInv sha256 e i now v word in
      let f = find_vote-run _ cs i.token i.choice u typed (accepted-find_vote e i now v ok) in
      let g : find_vote sha256 e' i.token ≡ some i.choice = rw after at f in
      (
        g,
        submit_stored e' j later i.choice
            (subst (EngineInv sha256) after (run-EngineInv _ cs u typed)) (rw same g),
      )

  sealed-submit :
      (e : Engine) (i : Input) (now : ℕ)
      → e.sealed ≡ true
      → ((submit sha256 e i now).0 ≡ e) × ((submit sha256 e i now).1.status ≢ accepted)
  unfolding submit admit
  sealed-submit e i now h = (ground arith, λ p. ground (arith, p))

  sealed-step : (e : Engine) (c : Call) → e.sealed ≡ true → step e c ≡ e
  unfolding step
  sealed-step e (submits i now) h = (sealed-submit e i now h).0
  sealed-step e (seals now) h = unfold seal in ground arith

  sealed-run : (e : Engine) (cs : List Call) → e.sealed ≡ true → run e cs ≡ e
  unfolding run
  sealed-run e [] h = refl
  sealed-run e (c ∷ cs) h = rw (sealed-step e c h) (sealed-run e cs h)

  deadline_seals :
      (e : Engine) (i : Input) (now : ℕ)
      → valid_input e.cfg i ≡ true
      → int64_lt (unix_nano now) e.start_ns ≡ false
      → int64_lt (unix_nano now) e.end_ns ≡ false
      → (submit sha256 e i now).0.sealed ≡ true
  unfolding submit admit
  deadline_seals e i now ok f g = ground arith

  -- Closing is for good, even if the clock goes back: after a valid vote whose clock reading is not
  -- before the end (and not before the start), no further call, at whatever clock reading, changes
  -- the engine, and no vote is accepted.
  pub closed_stays :
      (e : Engine) (i j : Input) (now later : ℕ) (cs : List Call)
      → valid_input e.cfg i ≡ true
      → int64_lt (unix_nano now) e.start_ns ≡ false
      → int64_lt (unix_nano now) e.end_ns ≡ false
      → (run (submit sha256 e i now).0 cs ≡ (submit sha256 e i now).0)
        × ((submit sha256 (run (submit sha256 e i now).0 cs) j later).1.status ≢ accepted)
  closed_stays e i j now later cs ok f g =
      let h = deadline_seals e i now ok f g in
      let r = sealed-run _ cs h in (r, rw r (sealed-submit _ j later h).1)
