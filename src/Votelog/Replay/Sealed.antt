-- ===== src/Votelog/Replay/Sealed.antt =====
-- internal/votelog/audit.go: a partition counts as ended only behind its CLOSED record.
use gigaquizz.Common.{
  ℕ, zero, suc, ◌+◌, ◌<◌, ◌≡◌, refl, sym, ap, ◌∙◌, subst, Bool, true, false, List, [], ◌∷◌, Option,
  none, some, length, length-set, length-replicate, get_or, get_elem?, set, get_or-set_ne,
  replicate, arith, ◌==◌, if◌then◌else◌, Bool-cases, inl, inr, ==_sound, ==_no,
}
use gigaquizz.Common.Bytes.{Bytes}
use gigaquizz.Common.Int.{ℤ, pos, negsuc}
use gigaquizz.Votelog.{Config, Vote, Position}
use gigaquizz.Votelog.Scan.{Poll, Seen, goes, ends, fails, Scan}
use gigaquizz.Votelog.Scan.Rule.{After, Ended, scan_keeps}
use gigaquizz.Votelog.Replay.{
  Manifest, PartitionEnd, ends_of, manifest_of, result, replay_all, Replayed, is_closed,
  ReplayError, replay_visit, replay,
}
use gigaquizz.Votelog.Replay.Votes.{replay_all-result}
use gigaquizz.Votelog.Replay.Moves.{ClosedAt, Moves, visit-Moves}

-- The partitions that have not ended.
abbrev open_count : List Bool → ℕ
open_count [] = 0
open_count (b ∷ bs) = (if b then 0 else 1) + open_count bs

open_count-set :
    (done : List Bool) (p : ℕ)
    → p < length done
    → get_or done p false ≡ false
    → 1 + open_count (set done p true) ≡ open_count done
open_count-set [] p low open_ = absurd (omega (arith, low))
open_count-set (true ∷ bs) zero low open_ = cc
open_count-set (false ∷ bs) zero low open_ = omega arith
open_count-set (true ∷ bs) (suc p) low open_ =
    omega (arith, open_count-set bs p (omega arith) open_)
open_count-set (false ∷ bs) (suc p) low open_ =
    omega (arith, open_count-set bs p (omega arith) open_)

none_open :
    (done : List Bool) (p : ℕ) → open_count done ≡ 0 → p < length done → get_or done p false ≡ true
none_open [] p e low = absurd (omega (arith, low))
none_open (true ∷ bs) zero e low = refl
none_open (false ∷ bs) zero e low = absurd (omega (arith, e))
none_open (true ∷ bs) (suc p) e low = none_open bs p (omega (arith, e)) (omega arith)
none_open (false ∷ bs) (suc p) e low = absurd (omega (arith, e))

open_count-replicate : (n : ℕ) → open_count (replicate n false) ≡ n
open_count-replicate zero = refl
open_count-replicate (suc n) = rw (open_count-replicate n) (omega arith)

get_or-replicate : (n p : ℕ) → get_or (replicate n false) p false ≡ false
get_or-replicate zero p = refl
get_or-replicate (suc n) zero = refl
get_or-replicate (suc n) (suc p) = get_or-replicate n p

record Closing {S : Type 0} (c : Config) (t : Scan (Replayed S)) : Type 0 where
  dones : length t.done ≡ c.partitions
  closeds : length t.state.closed ≡ c.partitions
  ends_closed : (p : ℕ) → get_or t.done p false ≡ true → ClosedAt p t.state.closed
  left : t.remaining ≡ open_count t.done

move-Closing :
    {S E : Type 0} (c : Config) (p : ℕ) (t : Scan (Replayed S))
    (o : Replayed S × Seen (ReplayError E))
    → p < c.partitions
    → get_or t.done p false ≡ false
    → Closing c t
    → Moves p t.state o
    → After (Closing c) p t o
move-Closing c p t (d, goes) low open_ h m = record {
  dones = h.dones;
  closeds = m.size ∙ h.closeds;
  ends_closed = λ q e. m.stay q (h.ends_closed q e);
  left = h.left;
}
move-Closing c p t (d, ends) low open_ h (m, now) = record {
  dones = length-set t.done p true ∙ h.dones;
  closeds = m.size ∙ h.closeds;
  ends_closed = λ q e. elim (Bool-cases (p == q)) [
    | inl same ↦ subst (λ q. ClosedAt q d.closed) (==_sound p q same) now
    | inr other ↦
        m.stay q (h.ends_closed q (sym (get_or-set_ne t.done p q true false (==_no p q other)) ∙ e))
  ];
  left =
      omega (arith, h.left, open_count-set t.done p (subst (λ n. p < n) (sym h.dones) low) open_);
}
move-Closing c p t (d, fails e) low open_ h m = tt

-- The end of a partition: its number, and an offset that is none of `-1`.
abbrev EndAt : ℕ → Manifest → Type 0
EndAt p m = (n : ℕ) × (get_elem? m.partitions p ≡ some (record { partition = p; offset = pos n }))

get_elem?-ends_of :
    (from p : ℕ) (zs : List ℤ)
    → p < length zs
    → get_elem? (ends_of from zs) p
      ≡ some (record { partition = from + p; offset = get_or zs p (negsuc 0) })
unfolding ends_of
get_elem?-ends_of from p [] low = absurd (omega (arith, low))
get_elem?-ends_of from zero (z ∷ zs) low =
    ap (λ k. some (record { partition = k; offset = z })) (omega arith)
get_elem?-ends_of from (suc p) (z ∷ zs) low =
    get_elem?-ends_of (from + 1) p zs (omega arith)
    ∙ ap (λ k. some (record { partition = k; offset = get_or zs p (negsuc 0) })) (omega arith)

length-ends_of : (from : ℕ) (zs : List ℤ) → length (ends_of from zs) ≡ length zs
unfolding ends_of
length-ends_of from [] = refl
length-ends_of from (z ∷ zs) = ap suc (length-ends_of (from + 1) zs)

closed_offset : (z : ℤ) → is_closed z ≡ true → (n : ℕ) × (z ≡ pos n)
unfolding is_closed
closed_offset (pos n) h = (n, refl)
closed_offset (negsuc n) h = cc

end-EndAt :
    (c : Config) (closed : List ℤ) (p : ℕ)
    → p < length closed
    → ClosedAt p closed
    → EndAt p (manifest_of c closed)
unfolding manifest_of
end-EndAt c closed p low h =
    let (n, e) = closed_offset (get_or closed p (negsuc 0)) h in
    (
      n,
      get_elem?-ends_of 0 p closed low
          ∙ end_is n (0 + p) (get_or closed p (negsuc 0)) (omega arith) e,
    )
  where
    entry : ℕ → ℤ → Option PartitionEnd
    entry k z = some (record { partition = k; offset = z })

    end_is : (n k : ℕ) (z : ℤ) → k ≡ p → z ≡ pos n → entry k z ≡ entry p (pos n)
    end_is n k z same e = cc

-- The manifest of a replay names every partition of the topic, each with its CLOSED record's offset.
abbrev pub Complete : Config → Manifest → Type 0
Complete c m = (length m.partitions ≡ c.partitions) × ((p : ℕ) → p < c.partitions → EndAt p m)

Closing-Complete :
    {S : Type 0} (c : Config) (t : Scan (Replayed S))
    → Closing c t
    → t.remaining ≡ 0
    → Complete c (manifest_of c t.state.closed)
unfolding manifest_of
Closing-Complete c t h e = (
  length-ends_of 0 t.state.closed ∙ h.closeds,
  λ p low. end-EndAt c t.state.closed p (subst (λ n. p < n) (sym h.closeds) low) (
      h.ends_closed p (none_open t.done p (sym h.left ∙ e) (subst (λ n. p < n) (sym h.dones) low))),
)

module _ (sha256 : Bytes → Bytes) (c : Config) {S E : Type 0}
    (visit : Position → Vote → S → S × Option E) where
  replay-Closing :
      (client : Option ℕ) (polls : List Poll) (s : S)
      → Ended (Closing c) (replay sha256 c visit none client polls s)
  unfolding replay
  replay-Closing client polls s =
      scan_keeps c (replay_visit sha256 c visit none) (Closing c)
        (λ p r t low open_ h.
          move-Closing c p t (replay_visit sha256 c visit none p r t.state) low open_ h
            (visit-Moves sha256 c visit p r t.state (subst (λ n. p < n) (sym h.closeds) low)))
        client polls _
        (record {
          dones = length-replicate c.partitions false;
          closeds = length-replicate c.partitions (negsuc 0);
          ends_closed = λ q e. cc (e, get_or-replicate c.partitions q);
          left = sym (open_count-replicate c.partitions);
        })

-- When `Replay` returns a manifest, without an error, it has one entry for each partition of the
-- configuration, in order, and no entry has
-- the offset -1 of a partition without a CLOSED record.
pub replay_all-Complete :
    {S E : Type 0} (loopback : Bytes → Bool) (sha256 : Bytes → Bytes)
    (visit : Position → Vote → S → S × Option E) (c : Config) (client : Option ℕ)
    (polls : List Poll) (s s' : S) (m : Manifest)
    → replay_all loopback sha256 visit c client polls s ≡ result (m, s')
    → Complete c m
replay_all-Complete {S} {E} loopback sha256 visit c client polls s s' m h =
    let r = replay_all-result loopback sha256 visit c client polls s s' m h in
    let (t, closing, none_left, same) =
      subst (Ended (λ (t : Scan (Replayed S)). Closing c t)) r.ended
        (replay-Closing sha256 c visit client polls s) in
    subst (Complete c) (ap (λ (x : Replayed S). manifest_of c x.closed) same ∙ sym r.manifest_is)
      (Closing-Complete c t closing none_left)
