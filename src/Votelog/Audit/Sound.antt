-- ===== src/Votelog/Audit/Sound.antt =====
-- An audit that returns a result.
use gigaquizz.Common.{
  ℕ, ◌+◌, ◌%◌, ◌^◌, ◌<◌, ◌≡◌, refl, sym, ap, ◌∙◌, Bool, false, List, [], ◌∷◌, ◌++◌, Option, none,
  some, length, length-append, get_or, arith, leb, leb-false, Bool-cases, Option-cases, inl, inr,
  if_cases,
}
use gigaquizz.Common.Bits.{bit, bit-le}
use gigaquizz.Common.Bytes.{get_or-zeros, Bytes, bytes_eq, bytes_eq_sound}
use gigaquizz.Common.Assoc.{lookup, put_fresh, lookup-put, UniqueKeys-snoc}
use gigaquizz.Common.Total.{sum_of-append, sum_of-le}
use gigaquizz.Votelog.{Config, Vote, Position}
use gigaquizz.Votelog.Frame.Visits.{Kept}
use gigaquizz.Votelog.Scan.{Poll}
use gigaquizz.Votelog.Replay.{Manifest, result}
use gigaquizz.Votelog.Replay.Votes.{Admitted, replay_all_keeps}
use gigaquizz.Votelog.Audit.{
  AuditResult, has_position, count_choice, count_first, audit_visit, no_audit, audit,
}
use gigaquizz.Votelog.Audit.Ledger.{
  first_of, votes_at, AuditInv, length-count_choice, get_or-count_choice, first_of-snoc,
  Distinct-snoc, All-snoc,
}

-- The ledger once a vote is entered among the records, and before it is counted.
abbrev entered : Position → Vote → AuditResult → AuditResult
entered p v a = record a {
  records = a.records ++ (p, v) ∷ [];
  total_attempts = (a.total_attempts + 1) % 2 ^ 64;
}

abbrev counted_first : Vote → AuditResult → AuditResult
counted_first v a = record a {
  canonical = a.canonical ++ (v.token, v) ∷ [];
  choice_counts = count_choice 0 v.choice a.choice_counts;
}

module _ (sha256 : Bytes → Bytes) (c : Config) (p : Position) (v : Vote) (a : AuditResult)
    (i : AuditInv sha256 c a) (room : a.total_attempts < 12_000_000)
    (new : has_position p a.records ≡ false) (ok : Admitted sha256 c p v) where
  length-entered : length (a.records ++ (p, v) ∷ []) ≡ length a.records + 1
  length-entered = length-append a.records ((p, v) ∷ [])

  -- A token that has a vote keeps it.
  firsts_old :
      (w : Vote)
      → lookup v.token a.canonical ≡ some w
      → (token : Bytes) → lookup token a.canonical ≡ first_of token (a.records ++ (p, v) ∷ [])
  firsts_old w old token = elim (Option-cases (first_of token a.records)) [
    | inr (u, e) ↦ i.firsts token ∙ rw e (sym (first_of-snoc token a.records p v ∙ rw e refl))
    | inl e ↦ elim (Bool-cases (bytes_eq v.token token)) [
      | inl same ↦
          let t = ap (λ k. lookup k a.canonical) (bytes_eq_sound v.token token same) in
          absurd (contradiction (i.firsts token ∙ e) (sym t ∙ old))
      | inr other ↦
          i.firsts token ∙ rw e (sym (first_of-snoc token a.records p v ∙ rw e (rw other refl)))
    ]
  ]
    where
      contradiction : {x : Option Vote} → x ≡ none → x ≡ some w → ⊥
      contradiction h k = cc

  firsts_new :
      lookup v.token a.canonical ≡ none
      → (token : Bytes)
      → lookup token (a.canonical ++ (v.token, v) ∷ []) ≡ first_of token (a.records ++ (p, v) ∷ [])
  firsts_new fresh token =
      ap (lookup token) (sym (put_fresh v.token v a.canonical fresh))
      ∙ lookup-put v.token token v a.canonical
      ∙ elim (Bool-cases (bytes_eq v.token token)) [
        | inl same ↦
            let t = bytes_eq_sound v.token token same in
            let missing : first_of token a.records ≡ none =
              sym (i.firsts token) ∙ ap (λ k. lookup k a.canonical) (sym t) ∙ fresh in
            rw same (sym (first_of-snoc token a.records p v ∙ rw missing (rw same refl)))
        | inr other ↦
            rw other (i.firsts token ∙ kept_first token other (first_of token a.records) refl)
      ]
    where
      kept_first :
          (token : Bytes)
          → bytes_eq v.token token ≡ false
          → (o : Option Vote) → first_of token a.records ≡ o
          → first_of token a.records ≡ first_of token (a.records ++ (p, v) ∷ [])
      kept_first token other none e =
          rw e (sym (first_of-snoc token a.records p v ∙ rw e (rw other refl)))
      kept_first token other (some w) e = rw e (sym (first_of-snoc token a.records p v ∙ rw e refl))

  entered_inv : (w : Vote) → lookup v.token a.canonical ≡ some w → AuditInv sha256 c (entered p v a)
  entered_inv w old = record {
    total_is = omega (arith, i.total_is, length-entered);
    few = omega arith;
    distinct = Distinct-snoc p v a.records i.distinct new;
    admitted =
        All-snoc (λ (r : Position × Vote). Admitted sha256 c r.0 r.1) a.records (p, v) i.admitted
          ok;
    unique = i.unique;
    fewer = omega (arith, i.fewer, length-entered);
    firsts = firsts_old w old;
    counters = i.counters;
    counted = i.counted;
  }

  counts_up :
      (b : ℕ)
      → b < 32
      → get_or (count_choice 0 v.choice a.choice_counts) b 0
        ≡ votes_at b (a.canonical ++ (v.token, v) ∷ [])
  counts_up b h =
      let votes =
        sum_of-le (λ (e : Bytes × Vote). bit b e.1.choice) (λ e. bit-le b e.1.choice) a.canonical in
      get_or-count_choice 0 v.choice b a.choice_counts (omega (arith, i.counters))
        (omega (arith, i.counted b h, votes, i.fewer, i.total_is))
      ∙ omega (
        arith,
        i.counted b h,
        sum_of-append (λ (e : Bytes × Vote). bit b e.1.choice) a.canonical ((v.token, v) ∷ []),
        ap (λ k. bit k v.choice) (let e : 0 + b ≡ b = omega arith in e),
      )

  counted_inv :
      lookup v.token a.canonical ≡ none → AuditInv sha256 c (counted_first v (entered p v a))
  counted_inv fresh = record {
    total_is = omega (arith, i.total_is, length-entered);
    few = omega arith;
    distinct = Distinct-snoc p v a.records i.distinct new;
    admitted =
        All-snoc (λ (r : Position × Vote). Admitted sha256 c r.0 r.1) a.records (p, v) i.admitted
          ok;
    unique = UniqueKeys-snoc v.token v a.canonical i.unique fresh;
    fewer = omega (arith, i.fewer, length-entered, length-append a.canonical ((v.token, v) ∷ []));
    firsts = firsts_new fresh;
    counters = length-count_choice 0 v.choice a.choice_counts ∙ i.counters;
    counted = counts_up;
  }

  count_first-AuditInv : AuditInv sha256 c (count_first v (entered p v a))
  unfolding count_first
  count_first-AuditInv = elim (Option-cases (lookup v.token a.canonical)) [
    | inl fresh ↦
        rw (fresh, count_first) (rw (put_fresh v.token v a.canonical fresh) (counted_inv fresh))
    | inr (w, old) ↦ rw (old, count_first) (entered_inv w old)
  ]

audit_visit-AuditInv :
    (sha256 : Bytes → Bytes) (c : Config) (p : Position) (v : Vote) (a : AuditResult)
    → Admitted sha256 c p v
    → AuditInv sha256 c a
    → Kept (AuditInv sha256 c) (audit_visit p v a)
unfolding audit_visit
audit_visit-AuditInv sha256 c p v a ok i =
    if_cases (Kept (AuditInv sha256 c)) (leb 12_000_000 a.total_attempts) _ _ (λ _. tt)
      (λ room.
        if_cases (Kept (AuditInv sha256 c)) (has_position p a.records) _ _ (λ _. tt)
          (λ new.
            count_first-AuditInv sha256 c p v a i (leb-false 12_000_000 a.total_attempts room) new
              ok))

no_audit-AuditInv : (sha256 : Bytes → Bytes) (c : Config) → AuditInv sha256 c no_audit
unfolding lookup first_of
no_audit-AuditInv sha256 c = record {
  total_is = refl;
  few = omega arith;
  distinct = tt;
  admitted = tt;
  unique = tt;
  fewer = omega arith;
  firsts = λ token. refl;
  counters = refl;
  counted = λ b h. get_or-zeros 32 b;
}

-- Whenever Audit returns a result, its records have distinct positions, each holds a vote that passes
-- the checks of the configuration and is routed to its partition; the canonical vote of every token is
-- the first of its votes in the order of reading, and none for any other token; the total is the number
-- of records, at most 12 million; and each of the 32 counts is the number of canonical votes that
-- have that bit, so that no count has wrapped.
pub audit_sound :
    (loopback : Bytes → Bool) (sha256 : Bytes → Bytes) (c : Config) (client : Option ℕ)
    (polls : List Poll) (m : Manifest) (a : AuditResult)
    → audit loopback sha256 c client polls ≡ result (m, a)
    → AuditInv sha256 c a
unfolding audit
audit_sound loopback sha256 c client polls m a h =
    replay_all_keeps loopback sha256 c audit_visit (AuditInv sha256 c)
      (λ p v s ok i. audit_visit-AuditInv sha256 c p v s ok i) client polls no_audit m a
      (no_audit-AuditInv sha256 c) h
