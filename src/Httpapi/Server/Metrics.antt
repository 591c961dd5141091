-- ===== src/Httpapi/Server/Metrics.antt =====
-- internal/httpapi/server.go: the counters of `vote` and the slots of `inflight`.
use gigaquizz.Common.{
  ℕ, ◌+◌, ◌-◌, ◌%◌, ◌^◌, ◌≤◌, ◌≡◌, refl, ◌∙◌, List, ◌∷◌, Option, none, some, ltb, ltb→lt, if_cases,
  length, arith,
}
use gigaquizz.Common.Bytes.{Bytes}
use gigaquizz.Httpapi.Server.{
  Server, Status, accepted, duplicate, conflict, closed, not_open, invalid, not_found, strange,
  Reply, Checked, refuse, leave, call, add_one, admit, check_vote, refuse_vote, answer,
}
use gigaquizz.Httpapi.Server.Machine.{
  System, End, arrives_as, ends_as, checks_as, Step, arrives, checks, answers, Reach, start, next,
  as_accepted, as_duplicate, as_conflict, as_rejected, as_unknown, as_left, ends_of, class_of,
  replied,
}

-- Five counters are the numbers of the ends of their classes, as unsigned 64-bit integers.
pub record Counts (accepted duplicates conflicts rejected unknown : ℕ) (ended : List End)
    : Type 0 where
  pub accepted_are : accepted ≡ ends_of as_accepted ended % 2 ^ 64
  pub duplicates_are : duplicates ≡ ends_of as_duplicate ended % 2 ^ 64
  pub conflicts_are : conflicts ≡ ends_of as_conflict ended % 2 ^ 64
  pub rejected_are : rejected ≡ ends_of as_rejected ended % 2 ^ 64
  pub unknown_are : unknown ≡ ends_of as_unknown ended % 2 ^ 64

-- One more end of a class, and its counter.
module _ {a d c r u : ℕ} {ended : List End} (i : Counts a d c r u ended) (e : End) where
  one_accepted : class_of e ≡ as_accepted → Counts (add_one a) d c r u (e ∷ ended)
  one_accepted same = record {
    accepted_are = rw same (omega (arith, i.accepted_are));
    duplicates_are = rw same (omega (arith, i.duplicates_are));
    conflicts_are = rw same (omega (arith, i.conflicts_are));
    rejected_are = rw same (omega (arith, i.rejected_are));
    unknown_are = rw same (omega (arith, i.unknown_are));
  }

  one_duplicate : class_of e ≡ as_duplicate → Counts a (add_one d) c r u (e ∷ ended)
  one_duplicate same = record {
    accepted_are = rw same (omega (arith, i.accepted_are));
    duplicates_are = rw same (omega (arith, i.duplicates_are));
    conflicts_are = rw same (omega (arith, i.conflicts_are));
    rejected_are = rw same (omega (arith, i.rejected_are));
    unknown_are = rw same (omega (arith, i.unknown_are));
  }

  one_conflict : class_of e ≡ as_conflict → Counts a d (add_one c) r u (e ∷ ended)
  one_conflict same = record {
    accepted_are = rw same (omega (arith, i.accepted_are));
    duplicates_are = rw same (omega (arith, i.duplicates_are));
    conflicts_are = rw same (omega (arith, i.conflicts_are));
    rejected_are = rw same (omega (arith, i.rejected_are));
    unknown_are = rw same (omega (arith, i.unknown_are));
  }

  one_rejected : class_of e ≡ as_rejected → Counts a d c (add_one r) u (e ∷ ended)
  one_rejected same = record {
    accepted_are = rw same (omega (arith, i.accepted_are));
    duplicates_are = rw same (omega (arith, i.duplicates_are));
    conflicts_are = rw same (omega (arith, i.conflicts_are));
    rejected_are = rw same (omega (arith, i.rejected_are));
    unknown_are = rw same (omega (arith, i.unknown_are));
  }

  one_unknown : class_of e ≡ as_unknown → Counts a d c r (add_one u) (e ∷ ended)
  one_unknown same = record {
    accepted_are = rw same (omega (arith, i.accepted_are));
    duplicates_are = rw same (omega (arith, i.duplicates_are));
    conflicts_are = rw same (omega (arith, i.conflicts_are));
    rejected_are = rw same (omega (arith, i.rejected_are));
    unknown_are = rw same (omega (arith, i.unknown_are));
  }

  one_left : class_of e ≡ as_left → Counts a d c r u (e ∷ ended)
  one_left same = record {
    accepted_are = rw same (omega (arith, i.accepted_are));
    duplicates_are = rw same (omega (arith, i.duplicates_are));
    conflicts_are = rw same (omega (arith, i.conflicts_are));
    rejected_are = rw same (omega (arith, i.rejected_are));
    unknown_are = rw same (omega (arith, i.unknown_are));
  }

abbrev pub CountsOf : Server → List End → Type 0
CountsOf s ended = Counts s.accepted s.duplicates s.conflicts s.rejected s.unknown ended

-- What the counters and the slots of `inflight` say of the handlers: every slot is held by one handler
-- that runs, every request runs or has ended, and each counter is the number of the ends of its class.
pub record Metrics (s : System) : Type 0 where
  pub slots : s.server.inflight ≡ s.checking + s.calling
  pub few : s.server.inflight ≤ s.server.max_inflight
  pub all : s.arrived ≡ s.checking + s.calling + length s.ended
  pub attempts_are : s.server.attempts ≡ s.arrived % 2 ^ 64
  pub counts : CountsOf s.server s.ended

abbrev AnswerCounts : List End → Server × Reply → Type 0
AnswerCounts ended (s, reply) = CountsOf s (replied reply ∷ ended)

answer-Counts :
    (receipt : Option Status) (s : Server) (ended : List End)
    → CountsOf s ended
    → AnswerCounts ended (answer receipt s)
unfolding answer
answer-Counts none s ended i = one_unknown i _ refl
answer-Counts (some accepted) s ended i = one_accepted i _ refl
answer-Counts (some duplicate) s ended i = one_duplicate i _ refl
answer-Counts (some conflict) s ended i = one_conflict i _ refl
answer-Counts (some closed) s ended i = one_rejected i _ refl
answer-Counts (some not_open) s ended i = one_rejected i _ refl
answer-Counts (some invalid) s ended i = one_rejected i _ refl
answer-Counts (some not_found) s ended i = one_rejected i _ refl
answer-Counts (some strange) s ended i = one_unknown i _ refl

-- An answer gives the slot back and leaves the number of requests as it is.
record Released (s t : Server) : Type 0 where
  slot : t.inflight ≡ s.inflight - 1
  limit : t.max_inflight ≡ s.max_inflight
  requests : t.attempts ≡ s.attempts

answer-Released : (receipt : Option Status) (s : Server) → Released s (answer receipt s).0
unfolding answer
answer-Released none s = record { slot = refl; limit = refl; requests = refl }
answer-Released (some accepted) s = record { slot = refl; limit = refl; requests = refl }
answer-Released (some duplicate) s = record { slot = refl; limit = refl; requests = refl }
answer-Released (some conflict) s = record { slot = refl; limit = refl; requests = refl }
answer-Released (some closed) s = record { slot = refl; limit = refl; requests = refl }
answer-Released (some not_open) s = record { slot = refl; limit = refl; requests = refl }
answer-Released (some invalid) s = record { slot = refl; limit = refl; requests = refl }
answer-Released (some not_found) s = record { slot = refl; limit = refl; requests = refl }
answer-Released (some strange) s = record { slot = refl; limit = refl; requests = refl }

-- A request that arrives, by its admission.
arrives-Metrics : (s : System) → Metrics s → Metrics (arrives_as s (admit s.server))
unfolding admit
arrives-Metrics s i =
    if_cases (λ o. Metrics (arrives_as s o)) (ltb s.server.inflight s.server.max_inflight) _ _
      (λ room. record {
        slots = omega (arith, i.slots);
        few = omega (arith, ltb→lt s.server.inflight s.server.max_inflight room);
        all = omega (arith, i.all);
        attempts_are = omega (arith, i.attempts_are);
        counts = i.counts;
      })
      (λ _. record {
        slots = i.slots;
        few = i.few;
        all = omega (arith, i.all);
        attempts_are = omega (arith, i.attempts_are);
        counts = one_rejected i.counts _ refl;
      })

checks-Metrics : (s : System) (o : Checked) → 1 ≤ s.checking → Metrics s → Metrics (checks_as s o)
unfolding refuse_vote
checks-Metrics s (refuse status) h i = record {
  slots = omega (arith, i.slots);
  few = omega (arith, i.few);
  all = omega (arith, i.all);
  attempts_are = i.attempts_are;
  counts = one_rejected i.counts _ refl;
}
checks-Metrics s leave h i = record {
  slots = omega (arith, i.slots);
  few = omega (arith, i.few);
  all = omega (arith, i.all);
  attempts_are = i.attempts_are;
  counts = one_left i.counts _ refl;
}
checks-Metrics s (call c) h i = record {
  slots = omega (arith, i.slots);
  few = i.few;
  all = omega (arith, i.all);
  attempts_are = i.attempts_are;
  counts = i.counts;
}

answers-Metrics :
    (s : System) (receipt : Option Status)
    → 1 ≤ s.calling
    → Metrics s
    → Metrics (ends_as (record s { calling = s.calling - 1 }) (answer receipt s.server))
answers-Metrics s receipt h i =
    let r = answer-Released receipt s.server in
    record {
      slots = omega (arith, i.slots, r.slot);
      few = omega (arith, i.few, r.slot, r.limit);
      all = omega (arith, i.all);
      attempts_are = r.requests ∙ i.attempts_are;
      counts = answer-Counts receipt s.server s.ended i.counts;
    }

Step-Metrics : {unicode : Bytes → Bytes} (s t : System) → Step unicode s t → Metrics s → Metrics t
Step-Metrics s t arrives i = arrives-Metrics s i
Step-Metrics {unicode} s t (checks r h) i = checks-Metrics s (check_vote unicode r) h i
Step-Metrics s t (answers receipt h) i = answers-Metrics s receipt h i

-- In every reachable state of the server, whatever handlers of votes run at once: the slots of inflight
-- that are taken are the admitted handlers that have not ended, at most MaxInflight; every request runs
-- or has ended; attempts is the number of requests; and accepted, duplicates, conflicts, unknown and
-- rejected are the numbers of answers with 201, with 200, with 409, with the outcome unknown, and of the
-- other answers, as 64-bit integers. A handler that ends without an answer is in none of these five.
pub Reach-Metrics :
    (unicode : Bytes → Bytes) (max_inflight : ℕ) (s : System)
    → Reach unicode max_inflight s
    → Metrics s
Reach-Metrics unicode max_inflight s start = record {
  slots = refl;
  few = omega arith;
  all = refl;
  attempts_are = refl;
  counts = record {
    accepted_are = refl;
    duplicates_are = refl;
    conflicts_are = refl;
    rejected_are = refl;
    unknown_are = refl;
  };
}
Reach-Metrics unicode max_inflight t (next {s} r step) =
    Step-Metrics s t step (Reach-Metrics unicode max_inflight s r)
