-- ===== src/Httpapi/Server/Machine.antt =====
-- internal/httpapi/server.go: the handlers of votes that run at once. Every handler takes at most three
-- steps: up to the `select`, the checks up to the call of the repository, and what follows the call;
-- the atomic additions of a step commute with those of the steps that it may overlap.
use gigaquizz.Common.{
  ℕ, ◌+◌, ◌-◌, ◌≤◌, false, List, [], ◌∷◌, Option, none, some, ◌==◌, if◌then◌else◌,
}
use gigaquizz.Common.Bytes.{Bytes}
use gigaquizz.Httpapi.Server.{
  Server, VoteRequest, VoteCall, Status, Reply, error_reply, not_admitted, unknown_outcome,
  receipt_reply, Checked, refuse, leave, call, admit, check_vote, refuse_vote, release, answer,
}

-- How a handler has ended: with an answer, or with none since the client had gone.
pub data End : Type 0 where
  replied : Reply → End
  left : End

-- The handlers that are checked, those that wait for the repository, and what has happened: the
-- requests, the calls of the repository, and the ends of handlers.
pub record System : Type 0 where
  pub server : Server
  pub checking : ℕ
  pub calling : ℕ
  pub arrived : ℕ
  pub calls : List VoteCall
  pub ended : List End

abbrev pub initial : ℕ → System
initial max_inflight = record {
  server = record {
    max_inflight = max_inflight;
    inflight = 0;
    ready = false;
    attempts = 0;
    accepted = 0;
    duplicates = 0;
    conflicts = 0;
    rejected = 0;
    unknown = 0;
    storage_errors = 0;
  };
  checking = 0;
  calling = 0;
  arrived = 0;
  calls = [];
  ended = [];
}

abbrev pub arrives_as : System → Server × Option Reply → System
arrives_as s (server, none) = record s {
  server = server;
  checking = s.checking + 1;
  arrived = s.arrived + 1;
}
arrives_as s (server, some reply) = record s {
  server = server;
  arrived = s.arrived + 1;
  ended = replied reply ∷ s.ended;
}

abbrev pub ends_as : System → Server × Reply → System
ends_as s (server, reply) = record s { server = server; ended = replied reply ∷ s.ended }

abbrev pub checks_as : System → Checked → System
checks_as s (refuse status) =
    ends_as (record s { checking = s.checking - 1 }) (refuse_vote status s.server)
checks_as s leave = record s {
  server = release s.server;
  checking = s.checking - 1;
  ended = left ∷ s.ended;
}
checks_as s (call c) = record s {
  checking = s.checking - 1;
  calling = s.calling + 1;
  calls = c ∷ s.calls;
}

pub data Step (unicode : Bytes → Bytes) (s : System) : System → Type 0 where
  arrives : Step unicode s (arrives_as s (admit s.server))
  checks : (r : VoteRequest) → 1 ≤ s.checking → Step unicode s (checks_as s (check_vote unicode r))
  answers :
      (receipt : Option Status)
      → 1 ≤ s.calling
      → Step unicode s (ends_as (record s { calling = s.calling - 1 }) (answer receipt s.server))

pub data Reach (unicode : Bytes → Bytes) (max_inflight : ℕ) : System → Type 0 where
  start : Reach unicode max_inflight (initial max_inflight)
  next :
      {s t : System}
      → Reach unicode max_inflight s
      → Step unicode s t
      → Reach unicode max_inflight t

-- The class of an end, read off the answer: its HTTP status and its field `outcome`.
pub data Class : Type 0 where
  as_accepted as_duplicate as_conflict as_rejected as_unknown as_left : Class

abbrev pub class_of : End → Class
class_of left = as_left
class_of (replied (error_reply n)) = as_rejected
class_of (replied not_admitted) = as_rejected
class_of (replied unknown_outcome) = as_unknown
class_of (replied (receipt_reply n status)) =
    if n == 201
    then as_accepted
    else if n == 200
    then as_duplicate
    else if n == 409
    then as_conflict
    else as_rejected

abbrev pub one_of : Class → Class → ℕ
one_of as_accepted as_accepted = 1
one_of as_duplicate as_duplicate = 1
one_of as_conflict as_conflict = 1
one_of as_rejected as_rejected = 1
one_of as_unknown as_unknown = 1
one_of as_left as_left = 1
one_of a b = 0

-- The ends of a class.
abbrev pub ends_of : Class → List End → ℕ
ends_of k [] = 0
ends_of k (e ∷ es) = one_of k (class_of e) + ends_of k es
