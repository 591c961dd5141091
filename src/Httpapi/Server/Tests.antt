-- ===== src/Httpapi/Server/Tests.antt =====
-- A server with room for one handler: a vote that is accepted, while another request is turned away.
use gigaquizz.Common.{
  ◌≡◌, ◌↔◌, refl, true, false, [], ◌∷◌, ◌++◌, some, length, replicate, leb→le, All,
}
use gigaquizz.Common.Bytes.{Bytes, bytes_eq, every}
use gigaquizz.Common.Int.{pos}
use gigaquizz.Poll
use gigaquizz.Poll.{normalize_choices}
use gigaquizz.Httpapi.Server as Vote
use gigaquizz.Httpapi.Server.{
  Server, value, VoteRequest, VoteCall, error_reply, not_admitted, receipt_reply, accepted,
  valid_token, valid_uuid, to_lower, admit, check_vote, answer,
}
use gigaquizz.Httpapi.Server.Machine.{System, replied, Reach, start, next, arrives, checks, answers}
use gigaquizz.Httpapi.Server.Tokens.{is_lower_hex, valid_token_iff}
use gigaquizz.Httpapi.Server.Metrics.{Metrics, Reach-Metrics}
use gigaquizz.Httpapi.Server.Calls.{Admissible, Reach-Admissible}

abbrev same : Bytes → Bytes
same s = s

abbrev token : Bytes
token = replicate 31 48 ++ 97 ∷ []

-- 00000000-0000-0000-0000-000000000000
abbrev poll_id : Bytes
poll_id =
    replicate 8 48
    ++ 45 ∷ replicate 4 48
    ++ 45 ∷ replicate 4 48
    ++ 45 ∷ replicate 4 48
    ++ 45 ∷ replicate 12 48

abbrev request : VoteRequest
request = record {
  id = poll_id;
  body = value (record { token = token; choices = pos 3 ∷ pos 1 ∷ [] });
  gone = false;
}

abbrev voted : System
voted = record {
  server = record {
    max_inflight = 1;
    inflight = 0;
    ready = false;
    attempts = 2;
    accepted = 1;
    duplicates = 0;
    conflicts = 0;
    rejected = 1;
    unknown = 0;
    storage_errors = 0;
  };
  checking = 0;
  calling = 0;
  arrived = 2;
  calls = record { id = poll_id; token = token; choices = pos 1 ∷ pos 3 ∷ [] } ∷ [];
  ended = replied (receipt_reply 201 accepted) ∷ replied not_admitted ∷ [];
}

voted_reached : Reach same 1 voted
unfolding admit check_vote answer valid_uuid valid_token bytes_eq to_lower Vote.check_body
    Vote.check_input Vote.check_choices normalize_choices Poll.check_ids Poll.sort Poll.insert
voted_reached =
    next (next (next (next start arrives) arrives) (checks request (leb→le 1 1 refl)))
      (answers (some accepted) (leb→le 1 1 refl))

Reach-Metrics_example : Metrics voted
Reach-Metrics_example = Reach-Metrics same 1 voted voted_reached

Reach-Admissible_example : All (Admissible same) voted.calls
Reach-Admissible_example = Reach-Admissible same 1 voted voted_reached

valid_token_iff_example :
    (valid_token same token ≡ true) ↔ ((length token ≡ 32) × (every is_lower_hex token ≡ true))
valid_token_iff_example = valid_token_iff same token
