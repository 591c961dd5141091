-- ===== src/Votelog/Audit/Tests.antt =====
-- An audit of a topic of two partitions with one vote.
use gigaquizz.Common.{ℕ, ◌≡◌, refl, true, Bool, List, [], ◌∷◌, none, replicate, set}
use gigaquizz.Common.Bytes.{Bytes, bytes_eq, zeros, from_be, be}
use gigaquizz.Common.Int.{pos}
use gigaquizz.Common.Assoc.{lookup, put}
use gigaquizz.GoTime.{unix_nano, from_unix_nano}
use gigaquizz.Votelog
use gigaquizz.Votelog.{Vote, no_vote, encode_record, Position}
use gigaquizz.Votelog.Tests.{journal, vote}
use gigaquizz.Votelog.Scan.{
  Record, Poll, scan, scan_loop, poll_again, scan_poll, scan_fetches, scan_fetch, scan_records,
  scan_record, unless_failed, record_seen,
}
use gigaquizz.Votelog.Replay.{
  Manifest, result, replay_all, when_valid, outcome_of, replay, replay_visit, is_frame,
  replay_record, lacks_boot, replay_kind, at_barrier, is_closed, vote_result, manifest_of, ends_of,
}
use gigaquizz.Votelog.Audit.{
  AuditResult, no_audit, audit, audit_visit, has_position, count_first, count_choice,
}
use gigaquizz.Votelog.Replay.Sealed.{Complete, replay_all-Complete}
use gigaquizz.Votelog.Audit.Ledger.{AuditInv}
use gigaquizz.Votelog.Audit.Sound.{audit_sound}

abbrev local : Bytes → Bool
local b = true

-- A hash by which every token goes to partition 0.
abbrev hash : Bytes → Bytes
hash b = zeros 32

written : ℕ → Bytes → ℕ → Vote → Record
written offset key kind v = record {
  offset = offset;
  key = key;
  value = encode_record journal kind v;
  transactional = true;
}

polls : List Poll
unfolding written encode_record
polls =
    record {
      cancelled = none;
      errors = [];
      fetches =
          record {
            partition = pos 0;
            log_start = pos 0;
            records =
                written 0 [] 2 no_vote ∷ written 2 vote.token 1 vote ∷ written 4 [] 3 no_vote ∷ [];
          }
          ∷ record {
            partition = pos 1;
            log_start = pos 0;
            records = written 0 [] 2 no_vote ∷ written 2 [] 3 no_vote ∷ [];
          }
          ∷ [];
    }
    ∷ []

abbrev at : Position
at = record { partition = 0; offset = 2; index = 0 }

audited : AuditResult
audited = record {
  canonical = (vote.token, vote) ∷ [];
  records = (at, vote) ∷ [];
  total_attempts = 1;
  choice_counts = set (replicate 32 0) 1 1;
}

sealed : Manifest
sealed = record {
  topic = journal.topic;
  partitions =
      record { partition = 0; offset = pos 4 } ∷ record { partition = 1; offset = pos 2 } ∷ [];
  starts_at = journal.starts_at;
  ends_at = journal.ends_at;
}

audit_runs : audit local hash journal none polls ≡ result (sealed, audited)
unfolding polls audited sealed audit replay_all when_valid Votelog.validate Votelog.in_bounds
    Votelog.owned_topic Votelog.topic_rest Votelog.behind Votelog.topic_chars Votelog.topic_char
    bytes_eq Votelog.all_loopback outcome_of replay scan scan_loop poll_again scan_poll scan_fetches
    scan_fetch scan_records scan_record unless_failed record_seen replay_visit is_frame
    replay_record lacks_boot replay_kind at_barrier is_closed vote_result manifest_of ends_of
    Votelog.decode_record Votelog.matches Votelog.valid_vote Votelog.valid_choice Votelog.ones_count
    Votelog.partition Votelog.stamp from_be be unix_nano from_unix_nano audit_visit has_position
    count_first count_choice lookup put
audit_runs = refl

audit_sound_example : AuditInv hash journal audited
audit_sound_example = audit_sound local hash journal none polls sealed audited audit_runs

replay_all-Complete_example : Complete journal sealed
unfolding audit
replay_all-Complete_example =
    replay_all-Complete local hash audit_visit journal none polls no_audit audited sealed audit_runs
