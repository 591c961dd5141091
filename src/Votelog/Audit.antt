-- ===== src/Votelog/Audit.antt =====
-- internal/votelog/audit.go: `Audit`, which counts the first vote of every token.
pub mod Ledger
pub mod Sound
mod Tests
use gigaquizz.Common.{
  ℕ, zero, suc, ◌+◌, ◌-◌, ◌%◌, ◌^◌, Bool, true, false, not, ◌&&◌, ◌||◌, List, [], ◌∷◌, ◌++◌, Option,
  none, some, bit_and, ltb, leb, ◌==◌, if◌then◌else◌, length, get_or, set, replicate,
}
use gigaquizz.Common.Bytes.{Bytes, bytes_eq}
use gigaquizz.Common.Int.{ℤ, pos, negsuc, ◌≤b◌}
use gigaquizz.Common.Assoc.{Assoc, lookup, put}
use gigaquizz.Votelog.{
  Config, Vote, Position, ConfigError, validate, record_vote, record_boot, record_closed,
  RecordError, Decoded, decoded, refused, decode_record, partition,
}
use gigaquizz.Votelog.Frame.{FrameError, frame_version, decode_frame}
use gigaquizz.Votelog.Scan.{Poll}
use gigaquizz.Votelog.Replay.{Manifest, Outcome, replay_all}

pub record AuditResult : Type 0 where
  pub canonical : Assoc Vote
  pub records : List (Position × Vote)
  pub total_attempts : ℕ
  pub choice_counts : List ℕ

pub data AuditError : Type 0 where
  limit_exceeded delivered_twice : AuditError

pub same_position : Position → Position → Bool
same_position a b = a.partition == b.partition && a.offset == b.offset && a.index == b.index

-- `_, ok := a.Records[pos]`
pub has_position : Position → List (Position × Vote) → Bool
has_position p [] = false
has_position p ((q, v) ∷ m) = same_position q p || has_position p m

-- The loop over the 32 bits, from `bit` on.
pub count_choice : ℕ → ℕ → List ℕ → List ℕ
count_choice bit choice [] = []
count_choice bit choice (n ∷ ns) =
    (if bit_and choice (2 ^ bit) == 0 then n else (n + 1) % 2 ^ 64)
    ∷ count_choice (bit + 1) choice ns

-- `if _, ok := a.Canonical[v.Token]; !ok`
pub count_first : Vote → AuditResult → AuditResult
count_first v a = elim (lookup v.token a.canonical) [
  | some w ↦ a
  | none ↦ record a {
    canonical = put v.token v a.canonical;
    choice_counts = count_choice 0 v.choice a.choice_counts;
  }
]

-- The visitor of `Audit`.
pub audit_visit : Position → Vote → AuditResult → AuditResult × Option AuditError
audit_visit p v a =
    if leb 12_000_000 a.total_attempts
    then (a, some limit_exceeded)
    else if has_position p a.records
    then (a, some delivered_twice)
    else (
      count_first v (record a {
        records = a.records ++ (p, v) ∷ [];
        total_attempts = (a.total_attempts + 1) % 2 ^ 64;
      }),
      none,
    )

abbrev pub no_audit : AuditResult
no_audit = record {
  canonical = [];
  records = [];
  total_attempts = 0;
  choice_counts = replicate 32 0;
}

-- `Audit`
pub audit :
    (Bytes → Bool)
    → (Bytes → Bytes)
    → Config
    → Option ℕ
    → List Poll
    → Outcome (Manifest × AuditResult) AuditError
audit loopback sha256 c client polls =
    replay_all loopback sha256 audit_visit c client polls no_audit
