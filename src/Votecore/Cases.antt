-- ===== src/Votecore/Cases.antt =====
-- The ways through the critical section of Submit, each with the tests that lead to it.
use gigaquizz.Common.{
  ℕ, ◌≡◌, ◌≢◌, true, false, get_or, set, if_cases, not, not-true, not-false, arith,
}
use gigaquizz.Common.Bytes.{Bytes}
use gigaquizz.GoTime.{unix_nano, int64_lt}
use gigaquizz.Votecore.{
  Config, Engine, Shard, Input, Result, closed, not_open, invalid, refused, empty_shard, store_vote,
  after_load, admit, valid_input, partition, submit,
}

abbrev pub shard_at : Engine → ℕ → Shard
shard_at e p = get_or e.shards p (empty_shard 0)

abbrev pub stored : Engine → ℕ → Input → Engine
stored e p i = record e { shards = set e.shards p (store_vote (shard_at e p) i).0 }

-- The clock reading lies in the engine's window.
pub record InWindow (e : Engine) (now : ℕ) : Type 0 where
  pub from : int64_lt (unix_nano now) e.start_ns ≡ false
  pub until : int64_lt (unix_nano now) e.end_ns ≡ true

pub after_load_cases :
    (P : Engine × Result → Type 0) (e : Engine) (p : ℕ) (i : Input) (now : ℕ)
    → (int64_lt (unix_nano now) e.start_ns ≡ true → P (e, refused not_open))
    → (int64_lt (unix_nano now) e.end_ns ≡ false → P (record e { sealed = true }, refused closed))
    → (InWindow e now → P (stored e p i, (store_vote (shard_at e p) i).1))
    → P (after_load e p i now)
unfolding after_load
after_load_cases P e p i now b c d = if_cases P (int64_lt (unix_nano now) e.start_ns) _ _ b λ f.
    if_cases P (not (int64_lt (unix_nano now) e.end_ns)) _ _ (λ g. c (not-true _ g))
      λ g. d (record { from = f; until = not-false _ g })

pub admit_cases :
    (P : Engine × Result → Type 0) (e : Engine) (p : ℕ) (i : Input) (now : ℕ)
    → (e.sealed ≡ true → P (e, refused closed))
    → (e.sealed ≡ false → int64_lt (unix_nano now) e.start_ns ≡ true → P (e, refused not_open))
    → (e.sealed ≡ false
        → int64_lt (unix_nano now) e.end_ns ≡ false
        → P (record e { sealed = true }, refused closed))
    → (e.sealed ≡ false → InWindow e now → P (stored e p i, (store_vote (shard_at e p) i).1))
    → P (admit e p i now)
unfolding admit
admit_cases P e p i now a b c d =
    if_cases P e.sealed _ _ a λ s. after_load_cases P e p i now (b s) (c s) (d s)

pub submit_cases :
    (sha256 : Bytes → Bytes) (P : Engine × Result → Type 0) (e : Engine) (i : Input) (now : ℕ)
    → (valid_input e.cfg i ≡ false → P (e, refused invalid))
    → (valid_input e.cfg i ≡ true → P (admit e (partition sha256 e i.token) i now))
    → P (submit sha256 e i now)
unfolding submit
submit_cases sha256 P e i now a b = if_cases P (valid_input e.cfg i) _ _ b a

pub valid_input-choice : (c : Config) (i : Input) → valid_input c i ≡ true → i.choice ≢ 0
unfolding valid_input
valid_input-choice c i h = λ e. ground (arith, e)
