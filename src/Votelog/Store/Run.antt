-- ===== src/Votelog/Store/Run.antt =====
-- internal/votelog/store.go: commit, flush and the goroutine `run`. `broker n` is what the broker and the
-- hooks answer to the n-th transaction of this writer, `offsets i` what it assigns to the i-th record.
-- As Kafka documents, a transaction is committed when EndTransaction returns no error; when it returns
-- one, `lands` says whether it was committed nevertheless.
use gigaquizz.Common.{
  ℕ, ◌+◌, ◌-◌, Bool, true, false, not, List, [], ◌∷◌, ◌++◌, Option, none, some, ltb, ◌==◌,
  if◌then◌else◌, length, get_or, max,
}
use gigaquizz.Common.Bytes.{Bytes}
use gigaquizz.Common.Int.{pos}
use gigaquizz.Votelog.{Config, no_vote, encode_record, record_vote, record_closed}
use gigaquizz.Votelog.Frame.{FrameError, Encoded, bytes, rejected, encode_frame}
use gigaquizz.Votelog.Store.{
  Stage, begin, produce, before_commit_hook, commit, after_commit_hook, Failure, transaction,
  encoding, StoreError, lost, unknown, Pending, size, Answer, Entry, Counters, Writer, add64,
  no_receipt,
}

pub record Broker : Type 0 where
  pub begin_error : Option ℕ
  pub produce_error : Option ℕ
  pub before_error : Option ℕ
  pub end_error : Option ℕ
  pub after_error : Option ℕ
  pub offsets : ℕ → ℕ
  pub lands : Bool

pub record Message : Type 0 where
  pub key : Bytes
  pub value : Bytes

-- The records as the broker commits them, from the i-th on.
unfoldable pub entries_of : (ℕ → ℕ) → ℕ → List Message → List Entry
entries_of offsets i [] = []
entries_of offsets i (m ∷ ms) =
    record { offset = offsets i; key = m.key; value = m.value } ∷ entries_of offsets (i + 1) ms

unfoldable pub attempt : Stage → Option ℕ → Option Failure
attempt stage none = none
attempt stage (some e) = some (transaction stage e)

unfoldable pub or_then : Option Failure → Option Failure → Option Failure
or_then none f = f
or_then (some e) f = some e

-- The error of `commit` before EndTransaction.
unfoldable pub before_end : Bool → Broker → Option Failure
before_end runtime b = or_then (attempt begin b.begin_error) (
    or_then (attempt produce b.produce_error)
      (if runtime then attempt before_commit_hook b.before_error else none))

-- The outcome of a transaction: the partition's log, the counters and the error of `commit`.
pub record Outcome : Type 0 where
  pub log : List Entry
  pub counters : Counters
  pub err : Option Failure

-- The counts of a committed transaction of `n` records, and the hook behind it.
unfoldable pub after_commit : Bool → Broker → ℕ → List Entry → Counters → Outcome
after_commit false b n log k = record { log = log; counters = k; err = none }
after_commit true b n log k = record {
  log = log;
  counters = record k {
    transactions = add64 k.transactions 1;
    transaction_records = add64 k.transaction_records n;
    max_batch = max k.max_batch n;
  };
  err = attempt after_commit_hook b.after_error;
}

-- `EndTransaction` and what follows it.
unfoldable pub end_transaction :
    Bool → Broker → List Message → List Entry → Counters → Option ℕ → Outcome
end_transaction runtime b ms log k (some e) = record {
  log = if b.lands then log ++ entries_of b.offsets 0 ms else log;
  counters = k;
  err = some (transaction commit e);
}
end_transaction runtime b ms log k none =
    after_commit runtime b (length ms) (log ++ entries_of b.offsets 0 ms) k

unfoldable pub outcome_of :
    Bool → Broker → List Message → List Entry → Counters → Option Failure → Outcome
outcome_of runtime b ms log k (some f) = record { log = log; counters = k; err = some f }
outcome_of runtime b ms log k none = end_transaction runtime b ms log k b.end_error

-- The same error for several jobs.
unfoldable pub errors_of : StoreError → List Pending → List Answer
errors_of e [] = []
errors_of e (p ∷ ps) =
    record { ticket = p.ticket; receipt = no_receipt; err = some e } ∷ errors_of e ps

abbrev pub file : List Answer → Writer → Writer
file more w = record w { answers = w.answers ++ more }

-- `p.vote.AdmittedAt`, or that of the frame's first vote
unfoldable pub admitted_of : Pending → ℕ
admitted_of p =
    if not (length p.frame == 0) then (get_or p.frame 0 no_vote).admitted_at else p.vote.admitted_at

-- The answers to a batch whose transaction is committed, from the i-th record on.
unfoldable pub receipts_of : ℕ → (ℕ → ℕ) → ℕ → List Pending → List Answer
receipts_of partition offsets i [] = []
receipts_of partition offsets i (p ∷ ps) =
    record {
      ticket = p.ticket;
      receipt = record {
        partition = partition;
        offset = offsets i;
        index = 0;
        admitted_at = admitted_of p;
      };
      err = none;
    }
    ∷ receipts_of partition offsets (i + 1) ps

-- The counts of the confirmed jobs.
unfoldable pub confirm : List Pending → List Message → Counters → Counters
confirm (p ∷ ps) (m ∷ ms) k = confirm ps ms (record k {
  committed_frames = add64 k.committed_frames (if not (length p.frame == 0) then 1 else 0);
  confirmed = add64 k.confirmed (size p);
  committed_value_bytes = add64 k.committed_value_bytes (length m.value);
  committed_key_bytes = add64 k.committed_key_bytes (length m.key);
})
confirm ps ms k = k

-- The second loop of `flush`: the answers and the counters.
unfoldable pub answers_of : ℕ → (ℕ → ℕ) → List Pending → Option Failure → List Answer
answers_of partition offsets batch none = receipts_of partition offsets 0 batch
answers_of partition offsets batch (some e) = errors_of (unknown e) batch

unfoldable pub counts_of : List Pending → List Message → Counters → Option Failure → Counters
counts_of batch ms k none = confirm batch ms k
counts_of batch ms k (some e) = k

pub data Messages : Type 0 where
  messages : List Message → Messages
  unencodable : FrameError ⊥ → Messages

unfoldable pub also : Message → Messages → Messages
also m (messages ms) = messages (m ∷ ms)
also m (unencodable e) = unencodable e

unfoldable pub framed : Encoded → Messages → Messages
framed (bytes b) rest = also (record { key = []; value = b }) rest
framed (rejected e) rest = unencodable e

module _ (loopback : Bytes → Bool) (c : Config) where
  -- The first loop of `flush`.
  unfoldable pub messages_of : List Pending → Messages
  messages_of [] = messages []
  messages_of (p ∷ ps) =
      if not (length p.frame == 0)
      then framed (encode_frame loopback c p.frame) (messages_of ps)
      else also (record { key = p.vote.token; value = encode_record c record_vote p.vote })
          (messages_of ps)

module _ (loopback : Bytes → Bool) (c : Config) (broker : ℕ → Broker) where
  -- `commit`
  unfoldable pub transact : Bool → List Message → Writer → Outcome
  transact runtime ms w =
      outcome_of runtime (broker w.turn) ms w.log w.counters (before_end runtime (broker w.turn))

  -- `flush` behind its transaction.
  unfoldable pub flushed : List Pending → List Message → Outcome → Writer → Writer × Option Failure
  flushed batch ms o w = (
    record w {
      turn = w.turn + 1;
      log = o.log;
      counters = counts_of batch ms o.counters o.err;
      answers = w.answers ++ answers_of w.partition (broker w.turn).offsets batch o.err;
    },
    o.err,
  )

  unfoldable pub flush_messages : List Pending → Messages → Writer → Writer × Option Failure
  flush_messages batch (unencodable e) w = (file (errors_of lost batch) w, some (encoding e))
  flush_messages batch (messages ms) w = flushed batch ms (transact true ms w) w

  -- `flush` of the writer
  unfoldable pub flush : List Pending → Writer → Writer × Option Failure
  flush [] w = (w, none)
  flush (p ∷ ps) w = flush_messages (p ∷ ps) (messages_of loopback c (p ∷ ps)) w

  -- The `fail` of `run`
  unfoldable pub fail : Failure → Writer → Writer
  fail e w = record w {
    failed = true;
    failure = some e;
    counters = record w.counters { failures = add64 w.counters.failures 1 };
  }

  unfoldable pub or_fail : Writer × Option Failure → Writer × Bool
  or_fail (w, none) = (w, true)
  or_fail (w, some e) = (fail e w, false)

  -- The `flush` of `run`
  unfoldable pub flush_batch : Writer → Writer × Bool
  flush_batch w = or_fail (flush w.batch (record w { batch = []; batch_votes = 0 }))

  -- The second half of `appendJob`.
  unfoldable pub join_batch : Pending → Writer → Writer × Bool
  join_batch p w =
      let joined : Writer = record w {
        queued_votes = w.queued_votes - size p;
        batch = w.batch ++ p ∷ [];
        batch_votes = w.batch_votes + size p;
      } in
      if ltb (w.batch_votes + size p) c.batch_size then (joined, true) else flush_batch joined

  unfoldable pub join_flushed : Pending → Writer × Bool → Writer × Bool
  join_flushed p (w, true) = join_batch p w
  join_flushed p (w, false) = (file (errors_of lost (p ∷ [])) w, false)

  -- `appendJob`
  unfoldable pub append_job : Pending → Writer → Writer × Bool
  append_job p w =
      join_flushed p
        (if ltb c.batch_size (w.batch_votes + size p) then flush_batch w else (w, true))

  -- The deferred calls of `run`.
  unfoldable pub end_run : Writer → Writer
  end_run w = record w {
    answers = w.answers ++ (errors_of lost w.batch ++ errors_of lost w.jobs);
    batch = [];
    batch_votes = 0;
    jobs = [];
    done = true;
  }

  unfoldable pub unless_ended : Writer × Bool → Writer
  unless_ended (w, true) = w
  unless_ended (w, false) = end_run w

  unfoldable pub take_from : List Pending → Writer → Writer
  take_from [] w = w
  take_from (p ∷ ps) w = unless_ended (append_job p (record w { jobs = ps }))

  -- `p := <-w.jobs`
  unfoldable pub take_job : Writer → Writer
  take_job w = take_from w.jobs w

  -- `<-ticker.C`
  unfoldable pub tick : Writer → Writer
  tick w = unless_ended (flush_batch w)

  unfoldable pub go_on : (Writer → Writer × Bool) → Writer × Bool → Writer × Bool
  go_on k (w, true) = k w
  go_on k (w, false) = (w, false)

  -- `for len(w.jobs) > 0`, the jobs of which no other goroutine adds to.
  unfoldable pub append_jobs : List Pending → Writer → Writer × Bool
  append_jobs [] w = (w, true)
  append_jobs (p ∷ ps) w = go_on (append_jobs ps) (append_job p (record w { jobs = ps }))

  abbrev pub closed_message : Message
  closed_message = record { key = []; value = encode_record c record_closed no_vote }

  -- Behind the transaction of the CLOSED record.
  unfoldable pub close_log : Option Failure → Writer → Writer
  close_log (some e) w = fail e (record w { turn = w.turn + 1 })
  close_log none w = record w {
    turn = w.turn + 1;
    sealed = true;
    end_ = pos ((broker w.turn).offsets 0);
  }

  unfoldable pub seal_log : Writer × Bool → Writer
  seal_log (w, false) = w
  seal_log (w, true) =
      let o = transact false (closed_message ∷ []) w in
      close_log o.err (record w { log = o.log; counters = o.counters })

  -- `<-w.seal`
  unfoldable pub seal_run : Writer → Writer
  seal_run w =
      end_run
        (seal_log (go_on flush_batch (append_jobs w.jobs (record w { seal_requested = false }))))
