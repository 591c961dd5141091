-- ===== src/Lib.antt =====
-- Gigaquizz: polls of one minute whose votes are admitted by a bounded core and written to a journal.
--
-- The parts, and the files that model them:
--   * internal/votecore/engine.go, the in-memory voting core: Votecore. `new`, `submit`, `seal`,
--     `partition` and `find_vote` (Lookup) are the source's methods; an engine is a record, a clock
--     reading is an argument, and a Go map is an association list. Below it: Counts (the loop over a
--     mask's ones), Shards (one shard), Cases (the branches of Submit), Routing (the choice of a
--     shard) and Agreement (the journal's choice), Setup (New), Invariant, Sealing, History (sequences of calls) and Interleaving (Submit
--     and Seal in steps between which other goroutines run).
--   * internal/poll/poll.go, the rules of polls and selections: Poll, with Clock (Poll.State),
--     Selection (NormalizeChoices) and Validation (CreateInput.Validate).
--   * internal/filelog, the single-disk journal: Filelog. Types is types.go, Codec is codec.go (Fields,
--     Frames, Entries, Opening and Checks below it), Scan is scan.go (Journal: the file as the writer
--     lays it out; Cuts: a file cut at any byte; Whole: whole files; Sound and Outcome: any bytes),
--     Store is store.go: the state under the mutex, SubmitFrame, Seal and Close, and below it Writer,
--     the goroutine `run` with writeAll and syncGroup, Machine, both as one state machine, and Logged,
--     which numbers what SubmitFrame has queued.
--   * internal/votelog, the journal on a broker: Votelog. types.go is Votelog and Records below it;
--     frame.go is Frame; audit.go is Scan (the consumer's loop), Replay (`replay` and `Replay`, which is
--     `replay_all` here) and Audit; store.go and frame_submit.go are Store: one partition's writer
--     under its mutex, Submit, SubmitFrame and Seal, and below it Run, the goroutine `run` with
--     commit and flush, and Machine, both as one state machine.
--   * internal/httpapi: Httpapi. auth.go is Auth (Sessions: the table of sessions; Machine: any calls of
--     login, valid and logout; Refines and Guessing: what they come to), and the handler of votes of
--     server.go is Server (Machine: the handlers that run at once; Metrics, Tokens and Calls below it).
--   * internal/config/config.go: AppConfig. LoadEnv is in AppConfig, `Load` in Load below it; Loading and
--     Bounds say what they come to.
--   * cmd/corebench/metrics.go, the histogram and the bitmap of the core's benchmark: Corebench, with
--     Buckets and Bitmap.
--   * cmd/loadtest/scheduler.go, when the load generator's votes are due: Loadtest, with Slots.
--   * hash/crc32 and package time, as far as the parts use them: Crc and GoTime. Common holds shared
--     helpers: Boolean tests, lists over native numbers, byte strings, bits, association lists.
--
-- How they interact: SubmitFrame encodes a frame (Codec) and queues it; the writer numbers the frames
-- of a batch, writes and syncs them and answers; Seal adds the barrier; Scan and Replay read the file
-- back with the same codec. The frames that Store writes are the journal of Scan/Journal. On the
-- broker's side Submit queues a vote for the writer of its token's partition, the writer commits a
-- batch in one transaction and answers, Seal has it append the CLOSED record, and Replay and Audit read
-- the partitions back with the codecs of Votelog and Frame.
--
-- The handler of votes passes what NormalizeChoices (Poll) lets through to the repository.
--
-- Numbers: a Go time is the number of nanoseconds since the zero Time, an int64 is its bit pattern. The
-- writer's counters wrap at 2 ^ 64 as atomic.Uint64 does. Sizes of a configuration that the checks
-- refuse below 1 are natural numbers.
--
-- The token bucket of the log-in counts in float64, whose operations are a parameter of Auth; Guessing
-- takes exact arithmetic for them.
--
-- Fuel: the loop of Scan has one round for each byte of the file and one more, and each round takes
-- 40 bytes at least; writeAll has one for each byte and one more, and each round but the last
-- takes a byte; the loop over the ones of a uint32 has 32, and the
-- length of a uint64 is found by 64 halvings.
--
-- The loop of the consumer ends with the list of what it has delivered: `waiting`.
--
-- Parameters: SHA-256, the JSON text of the poll's metadata, unicode.IsSpace and unicode.ToLower, the
-- context of Scan, what the disk answers to Write, Sync and Close, what the broker answers to a transaction
-- and delivers to the consumer, the check of a broker's address, the random bytes of a session, what a
-- request's body decodes to, whether the system refuses a variable, what the repository answers to a vote, and the clock.
--
-- Not modelled: internal/votelog's http.go and its administration of topics in `CreateTopic` and `New`,
-- which are calls of the Kafka client; the rest of cmd/loadtest,
-- cmd/corebench and internal/httpapi; internal/postgres and the other commands;
-- the calls of package os that open, lock and create files, and the durations that the metrics measure.
pub mod AppConfig
pub mod Common
pub mod Corebench
pub mod Crc
pub mod Filelog
pub mod GoTime
pub mod Httpapi
pub mod Loadtest
pub mod Poll
pub mod Votecore
pub mod Votelog
