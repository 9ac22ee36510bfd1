-- ===== src/Lib.antt =====
-- The Hyperliquid market benchmark collector: the cohort engine that compares how fast providers
-- deliver the same market event, and the publication of what it measured.
--
-- Paths are from the repository's root. Streams (src/streams.rs, src/peering.rs, src/tap.rs) turn
-- what a provider sends into market events: the tap puts a captured connection's segments in
-- order, the peering reader cuts the bytes into frames, and its assembly joins the ordering frames
-- (src/ordering.rs), the bundles and the reference rounds into one event for each round.
-- `Benchmark` (src/benchmark.rs) groups the events of one book time, trade, transaction or round
-- into a base; inside a base the contents are the candidates, and a candidate has one arrival for
-- each provider. A base settles at its deadline, when it is evicted, or at once where there is a
-- single provider; a settled base is a tombstone that turns later events into duplicates and late
-- ones. Complete candidates become committed cohorts of the coin's rolling window. Each
-- publication interval counts the outcomes that have not been reported yet, hands the rows to a
-- durable outbox (src/axiom.rs), and then commits or rejects the interval. The outbox writes
-- batches as files and a worker posts them in order, with retries, until each is acknowledged.
--
-- Which file models what:
--   Model      src/model.rs: providers and the arrays indexed by them (Provider), `PeeringMode`
--              (Mode), `Dataset` (Dataset), the keys and events (Keys)
--   Config     src/benchmark.rs: `BenchmarkConfig`, its caps, and what dataset, mode and place
--              choose
--   Benchmark  src/benchmark.rs: the state, and under it the counters (Count), the rolling windows
--              (Windows), arrivals (Arrivals), tombstones (Tombstones), `settle` and
--              `finalize_candidate` (Settle), `record`, `tick` and `prune` (Record); the other
--              modules below it hold proofs
--   Outcomes   src/benchmark.rs: `unreported_outcomes`, `mark_outcomes_reported`,
--              `rolling_coverage`, `provider_family_total`
--   Publication  src/benchmark.rs: the state changes of `window_events`,
--              `commit_prepared_publication` and `reject_prepared_publication`, and under it the
--              readiness of a row (Rows), the rows (Events), and proofs
--   Clock      src/clock.rs: `ClockHealthSnapshot::assess`
--   Rank       src/benchmark.rs: `nearest_rank` and `distribution`
--   Signals    src/model.rs: `StreamSignal`, `RuntimeSignals`, `ConnectionGuard`, `ProbeSender`
--   Join       src/vpc_mempool.rs: `MempoolJoin`
--   Reconnect  src/streams.rs: `ReconnectBackoff`
--   Peering    src/peering.rs: `Assembly`, and under it `drain_ready` (Drain), `bundle_first_sig`
--              with the numbers that it reads (Payload), `consume_frames` and `track_payload`
--              (Frames), `find_frame_boundary` (Resync), `DecodedAssembly` (Decoded); the other
--              modules below it hold proofs
--   Hex        src/peering.rs: `parse_hex32`
--   Tap        src/tap.rs: `Reassembler` and `take`, and under it `push`, `tick` and `expire`
--              (Push), `parse_ipv4_tcp` and `bpf_program` (Packet), and proofs
--   Ordering   src/ordering.rs: `read_varint`, `parse_tail`, `parse_slot`, and under it the searches
--              `tailed_records`, `scan_block_records` and `find_block_records` (Records), and proofs
--   Outbox     src/axiom.rs: `PersistentOutbox` and `persist_events`, and under it the loop of
--              `spawn_axiom_worker` (Worker), the names of files (Names), `PersistentOutbox::open`
--              (Recovery), and proofs
--   Bytes      slices and numbers in bytes, as the parsers read them
--   Safety     sequences of calls on a `Benchmark`
--   Dict       `HashMap` as a list of entries, in the order in which it is iterated; what is
--              proved for all lists holds for each order
--   Prelude    tests, lists, words, and code that may panic
--   Tests      runs at concrete inputs
--
-- Conventions. A panic (`expect`, `panic!`, an index out of range, a remainder by zero) is the
-- answer `none`. Instants and durations are natural numbers of nanoseconds, wall clocks of
-- milliseconds; a saturating difference is the truncated one. A u64 counter and a u64 difference
-- wrap as in a release build; the counts of outcomes are bounded by the length of a list in memory
-- and do not. A provider's array index is the provider. What the disk, the clock and the server
-- answer is an argument of the step that asks; the decompression of a frame (LZ4), the parser of
-- times (chrono) and the channel (tokio) are parameters.
--
-- Loops run over lists and need no fuel, except those over an index or an offset, whose fuel is the
-- length of what they read: the scan of `scan_block_records` advances by at least a byte in each
-- round, a round of `consume_frames` by at least the five bytes of a header, and the loop of the
-- reassembler's `take` removes a pending segment in each round. The end of the fuel is
-- a panic in the model where the loop could be cut short, so that the theorems which
-- exclude panics show that the fuel is enough; the reassembler's loop is shown to stop with nothing
-- due.
--
-- Not modelled: the means and standard deviations (floats), the texts of a row that are formatted
-- from the configuration, sockets and the packet capture, the tasks of the runtime, the HTTP client,
-- the messages of the WebSocket and gRPC streams (src/streams.rs beyond the backoff), the lines of
-- the bundle and reference feeds, the clock probe, and the start of the process (src/main.rs).
-- The signals that one publication reads are taken to stay the same while it reads them, and
-- percentiles are natural numbers, which f64 holds exactly below 2 ^ 53.
mod Prelude
pub mod Bytes
pub mod Dict
pub mod Model
pub mod Config
pub mod Benchmark
pub mod Outcomes
pub mod Rank
pub mod Join
pub mod Signals
pub mod Clock
pub mod Reconnect
pub mod Ordering
pub mod Outbox
pub mod Tap
pub mod Hex
pub mod Peering
pub mod Publication
pub mod Safety
mod Tests
