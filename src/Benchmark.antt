-- ===== src/Benchmark.antt =====
-- src/benchmark.rs: the state of `Benchmark`. Its `config` never changes, and is an argument of
-- the functions instead of a field.
pub mod Count
pub mod Windows
pub mod Arrivals
pub mod Tombstones
pub mod Rings
pub mod Invariant
pub mod Keeps
pub mod Settled
pub mod Sealed
pub mod Complete
pub mod Rounds
pub mod Finalizing
pub mod Settling
pub mod Settle
pub mod Record
pub mod Recording
pub mod Room
pub mod Refusals
pub mod Deadlines
pub mod Cohorts
pub mod Commits
pub mod Lookup
pub mod Stored
pub mod Joining
use hyperliquid_market_bench.Prelude.{
  ℕ, ◌/◌, ◌%◌, ◌^◌, List, [], ◌∷◌, Option, none, some, Bool, false, String, String_discrete,
  if◌then◌else◌, ◌==◌, ◌>>=◌,
}
use hyperliquid_market_bench.Dict.{Map, get, insert}
use hyperliquid_market_bench.Model.Provider.{Provider, Row, set}
use hyperliquid_market_bench.Model.Keys.{EventKey, BaseKey, ContentKey}

abbrev pub max_future_skew_ms : ℕ
max_future_skew_ms = 5_000

abbrev pub max_signatures_per_base : ℕ
max_signatures_per_base = 4

pub record ProviderCounters : Type 0 where
  pub observed : ℕ
  pub matched : ℕ
  pub missing : ℕ
  pub mismatch : ℕ
  pub duplicate : ℕ
  pub late : ℕ
  pub orphaned : ℕ
  pub negative_latency : ℕ
  pub future_timestamp : ℕ
  pub signature_overflow : ℕ
  pub reconnects : ℕ
  pub sequence_gaps : ℕ
  pub replay_count : ℕ
  pub replay_gaps : ℕ

abbrev pub zero_counters : ProviderCounters
zero_counters = record {
  observed = 0;
  matched = 0;
  missing = 0;
  mismatch = 0;
  duplicate = 0;
  late = 0;
  orphaned = 0;
  negative_latency = 0;
  future_timestamp = 0;
  signature_overflow = 0;
  reconnects = 0;
  sequence_gaps = 0;
  replay_count = 0;
  replay_gaps = 0;
}

pub record Observation : Type 0 where
  pub received : ℕ
  pub received_wall_ms : ℕ

pub record PendingCandidate : Type 0 where
  pub first_observed : ℕ
  pub arrivals : Row (Option Observation)

abbrev pub new_candidate : ℕ → PendingCandidate
new_candidate first_observed = record { first_observed = first_observed; arrivals = λ _. none }

pub record PendingBase : Type 0 where
  pub first_observed : ℕ
  pub candidates : Map ContentKey PendingCandidate

abbrev pub new_base : ℕ → PendingBase
new_base first_observed = record { first_observed = first_observed; candidates = [] }

-- `matched_mask` is a u8 with bit `provider.index()` set for a provider that arrived in time.
pub record SettledCohort : Type 0 where
  pub settled_at : ℕ
  pub matched_mask : ℕ

pub record CommittedCohort : Type 0 where
  pub committed_at : ℕ
  pub event_ms : ℕ
  pub latency_ms : Row ℕ
  pub commit_delay_ms : ℕ
  pub outcome_reported : Bool

pub data CoverageOutcome : Type 0 where
  matched missing mismatch : CoverageOutcome

pub record CoverageCohort : Type 0 where
  pub settled_at : ℕ
  pub outcomes : Row CoverageOutcome

-- The deques are lists from front to back.
pub record CoinWindow : Type 0 where
  pub cohorts : List CommittedCohort
  pub coverage : List CoverageCohort
  pub complete_cohorts : ℕ
  pub state_evictions : ℕ
  pub rolling_evictions : ℕ
  pub coverage_evictions : ℕ
  pub last_integrity_loss : Option ℕ

abbrev pub empty_window : CoinWindow
empty_window = record {
  cohorts = [];
  coverage = [];
  complete_cohorts = 0;
  state_evictions = 0;
  rolling_evictions = 0;
  coverage_evictions = 0;
  last_integrity_loss = none;
}

pub record PreparedOutcomeInterval : Type 0 where
  pub end : ℕ
  pub end_wall_ms : ℕ

pub record Benchmark : Type 0 where
  pub started_at : ℕ
  pub outcome_cursor : ℕ
  pub outcome_cursor_wall_ms : ℕ
  pub outcome_has_published : Bool
  pub prepared_outcome_interval : Option PreparedOutcomeInterval
  pub pending : Map BaseKey PendingBase
  pub settled_bases : Map BaseKey ℕ
  pub settled : Map EventKey SettledCohort
  pub counters : Map String (Row ProviderCounters)
  pub windows : Map String CoinWindow

-- The loop of `Benchmark::new` over the configured coins.
unfoldable pub register : List String → Benchmark → Benchmark
register [] b = b
register (coin ∷ coins) b = register coins (record b {
  windows = insert String_discrete coin empty_window b.windows;
  counters = insert String_discrete coin (λ _. zero_counters) b.counters;
})

-- `system_time_ms(wall_now)` is the argument `wall_ms`.
unfoldable pub new : List String → ℕ → ℕ → Benchmark
unfolding register
new coins now wall_ms = register coins (record {
  started_at = now;
  outcome_cursor = now;
  outcome_cursor_wall_ms = wall_ms;
  outcome_has_published = false;
  prepared_outcome_interval = none;
  pending = [];
  settled_bases = [];
  settled = [];
  counters = [];
  windows = [];
})

-- `counters_mut` and an update of what it gives; it panics on a coin that is not registered.
unfoldable pub with_counters :
    Provider → String → (ProviderCounters → ProviderCounters) → Benchmark → Option Benchmark
with_counters provider coin f b = do
  row ← get String_discrete coin b.counters
  some (record b {
    counters = insert String_discrete coin (set row provider (f (row provider))) b.counters;
  })

-- `windows.get_mut(coin).expect(..)` and an update of what it gives.
unfoldable pub with_window : String → (CoinWindow → CoinWindow) → Benchmark → Option Benchmark
with_window coin f b = do
  window ← get String_discrete coin b.windows
  some (record b { windows = insert String_discrete coin (f window) b.windows })

abbrev pub lose_integrity : ℕ → CoinWindow → CoinWindow
lose_integrity now window = record window { last_integrity_loss = some now }

unfoldable pub mark_integrity_loss : String → ℕ → Benchmark → Option Benchmark
mark_integrity_loss coin now = with_window coin (lose_integrity now)

-- `Duration::as_millis() as u64` of nanoseconds.
abbrev pub as_millis : ℕ → ℕ
as_millis nanos = nanos / 1_000_000 % 2 ^ 64
