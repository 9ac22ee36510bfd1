-- ===== src/Publication/Events.antt =====
-- src/benchmark.rs: `window_events`, whose state changes are those of `prepare_publication`.
use hyperliquid_market_bench.Prelude.{
  ℕ, ◌+◌, ◌-◌, List, [], ◌∷◌, ◌++◌, Option, none, some, Bool, ◌&&◌, ◌||◌, ◌==◌, String,
  String_discrete, if◌then◌else◌, leb, length, map, ◌>>=◌,
}
use mathlib.Core.Logic.{ite}
use hyperliquid_market_bench.Dict.{Map, get}
use hyperliquid_market_bench.Model.Provider.{Provider, Row, foundation_ws, quick_node_vpc}
use hyperliquid_market_bench.Model.Keys.{BaseKey}
use hyperliquid_market_bench.Config.{BenchmarkConfig, providers, has_provider_comparison}
use hyperliquid_market_bench.Benchmark.{
  Benchmark, CoinWindow, CommittedCohort, PendingBase, ProviderCounters, as_millis,
}
use hyperliquid_market_bench.Benchmark.Record.{tick}
use hyperliquid_market_bench.Outcomes.{
  OutcomeCounts, no_outcomes, unreported_outcomes, Coverage, rolling_coverage,
  provider_family_total, quicknode_family, hydromancer_family,
}
use hyperliquid_market_bench.Rank.{Distribution, distribution}
use hyperliquid_market_bench.Signals.{StreamSignal, RuntimeSignals, stream}
use hyperliquid_market_bench.Clock.{ClockAssessment}
use hyperliquid_market_bench.Publication.{aligned_window_end_ms}
use hyperliquid_market_bench.Publication.Rows.{
  CohortHealth, cohort_health, cohort_health_complete, cohort_complete, is_ready, readiness,
  is_fresh, stream_message_age_ms,
}

-- The counts, flags, percentiles and ages of `LatencyWindowEvent`. Its identifiers, the texts and
-- times that are formatted from the configuration, and the outbox's counters are left out; the
-- percentiles of a provider and of the commit delays stand together.
pub record WindowRow : Type 0 where
  pub provider : Provider
  pub coin : String
  pub cohort_complete : Bool
  pub sample_count : ℕ
  pub ready : Bool
  pub readiness : String
  pub outcome_interval_duration_ms : ℕ
  pub outcome_interval_complete : Bool
  pub outcome_complete_cohort_count : ℕ
  pub outcome_foundation_strict_fastest_count : ℕ
  pub outcome_hydromancer_strict_fastest_count : ℕ
  pub outcome_quicknode_strict_fastest_count : ℕ
  pub outcome_quicknode_vpc_strict_fastest_count : ℕ
  pub outcome_foundation_tied_fastest_count : ℕ
  pub outcome_hydromancer_tied_fastest_count : ℕ
  pub outcome_quicknode_tied_fastest_count : ℕ
  pub outcome_quicknode_vpc_tied_fastest_count : ℕ
  pub outcome_tie_count : ℕ
  pub summary : Option Distribution
  pub latest_ms : Option ℕ
  pub commit_delay : Option Distribution
  pub counters : ProviderCounters
  pub coverage : Coverage
  pub complete_cohort_count : ℕ
  pub pending_cohort_count : ℕ
  pub state_eviction_count : ℕ
  pub rolling_eviction_count : ℕ
  pub coverage_eviction_count : ℕ
  pub queue_drops : ℕ
  pub clock : ClockAssessment
  pub connection_up : Bool
  pub last_message_age_ms : Option ℕ

-- `VecDeque::back`.
abbrev pub back : List CommittedCohort → Option CommittedCohort
back [] = none
back (c ∷ []) = some c
back (c ∷ d ∷ cs) = back (d ∷ cs)

abbrev pub latest_latency : Provider → Option CommittedCohort → Option ℕ
latest_latency p none = none
latest_latency p (some c) = some (c.latency_ms p)

-- The candidates that are pending for a coin.
unfoldable pub pending_count : String → Map BaseKey PendingBase → ℕ
pending_count coin [] = 0
pending_count coin (e ∷ es) =
    ite (String_discrete e.0.coin coin) (length e.1.candidates) 0 + pending_count coin es

-- What the rows of one publication share.
pub record Interval : Type 0 where
  pub actual_wall_ms : ℕ
  pub duration_ms : ℕ
  pub schedule_complete : Bool

module _ (config : BenchmarkConfig) where
  -- The row of one provider, from what is read for its coin.
  unfoldable pub row_of :
      Interval
      → String
      → CoinWindow
      → OutcomeCounts
      → CohortHealth config
      → Option Distribution
      → ℕ
      → Provider
      → StreamSignal
      → ProviderCounters
      → Option Distribution
      → WindowRow
  row_of interval coin window outcomes health commit_delay pending p signal counters summary =
      let sample_count = length window.cohorts in
      let age = stream_message_age_ms interval.actual_wall_ms signal.last_message_wall_ms in
      record {
        provider = p;
        coin = coin;
        cohort_complete = cohort_complete config health sample_count;
        sample_count = sample_count;
        ready = is_ready config health sample_count;
        readiness =
            readiness config health (is_fresh (as_millis config.stale_after) age) sample_count;
        outcome_interval_duration_ms = interval.duration_ms;
        outcome_interval_complete =
            has_provider_comparison config
            && interval.schedule_complete
            && cohort_health_complete config health;
        outcome_complete_cohort_count = outcomes.complete;
        outcome_foundation_strict_fastest_count = outcomes.strict_fastest foundation_ws;
        outcome_hydromancer_strict_fastest_count =
            provider_family_total outcomes.strict_fastest hydromancer_family;
        outcome_quicknode_strict_fastest_count =
            provider_family_total outcomes.strict_fastest quicknode_family;
        outcome_quicknode_vpc_strict_fastest_count = outcomes.strict_fastest quick_node_vpc;
        outcome_foundation_tied_fastest_count = outcomes.tied_fastest foundation_ws;
        outcome_hydromancer_tied_fastest_count =
            provider_family_total outcomes.tied_fastest hydromancer_family;
        outcome_quicknode_tied_fastest_count =
            provider_family_total outcomes.tied_fastest quicknode_family;
        outcome_quicknode_vpc_tied_fastest_count = outcomes.tied_fastest quick_node_vpc;
        outcome_tie_count = outcomes.ties;
        summary = summary;
        latest_ms = latest_latency p (back window.cohorts);
        commit_delay = commit_delay;
        counters = counters;
        coverage = rolling_coverage window.coverage p;
        complete_cohort_count = window.complete_cohorts;
        pending_cohort_count = pending;
        state_eviction_count = window.state_evictions;
        rolling_eviction_count = window.rolling_evictions;
        coverage_eviction_count = window.coverage_evictions;
        queue_drops = signal.queue_dropped;
        clock = health.clock;
        connection_up = signal.connection_up;
        last_message_age_ms = age;
      }

  -- The rows of a coin, one for each provider.
  unfoldable pub provider_rows :
      (Provider → StreamSignal → ProviderCounters → Option Distribution → WindowRow)
      → CoinWindow
      → Row ProviderCounters
      → RuntimeSignals
      → String
      → List Provider
      → Option (List WindowRow)
  provider_rows row window counters signals coin [] = some []
  provider_rows row window counters signals coin (p ∷ ps) = do
    summary ← distribution (map (λ (c : CommittedCohort). c.latency_ms p) window.cohorts)
    signal ← stream p coin signals
    rest ← provider_rows row window counters signals coin ps
    some (row p signal (counters p) summary ∷ rest)

  unfoldable pub streams : RuntimeSignals → String → List Provider → Option (List StreamSignal)
  streams signals coin [] = some []
  streams signals coin (p ∷ ps) = do
    signal ← stream p coin signals
    rest ← streams signals coin ps
    some (signal ∷ rest)

  -- The outcomes of a window, where providers are compared.
  unfoldable pub window_outcomes : CoinWindow → ℕ → Option OutcomeCounts
  window_outcomes window now =
      if has_provider_comparison config
      then unreported_outcomes window now (providers config)
      else some no_outcomes

  unfoldable pub coin_rows :
      Interval → ℕ → RuntimeSignals → ClockAssessment → Benchmark → String → Option (List WindowRow)
  coin_rows interval now signals clock b coin = do
    window ← get String_discrete coin b.windows
    counters ← get String_discrete coin b.counters
    outcomes ← window_outcomes window now
    commit_delay ← distribution (map (λ (c : CommittedCohort). c.commit_delay_ms) window.cohorts)
    heard ← streams signals coin (providers config)
    let health = cohort_health config now interval.actual_wall_ms clock window heard
    provider_rows
        (row_of interval coin window outcomes health commit_delay (pending_count coin b.pending))
        window counters signals coin (providers config)

  unfoldable pub all_rows :
      Interval
      → ℕ
      → RuntimeSignals
      → ClockAssessment
      → Benchmark
      → List String
      → Option (List WindowRow)
  all_rows interval now signals clock b [] = some []
  all_rows interval now signals clock b (coin ∷ coins) = do
    rows ← coin_rows interval now signals clock b coin
    rest ← all_rows interval now signals clock b coins
    some (rows ++ rest)

  unfoldable pub window_events :
      ℕ → ℕ → RuntimeSignals → ClockAssessment → Benchmark → Option (List WindowRow × Benchmark)
  window_events now actual_wall_ms signals clock b = do
    b ← tick config now (record b { prepared_outcome_interval = none })
    wall_ms ← aligned_window_end_ms actual_wall_ms config.publish_interval
    let duration_ms = wall_ms - b.outcome_cursor_wall_ms
    let interval : Interval = record {
      actual_wall_ms = actual_wall_ms;
      duration_ms = duration_ms;
      schedule_complete =
          b.outcome_has_published && duration_ms == as_millis config.publish_interval;
    }
    if leb wall_ms b.outcome_cursor_wall_ms || leb now b.outcome_cursor then some ([], b) else (do
      rows ← all_rows interval now signals clock b config.coins
      some (
        rows,
        record b { prepared_outcome_interval = some (record { end = now; end_wall_ms = wall_ms }) },
      ))
