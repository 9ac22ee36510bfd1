-- ===== src/Publication/Agreement.antt =====
-- src/benchmark.rs: what a row of a publication says of its window.
use hyperliquid_market_bench.Prelude.{
  keep, not, ◌&&◌, leb, ap, ◌++◌, if◌then◌else◌, ℕ, ◌+◌, ◌≤◌, ◌≡◌, refl, List, [], ◌∷◌, Option,
  some, true, String, String_discrete, length, map, All, arith,
}
use hyperliquid_market_bench.Dict.{get}
use hyperliquid_market_bench.Model.Provider.{
  Provider, foundation_ws, hydromancer_ws, hydromancer_peering_tcp, quick_node_grpc,
  quick_node_peering_tcp, quick_node_vpc,
}
use hyperliquid_market_bench.Config.{BenchmarkConfig, providers, has_provider_comparison}
use hyperliquid_market_bench.Benchmark.{Benchmark, CoinWindow, CommittedCohort, ProviderCounters}
use hyperliquid_market_bench.Outcomes.{OutcomeCounts, no_outcomes, provider_family_total}
use hyperliquid_market_bench.Outcomes.Tally.{Counts, tally, wins, ties_for}
use hyperliquid_market_bench.Outcomes.Winners.{Conserved}
use hyperliquid_market_bench.Outcomes.Reach.{
  rolling_coverage-counts, count_outcomes, is_matched, is_mismatch,
}
use hyperliquid_market_bench.Rank.{Distribution}
use hyperliquid_market_bench.Rank.Summary.{Answers}
use hyperliquid_market_bench.Signals.{StreamSignal}
use hyperliquid_market_bench.Publication.Rows.{CohortHealth, min_ready_samples}
use hyperliquid_market_bench.Publication.Events.{WindowRow, Interval, row_of}

abbrev pub latency_by : Provider → CommittedCohort → ℕ
latency_by p c = c.latency_ms p

abbrev pub commit_delay_of : CommittedCohort → ℕ
commit_delay_of c = c.commit_delay_ms

-- The coin and the provider that a row is about.
abbrev pub key_of : WindowRow → String × Provider
key_of row = (row.coin, row.provider)

module _ (config : BenchmarkConfig) where
  -- The cohorts that a publication reports, where providers are compared.
  abbrev pub reported_by : ℕ → CoinWindow → List CommittedCohort
  reported_by now w =
      if has_provider_comparison config
      then keep (λ c. not c.outcome_reported && leb c.committed_at now) w.cohorts
      else []

  -- What a row says of its coin's window: its samples, the coverage and the percentiles of its own
  -- provider, the delays of its commits and what it lost, and the outcomes of the cohorts that are reported, for each company.
  pub record Agrees (now : ℕ) (w : CoinWindow) (row : WindowRow) : Type 0 where
    pub sample_count : row.sample_count ≡ length w.cohorts
    pub matched : row.coverage.matched ≡ count_outcomes is_matched row.provider w.coverage
    pub mismatch : row.coverage.mismatch ≡ count_outcomes is_mismatch row.provider w.coverage
    pub missing : row.coverage.matched + row.coverage.missing ≡ length w.coverage
    pub summary : Answers (map (latency_by row.provider) w.cohorts) row.summary
    pub commit_delay : Answers (map commit_delay_of w.cohorts) row.commit_delay
    pub losses :
        (row.complete_cohort_count ≡ w.complete_cohorts)
        × (row.state_eviction_count ≡ w.state_evictions)
        × (row.rolling_eviction_count ≡ w.rolling_evictions)
        × (row.coverage_eviction_count ≡ w.coverage_evictions)
    pub complete : row.outcome_complete_cohort_count ≡ length (reported_by now w)
    pub foundation :
        (row.outcome_foundation_strict_fastest_count
          ≡ tally (wins config foundation_ws) (reported_by now w))
        × (row.outcome_foundation_tied_fastest_count
            ≡ tally (ties_for config foundation_ws) (reported_by now w))
    pub hydromancer :
        (row.outcome_hydromancer_strict_fastest_count
          ≡ tally (wins config hydromancer_ws) (reported_by now w)
            + tally (wins config hydromancer_peering_tcp) (reported_by now w))
        × (row.outcome_hydromancer_tied_fastest_count
            ≡ tally (ties_for config hydromancer_ws) (reported_by now w)
              + tally (ties_for config hydromancer_peering_tcp) (reported_by now w))
    pub quicknode :
        (row.outcome_quicknode_strict_fastest_count
          ≡ tally (wins config quick_node_grpc) (reported_by now w)
            + tally (wins config quick_node_peering_tcp) (reported_by now w))
        × (row.outcome_quicknode_tied_fastest_count
            ≡ tally (ties_for config quick_node_grpc) (reported_by now w)
              + tally (ties_for config quick_node_peering_tcp) (reported_by now w))
    pub quicknode_vpc :
        (row.outcome_quicknode_vpc_strict_fastest_count
          ≡ tally (wins config quick_node_vpc) (reported_by now w))
        × (row.outcome_quicknode_vpc_tied_fastest_count
            ≡ tally (ties_for config quick_node_vpc) (reported_by now w))

  -- A row agrees with its coin's window; its outcome columns add up to the complete cohorts of the
  -- interval, and it is not ready with fewer than 1,000 samples.
  pub record Column (now : ℕ) (b : Benchmark) (row : WindowRow) : Type 0 where
    pub window : CoinWindow
    pub found : get String_discrete row.coin b.windows ≡ some window
    pub agrees : Agrees now window row
    pub outcomes :
        row.outcome_foundation_strict_fastest_count + row.outcome_hydromancer_strict_fastest_count
          + row.outcome_quicknode_strict_fastest_count
          + row.outcome_quicknode_vpc_strict_fastest_count + row.outcome_tie_count
        ≡ row.outcome_complete_cohort_count
    pub samples : row.ready ≡ true → min_ready_samples ≤ row.sample_count

  -- The rows of some coins and providers, in their order, each of which agrees with its window.
  abbrev pub Rows : ℕ → Benchmark → List (String × Provider) → List WindowRow → Type 0
  Rows now b keys rows = All (Column now b) rows × (map key_of rows ≡ keys)

  abbrev pub keys_of : String → List Provider → List (String × Provider)
  keys_of coin ps = map (λ p. (coin, p)) ps

  abbrev pub all_keys : List String → List (String × Provider)
  all_keys [] = []
  all_keys (coin ∷ coins) = keys_of coin (providers config) ++ all_keys coins

  pub map_append_keys :
      (xs ys : List WindowRow) → map key_of (xs ++ ys) ≡ map key_of xs ++ map key_of ys
  map_append_keys [] ys = refl
  map_append_keys (x ∷ xs) ys = ap (λ l. key_of x ∷ l) (map_append_keys xs ys)

  pub row_of-Column :
      (now : ℕ) (b : Benchmark) (interval : Interval) (coin : String) (w : CoinWindow)
      (o : OutcomeCounts) (health : CohortHealth config) (delay : Option Distribution) (pending : ℕ)
      (p : Provider) (signal : StreamSignal) (counters : ProviderCounters)
      (summary : Option Distribution)
      → get String_discrete coin b.windows ≡ some w
      → Counts config (reported_by now w) no_outcomes o
      → Answers (map (latency_by p) w.cohorts) summary
      → Answers (map commit_delay_of w.cohorts) delay
      → Column now b
          (row_of config interval coin w o health delay pending p signal counters summary)
  unfolding row_of provider_family_total
  row_of-Column now b interval coin w o health delay pending p signal counters summary found c a d =
      let covered = rolling_coverage-counts w.coverage p in
      record {
        window = w;
        found = found;
        agrees = record {
          sample_count = refl;
          matched = covered.0;
          mismatch = covered.1;
          missing = covered.2;
          summary = a;
          commit_delay = d;
          losses = (refl, refl, refl, refl);
          complete = omega (arith, c.complete);
          foundation = (omega (arith, c.strict foundation_ws), omega (arith, c.tied foundation_ws));
          hydromancer = (
            omega (arith, c.strict hydromancer_ws, c.strict hydromancer_peering_tcp),
            omega (arith, c.tied hydromancer_ws, c.tied hydromancer_peering_tcp),
          );
          quicknode = (
            omega (arith, c.strict quick_node_grpc, c.strict quick_node_peering_tcp),
            omega (arith, c.tied quick_node_grpc, c.tied quick_node_peering_tcp),
          );
          quicknode_vpc =
              (omega (arith, c.strict quick_node_vpc), omega (arith, c.tied quick_node_vpc));
        };
        outcomes =
            (let conserved : Conserved o = omega (arith, c.complete, c.shared) in
              omega (arith, conserved));
        samples = λ r. ground arith;
      }
