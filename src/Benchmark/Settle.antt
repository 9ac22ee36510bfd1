-- ===== src/Benchmark/Settle.antt =====
-- src/benchmark.rs: `settle` and `finalize_candidate`.
use hyperliquid_market_bench.Prelude.{
  ℕ, ◌-◌, [], ◌∷◌, ◌++◌, Option, none, some, Bool, false, String, if◌then◌else◌, leb, any, all,
  ◌>>=◌, for_each,
}
use hyperliquid_market_bench.Dict.{Map, get, remove}
use hyperliquid_market_bench.Model.Provider.{Provider, Row, set}
use hyperliquid_market_bench.Model.Keys.{ContentKey, EventKey, BaseKey, BaseKey_discrete}
use hyperliquid_market_bench.Config.{
  BenchmarkConfig, providers, reference_provider, canonical_by_any_arrival,
}
use hyperliquid_market_bench.Benchmark.{
  Benchmark, PendingCandidate, PendingBase, missing, with_counters, with_window, as_millis,
}
use hyperliquid_market_bench.Benchmark.Count
use hyperliquid_market_bench.Benchmark.Windows.{push_coverage, push_cohort, evict_state}
use hyperliquid_market_bench.Benchmark.Arrivals.{
  arrived, received_by, latest, orphan_provider, tally_provider, latencies,
}
use hyperliquid_market_bench.Benchmark.Tombstones.{insert_settled, insert_settled_base}

module _ (config : BenchmarkConfig) where
  -- A provider's arrival after the cohort's deadline.
  abbrev pub arrived_after_deadline : ℕ → PendingCandidate → Provider → Bool
  arrived_after_deadline first_observed candidate p = elim (candidate.arrivals p) [
    | none ↦ false
    | some arrival ↦ leb config.cohort_timeout (arrival.received - first_observed)
  ]

  unfoldable pub drop_late_provider :
      String → ℕ → Provider → PendingCandidate × Benchmark → Option (PendingCandidate × Benchmark)
  drop_late_provider coin first_observed p (candidate, b) =
      if arrived_after_deadline first_observed candidate p
      then (do
        b ← with_counters p coin Count.late b
        some (record candidate { arrivals = set candidate.arrivals p none }, b))
      else some (candidate, b)

  unfoldable pub drop_late_candidate :
      String
      → ℕ
      → ContentKey × PendingCandidate
      → Map ContentKey PendingCandidate × Benchmark
      → Option (Map ContentKey PendingCandidate × Benchmark)
  drop_late_candidate coin first_observed (content, candidate) (done, b) = do
    (candidate, b) ←
        for_each (drop_late_provider coin first_observed) (providers config) (candidate, b)
    some (done ++ (content, candidate) ∷ [], b)

  -- `reference_content` holds the contents of the candidates that pass this test. The contents of
  -- a base are the keys of a map, so that a content is in the set if its candidate passes.
  unfoldable pub is_canonical : PendingCandidate → Bool
  is_canonical candidate =
      if canonical_by_any_arrival config
      then any (arrived candidate) (providers config)
      else arrived candidate (reference_provider config)

  unfoldable pub orphan_candidate :
      String → ContentKey × PendingCandidate → Row Bool × Benchmark → Option (Row Bool × Benchmark)
  orphan_candidate coin (content, candidate) s =
      if is_canonical candidate
      then some s
      else for_each (orphan_provider coin candidate) (providers config) s

  unfoldable pub orphan_loop :
      String → Map ContentKey PendingCandidate → Benchmark → Option (Row Bool × Benchmark)
  orphan_loop coin candidates b = for_each (orphan_candidate coin) candidates (λ _. false, b)

  unfoldable pub is_complete : PendingCandidate → Bool
  is_complete candidate = all (arrived candidate) (providers config)

  unfoldable pub commit_cohort : EventKey → PendingCandidate → ℕ → ℕ → Benchmark → Option Benchmark
  commit_cohort key candidate now settled_at b = do
    latency_ms ← latencies key.event_ms candidate (providers config)
    with_window key.coin
        (push_cohort config.max_rolling_cohorts now (record {
          committed_at = settled_at;
          event_ms = key.event_ms;
          latency_ms = latency_ms;
          commit_delay_ms = as_millis (settled_at - candidate.first_observed);
          outcome_reported = false;
        }))
        b

  unfoldable pub finalize_candidate :
      EventKey → PendingCandidate → ℕ → Row Bool → Benchmark → Option Benchmark
  finalize_candidate key candidate now noncanonical_seen b = do
    let complete = is_complete candidate
    settled_at ← if complete then latest (received_by candidate (providers config)) else some now
    (outcomes, matched_mask, b) ←
        for_each (tally_provider key.coin candidate noncanonical_seen) (providers config)
          (λ _. missing, 0, b)
    b ←
        with_window key.coin
          (push_coverage config.max_rolling_cohorts now
            (record { settled_at = settled_at; outcomes = outcomes }))
          b
    b ← if complete then commit_cohort key candidate now settled_at b else some b
    insert_settled config key (record { settled_at = settled_at; matched_mask = matched_mask }) b

  unfoldable pub finalize_canonical :
      BaseKey → ℕ → Row Bool → ContentKey × PendingCandidate → Benchmark → Option Benchmark
  finalize_canonical key now noncanonical_seen (content, candidate) b =
      if is_canonical candidate
      then finalize_candidate
          (record { coin = key.coin; event_ms = key.event_ms; content = content }) candidate now
          noncanonical_seen b
      else some b

  unfoldable pub settle_pending : BaseKey → PendingBase → ℕ → Bool → Benchmark → Option Benchmark
  settle_pending key pending now evicted b = do
    b ←
        insert_settled_base config key now
          (record b { pending = remove BaseKey_discrete key b.pending })
    b ← if evicted then with_window key.coin (evict_state now) b else some b
    (candidates, b) ←
        for_each (drop_late_candidate key.coin pending.first_observed) pending.candidates ([], b)
    (noncanonical_seen, b) ← orphan_loop key.coin candidates b
    for_each (finalize_canonical key now noncanonical_seen) candidates b

  unfoldable pub settle : BaseKey → ℕ → Bool → Benchmark → Option Benchmark
  settle key now evicted b = elim (get BaseKey_discrete key b.pending) [
    | none ↦ some b
    | some pending ↦ settle_pending key pending now evicted b
  ]
