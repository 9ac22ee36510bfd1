-- ===== src/Tests/Reports.antt =====
-- The results on outcomes and publications, applied to a window with a win and a tie.
use hyperliquid_market_bench.Prelude.{
  ℕ, ◌≡◌, ◌+◌, ◌≤◌, ◌<◌, ◌*◌, ◌/◌, List, [], ◌∷◌, some, false, Ensures, keep, length, arith,
}
use hyperliquid_market_bench.Model.Provider.{Row, foundation_ws, hydromancer_ws, quick_node_grpc}
use hyperliquid_market_bench.Config.{providers}
use hyperliquid_market_bench.Benchmark.{
  Benchmark, CommittedCohort, CoinWindow, CoverageCohort, matched, mismatch, empty_window,
  as_millis,
}
use hyperliquid_market_bench.Outcomes.{
  no_outcomes, is_unreported, unreported_outcomes, mark_outcomes_reported, rolling_coverage,
}
use hyperliquid_market_bench.Outcomes.Tally.{Counts, wins, unreported_outcomes-Counts}
use hyperliquid_market_bench.Outcomes.Intervals.{due, due-mark_outcomes_reported}
use hyperliquid_market_bench.Outcomes.Reach.{
  count_outcomes, is_matched, is_mismatch, rolling_coverage-counts,
}
use hyperliquid_market_bench.Publication.{
  aligned_window_end_ms, commit_prepared_publication, reject_prepared_publication,
}
use hyperliquid_market_bench.Publication.Progress.{
  Commits, Stays, commit_prepared_publication-Commits, commit_prepared_publication-once,
  aligned_window_end_ms-multiple,
}
use hyperliquid_market_bench.Tests.Scenario.{program, bbo_config, at_ms, start}

abbrev latency_of : ℕ → ℕ → ℕ → Row ℕ
latency_of a b c foundation_ws = a
latency_of a b c hydromancer_ws = b
latency_of a b c quick_node_grpc = c
latency_of a b c _ = 0

abbrev cohort_at : ℕ → Row ℕ → CommittedCohort
cohort_at ms row = record {
  committed_at = at_ms ms;
  event_ms = 1_000;
  latency_ms = row;
  commit_delay_ms = 5;
  outcome_reported = false;
}

-- The second provider wins, and then the first two tie.
abbrev two_cohorts : CoinWindow
two_cohorts = record empty_window {
  cohorts = cohort_at 100 (latency_of 9 4 7) ∷ cohort_at 200 (latency_of 6 6 8) ∷ [];
}

unreported_outcomes-Counts_example :
    Ensures
      (Counts bbo_config (keep (is_unreported (at_ms 300)) two_cohorts.cohorts) no_outcomes)
      (unreported_outcomes two_cohorts (at_ms 300) (providers bbo_config))
unreported_outcomes-Counts_example = unreported_outcomes-Counts bbo_config two_cohorts (at_ms 300)

due-mark_outcomes_reported_example :
    (due
        (wins bbo_config hydromancer_ws)
        (at_ms 150)
        (mark_outcomes_reported (at_ms 150) two_cohorts)
      ≡ 0)
    × (due (wins bbo_config hydromancer_ws) (at_ms 300) two_cohorts
        ≡ due (wins bbo_config hydromancer_ws) (at_ms 150) two_cohorts
          + due
              (wins bbo_config hydromancer_ws)
              (at_ms 300)
              (mark_outcomes_reported (at_ms 150) two_cohorts))
due-mark_outcomes_reported_example =
    due-mark_outcomes_reported (wins bbo_config hydromancer_ws) (at_ms 150) (at_ms 300) two_cohorts
      (omega arith)

-- A publication is prepared for the window.
abbrev prepared : Benchmark
unfolding program
prepared = record start {
  windows = ("BTC", two_cohorts) ∷ [];
  prepared_outcome_interval = some (record { end = at_ms 300; end_wall_ms = 30_000 });
}

commit_prepared_publication-Commits_example :
    Commits prepared (commit_prepared_publication prepared)
commit_prepared_publication-Commits_example = commit_prepared_publication-Commits prepared

commit_prepared_publication-once_example :
    ((commit_prepared_publication (commit_prepared_publication prepared).0).1 ≡ false)
    × ((commit_prepared_publication (reject_prepared_publication prepared)).1 ≡ false)
    × Stays prepared (reject_prepared_publication prepared)
commit_prepared_publication-once_example = commit_prepared_publication-once prepared

aligned_window_end_ms-multiple_example :
    (e : ℕ) × (aligned_window_end_ms 61_234 (at_ms 30_000) ≡ some e)
    × (e ≡ 61_234 / as_millis (at_ms 30_000) * as_millis (at_ms 30_000))
    × (e ≤ 61_234)
    × (61_234 < e + as_millis (at_ms 30_000))
aligned_window_end_ms-multiple_example =
    aligned_window_end_ms-multiple 61_234 (at_ms 30_000) (omega arith)

abbrev covered : List CoverageCohort
covered =
    record { settled_at = 1; outcomes = λ _. matched }
    ∷ record { settled_at = 2; outcomes = λ _. mismatch }
    ∷ []

rolling_coverage-counts_example :
    ((rolling_coverage covered foundation_ws).matched
      ≡ count_outcomes is_matched foundation_ws covered)
    × ((rolling_coverage covered foundation_ws).mismatch
        ≡ count_outcomes is_mismatch foundation_ws covered)
    × ((rolling_coverage covered foundation_ws).matched
          + (rolling_coverage covered foundation_ws).missing
        ≡ length covered)
    × ((rolling_coverage covered foundation_ws).mismatch
        ≤ (rolling_coverage covered foundation_ws).missing)
rolling_coverage-counts_example = rolling_coverage-counts covered foundation_ws
