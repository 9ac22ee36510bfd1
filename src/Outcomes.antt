-- ===== src/Outcomes.antt =====
-- src/benchmark.rs: `unreported_outcomes`, `mark_outcomes_reported`, `rolling_coverage` and
-- `provider_family_total`. A count here is at most the number of cohorts of a window, which is a
-- length in memory, so that it does not wrap.
pub mod Marking
pub mod Winners
pub mod Reach
pub mod Tally
pub mod Intervals
use hyperliquid_market_bench.Prelude.{
  ℕ, ◌+◌, List, [], ◌∷◌, Option, none, some, Bool, true, not, ◌&&◌, if◌then◌else◌, leb, ◌==◌, min,
  map, keep, ◌>>=◌, for_each,
}
use hyperliquid_market_bench.Model.Provider.{
  Provider, Row, set, hydromancer_ws, quick_node_grpc, quick_node_peering_tcp,
  hydromancer_peering_tcp,
}
use hyperliquid_market_bench.Benchmark.{
  CommittedCohort, CoverageCohort, CoverageOutcome, CoinWindow, matched, missing, mismatch,
}

pub record OutcomeCounts : Type 0 where
  pub complete : ℕ
  pub strict_fastest : Row ℕ
  pub tied_fastest : Row ℕ
  pub ties : ℕ

abbrev pub no_outcomes : OutcomeCounts
no_outcomes = record { complete = 0; strict_fastest = λ _. 0; tied_fastest = λ _. 0; ties = 0 }

-- `Iterator::min` of the providers' latencies.
unfoldable pub fastest_latency : Row ℕ → List Provider → Option ℕ
fastest_latency latency_ms [] = none
fastest_latency latency_ms (p ∷ ps) = elim (fastest_latency latency_ms ps) [
  | none ↦ some (latency_ms p)
  | some least ↦ some (min (latency_ms p) least)
]

abbrev pub fastest_providers : Row ℕ → ℕ → List Provider → List Provider
fastest_providers latency_ms fastest = keep (λ p. latency_ms p == fastest)

abbrev pub bump : Provider → Row ℕ → Row ℕ
bump p row = set row p (row p + 1)

-- `for provider in fastest_providers { tied_fastest[provider.index()] += 1 }`.
unfoldable pub bump_all : List Provider → Row ℕ → Row ℕ
bump_all [] row = row
bump_all (p ∷ ps) row = bump_all ps (bump p row)

unfoldable pub add_outcome : List Provider → OutcomeCounts → OutcomeCounts
add_outcome (p ∷ []) counts = record counts { strict_fastest = bump p counts.strict_fastest }
add_outcome ps counts = record counts {
  ties = counts.ties + 1;
  tied_fastest = bump_all ps counts.tied_fastest;
}

-- One round of the loop; `expect("complete cohort")` fails where there is no provider.
unfoldable pub count_cohort : List Provider → CommittedCohort → OutcomeCounts → Option OutcomeCounts
count_cohort providers cohort counts = do
  fastest ← fastest_latency cohort.latency_ms providers
  some (
      add_outcome (fastest_providers cohort.latency_ms fastest providers)
        (record counts { complete = counts.complete + 1 }))

abbrev pub is_unreported : ℕ → CommittedCohort → Bool
is_unreported now cohort = not cohort.outcome_reported && leb cohort.committed_at now

unfoldable pub unreported_outcomes : CoinWindow → ℕ → List Provider → Option OutcomeCounts
unreported_outcomes window now providers =
    for_each (count_cohort providers) (keep (is_unreported now) window.cohorts) no_outcomes

abbrev pub mark_cohort : ℕ → CommittedCohort → CommittedCohort
mark_cohort through cohort =
    if is_unreported through cohort then record cohort { outcome_reported = true } else cohort

unfoldable pub mark_outcomes_reported : ℕ → CoinWindow → CoinWindow
mark_outcomes_reported through window = record window {
  cohorts = map (mark_cohort through) window.cohorts;
}

abbrev pub quicknode_family : Provider × Provider
quicknode_family = (quick_node_grpc, quick_node_peering_tcp)

abbrev pub hydromancer_family : Provider × Provider
hydromancer_family = (hydromancer_ws, hydromancer_peering_tcp)

unfoldable pub provider_family_total : Row ℕ → Provider × Provider → ℕ
provider_family_total counts family = counts family.0 + counts family.1

pub record Coverage : Type 0 where
  pub matched : ℕ
  pub missing : ℕ
  pub mismatch : ℕ

unfoldable pub cover : CoverageOutcome → Coverage → Coverage
cover matched c = record c { matched = c.matched + 1 }
cover missing c = record c { missing = c.missing + 1 }
cover mismatch c = record c { missing = c.missing + 1; mismatch = c.mismatch + 1 }

unfoldable pub cover_all : Provider → List CoverageCohort → Coverage → Coverage
unfolding cover
cover_all provider [] c = c
cover_all provider (cohort ∷ cohorts) c =
    cover_all provider cohorts (cover (cohort.outcomes provider) c)

unfoldable pub rolling_coverage : List CoverageCohort → Provider → Coverage
unfolding cover_all
rolling_coverage coverage provider =
    cover_all provider coverage (record { matched = 0; missing = 0; mismatch = 0 })
