-- ===== src/Outcomes/Reach.antt =====
-- src/benchmark.rs: `rolling_coverage` counts each cohort of the window once.
use hyperliquid_market_bench.Prelude.{ℕ, ◌+◌, ◌≤◌, ◌≡◌, List, [], ◌∷◌, length, arith}
use hyperliquid_market_bench.Model.Provider.{Provider}
use hyperliquid_market_bench.Benchmark.{CoverageCohort, CoverageOutcome, matched, missing, mismatch}
use hyperliquid_market_bench.Outcomes.{Coverage, cover, cover_all, rolling_coverage}

-- How often a provider has an outcome.
abbrev pub is_matched : CoverageOutcome → ℕ
is_matched matched = 1
is_matched _ = 0

abbrev pub is_mismatch : CoverageOutcome → ℕ
is_mismatch mismatch = 1
is_mismatch _ = 0

abbrev pub count_outcomes : (CoverageOutcome → ℕ) → Provider → List CoverageCohort → ℕ
count_outcomes kind p [] = 0
count_outcomes kind p (c ∷ cs) = kind (c.outcomes p) + count_outcomes kind p cs

cover-counts :
    (o : CoverageOutcome) (c : Coverage)
    → ((cover o c).matched ≡ c.matched + is_matched o)
      × ((cover o c).mismatch ≡ c.mismatch + is_mismatch o)
      × ((cover o c).matched + (cover o c).missing ≡ c.matched + c.missing + 1)
unfolding cover
cover-counts matched c = omega arith
cover-counts missing c = omega arith
cover-counts mismatch c = omega arith

cover_all-counts :
    (p : Provider) (cs : List CoverageCohort) (c : Coverage)
    → ((cover_all p cs c).matched ≡ c.matched + count_outcomes is_matched p cs)
      × ((cover_all p cs c).mismatch ≡ c.mismatch + count_outcomes is_mismatch p cs)
      × ((cover_all p cs c).matched + (cover_all p cs c).missing
          ≡ c.matched + c.missing + length cs)
unfolding cover_all
cover_all-counts p [] c = omega arith
cover_all-counts p (d ∷ ds) c =
    omega (arith, cover-counts (d.outcomes p) c, cover_all-counts p ds (cover (d.outcomes p) c))

mismatch_le :
    (p : Provider) (cs : List CoverageCohort)
    → count_outcomes is_matched p cs + count_outcomes is_mismatch p cs ≤ length cs
mismatch_le p [] = omega arith
mismatch_le p (c ∷ cs) = ground (arith, mismatch_le p cs)

-- The coverage of a provider: each cohort of the window is matched or missing, and a mismatch is a
-- cohort that is missing too.
pub rolling_coverage-counts :
    (cs : List CoverageCohort) (p : Provider)
    → ((rolling_coverage cs p).matched ≡ count_outcomes is_matched p cs)
      × ((rolling_coverage cs p).mismatch ≡ count_outcomes is_mismatch p cs)
      × ((rolling_coverage cs p).matched + (rolling_coverage cs p).missing ≡ length cs)
      × ((rolling_coverage cs p).mismatch ≤ (rolling_coverage cs p).missing)
unfolding rolling_coverage
rolling_coverage-counts cs p =
    let counts = cover_all-counts p cs (record { matched = 0; missing = 0; mismatch = 0 }) in
    omega (arith, counts, mismatch_le p cs)
