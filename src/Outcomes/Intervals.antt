-- ===== src/Outcomes/Intervals.antt =====
-- src/benchmark.rs: an outcome is counted in exactly one published interval.
use hyperliquid_market_bench.Prelude.{ℕ, ◌+◌, ◌≤◌, ◌≡◌, refl, List, [], ◌∷◌, Bool, map, arith, keep}
use hyperliquid_market_bench.Benchmark.{CommittedCohort, CoinWindow}
use hyperliquid_market_bench.Outcomes.{is_unreported, mark_cohort, mark_outcomes_reported}
use hyperliquid_market_bench.Outcomes.Tally.{tally}

-- The cohorts of a window that are unreported up to an instant and pass a test.
abbrev pub due : (CommittedCohort → Bool) → ℕ → CoinWindow → ℕ
due test now w = tally test (keep (is_unreported now) w.cohorts)

due_split :
    (test : CommittedCohort → Bool) (through now : ℕ) (cs : List CommittedCohort)
    → through ≤ now
    → tally test (keep (is_unreported now) cs)
      ≡ tally test (keep (is_unreported through) cs)
        + tally test (keep (is_unreported now) (map (mark_cohort through) cs))
due_split test through now [] h = refl
due_split test through now (c ∷ cs) h = ground (arith, due_split test through now cs h)

due_marked :
    (test : CommittedCohort → Bool) (through : ℕ) (cs : List CommittedCohort)
    → tally test (keep (is_unreported through) (map (mark_cohort through) cs)) ≡ 0
due_marked test through [] = refl
due_marked test through (c ∷ cs) = ground (arith, due_marked test through cs)

-- Cohorts reported through an instant are not due again, and those due at a later instant are the
-- ones that were due through the first and the ones that are due after marking: no outcome of a
-- kind is counted in two intervals, and none is lost between them.
pub due-mark_outcomes_reported :
    (test : CommittedCohort → Bool) (through now : ℕ) (w : CoinWindow)
    → through ≤ now
    → (due test through (mark_outcomes_reported through w) ≡ 0)
      × (due test now w ≡ due test through w + due test now (mark_outcomes_reported through w))
unfolding mark_outcomes_reported
due-mark_outcomes_reported test through now w h =
    (due_marked test through w.cohorts, due_split test through now w.cohorts h)
