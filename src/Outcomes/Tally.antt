-- ===== src/Outcomes/Tally.antt =====
-- src/benchmark.rs: what the counters of `unreported_outcomes` count.
use hyperliquid_market_bench.Prelude.{
  ℕ, ◌+◌, ◌≡◌, List, [], ◌∷◌, Bool, ◌>>=◌, length, arith, if◌then◌else◌, Ensures, Ensures->>=,
  Ensures-mono, keep, for_each, Option-cases, inl, inr,
}
use hyperliquid_market_bench.Model.Provider.{Provider}
use hyperliquid_market_bench.Config.{BenchmarkConfig, providers}
use hyperliquid_market_bench.Benchmark.{CommittedCohort, CoinWindow}
use hyperliquid_market_bench.Outcomes.{
  OutcomeCounts, no_outcomes, fastest_latency, fastest_providers, count_cohort, is_unreported,
  unreported_outcomes,
}
use hyperliquid_market_bench.Outcomes.Winners.{
  is_strict_winner, is_tied_winner, strict_total, add_outcome-total, providers-fastest,
  strict_fastest-add_outcome, tied_fastest-add_outcome,
}

-- How many of the items pass the test.
abbrev pub tally : (CommittedCohort → Bool) → List CommittedCohort → ℕ
tally test [] = 0
tally test (c ∷ cs) = (if test c then 1 else 0) + tally test cs

module _ (config : BenchmarkConfig) where
  abbrev pub wins : Provider → CommittedCohort → Bool
  wins p c = is_strict_winner c.latency_ms (providers config) p

  abbrev pub ties_for : Provider → CommittedCohort → Bool
  ties_for p c = is_tied_winner c.latency_ms (providers config) p

  -- The counts after the cohorts: each is complete; it has one strict winner, or it is one tie.
  pub record Counts (cohorts : List CommittedCohort) (before after : OutcomeCounts) : Type 0 where
    pub complete : after.complete ≡ before.complete + length cohorts
    pub shared :
        strict_total after + after.ties ≡ strict_total before + before.ties + length cohorts
    pub strict :
        (p : Provider) → after.strict_fastest p ≡ before.strict_fastest p + tally (wins p) cohorts
    pub tied :
        (p : Provider) → after.tied_fastest p ≡ before.tied_fastest p + tally (ties_for p) cohorts

  count_cohort-Counts :
      (c : CommittedCohort) (o : OutcomeCounts)
      → Ensures (Counts (c ∷ []) o) (count_cohort (providers config) c o)
  unfolding count_cohort
  count_cohort-Counts c o = elim (Option-cases (fastest_latency c.latency_ms (providers config))) [
    | inl e ↦ absurd (ground (arith, providers-fastest config c.latency_ms))
    | inr (m, e) ↦
        let counted = record o { complete = o.complete + 1 } in
        let total =
          add_outcome-total (fastest_providers c.latency_ms m (providers config)) counted in
        rw (e, ◌>>=◌)
          (record {
            complete = total.1;
            shared = total.0;
            strict =
                λ p. omega (arith, strict_fastest-add_outcome config c.latency_ms m p counted e);
            tied = λ p. omega (arith, tied_fastest-add_outcome config c.latency_ms m p counted e);
          })
  ]

  Counts-trans :
      (c : CommittedCohort) (cs : List CommittedCohort) (a b d : OutcomeCounts)
      → Counts (c ∷ []) a b
      → Counts cs b d
      → Counts (c ∷ cs) a d
  Counts-trans c cs a b d x y = record {
    complete = omega (arith, x.complete, y.complete);
    shared = omega (arith, x.shared, y.shared);
    strict = λ p. omega (arith, x.strict p, y.strict p);
    tied = λ p. omega (arith, x.tied p, y.tied p);
  }

  count_all-Counts :
      (cs : List CommittedCohort) (o : OutcomeCounts)
      → Ensures (Counts cs o) (for_each (count_cohort (providers config)) cs o)
  unfolding for_each
  count_all-Counts [] o = record {
    complete = omega arith;
    shared = omega arith;
    strict = λ p. omega arith;
    tied = λ p. omega arith;
  }
  count_all-Counts (c ∷ cs) o =
      Ensures->>= (Counts (c ∷ []) o) (Counts (c ∷ cs) o) _ _ (count_cohort-Counts c o) (λ b x.
        Ensures-mono (Counts cs b) (Counts (c ∷ cs) o) _ (count_all-Counts cs b)
          (λ d y. Counts-trans c cs o b d x y))

  -- Counting the unreported outcomes of a window does not panic. Every cohort committed up to
  -- `now` and not reported yet is counted once as complete, and once as a strict win or as a tie:
  -- a provider's strict wins are the cohorts in which its latency is below that of every other
  -- provider, and its ties those in which it shares the lowest latency.
  pub unreported_outcomes-Counts :
      (w : CoinWindow) (now : ℕ)
      → Ensures
          (Counts (keep (is_unreported now) w.cohorts) no_outcomes)
          (unreported_outcomes w now (providers config))
  unfolding unreported_outcomes
  unreported_outcomes-Counts w now =
      count_all-Counts (keep (is_unreported now) w.cohorts) no_outcomes
