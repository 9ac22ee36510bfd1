-- ===== src/Benchmark/Rounds.antt =====
-- src/benchmark.rs, `settle`: the loops over the candidates and providers of a settled base.
use hyperliquid_market_bench.Prelude.{
  ℕ, inl, inr, Bool, String, Ensures, Ensures->>=, for_each, for_each-Ensures, Bool-cases,
}
use hyperliquid_market_bench.Dict.{Map}
use hyperliquid_market_bench.Model.Provider.{Provider, Row}
use hyperliquid_market_bench.Model.Keys.{ContentKey}
use hyperliquid_market_bench.Config.{BenchmarkConfig, providers}
use hyperliquid_market_bench.Benchmark.{Benchmark, PendingCandidate, CoverageOutcome}
use hyperliquid_market_bench.Benchmark.Count
use hyperliquid_market_bench.Benchmark.Arrivals.{arrived, orphan_provider, tally_provider}
use hyperliquid_market_bench.Benchmark.Settle.{
  arrived_after_deadline, drop_late_provider, drop_late_candidate, is_canonical, orphan_candidate,
}
use hyperliquid_market_bench.Benchmark.Invariant.{IsCoin}
use hyperliquid_market_bench.Benchmark.Keeps.{Keeps, with_counters-Keeps}

module _ (config : BenchmarkConfig) (coin : String) (known : IsCoin config coin)
    (b0 : Benchmark) where
  -- The state of a loop that carries a value beside the benchmark.
  abbrev pub With : {A : Type 0} → A × Benchmark → Type 0
  With s = Keeps config b0 s.1

  pub drop_late_provider-Keeps :
      (first : ℕ) (p : Provider) (s : PendingCandidate × Benchmark)
      → With s
      → Ensures With (drop_late_provider config coin first p s)
  unfolding drop_late_provider
  drop_late_provider-Keeps first p (candidate, b) k =
      elim (Bool-cases (arrived_after_deadline config first candidate p)) [
        | inl e ↦ rw e (
            Ensures->>= (Keeps config b0) With _ _
              (with_counters-Keeps config p coin Count.late b0 b known k) (λ c l. l))
        | inr e ↦ rw e k
      ]

  pub drop_late_candidate-Keeps :
      (first : ℕ) (e : ContentKey × PendingCandidate)
      (s : Map ContentKey PendingCandidate × Benchmark)
      → With s
      → Ensures With (drop_late_candidate config coin first e s)
  unfolding drop_late_candidate
  drop_late_candidate-Keeps first (content, candidate) (done, b) k =
      Ensures->>= (With {A = PendingCandidate}) (With {A = Map ContentKey PendingCandidate})
        (for_each (drop_late_provider config coin first) (providers config) (candidate, b)) _
        (for_each-Ensures With (drop_late_provider config coin first)
          (drop_late_provider-Keeps first) (providers config) (candidate, b) k)
        (λ s l. l)

  pub orphan_provider-Keeps :
      (candidate : PendingCandidate) (p : Provider) (s : Row Bool × Benchmark)
      → With s
      → Ensures With (orphan_provider coin candidate p s)
  unfolding orphan_provider
  orphan_provider-Keeps candidate p (seen, b) k = elim (Bool-cases (arrived candidate p)) [
    | inl e ↦ rw e (
        Ensures->>= (Keeps config b0) With _ _
          (with_counters-Keeps config p coin Count.orphaned b0 b known k) (λ c l. l))
    | inr e ↦ rw e k
  ]

  pub orphan_candidate-Keeps :
      (e : ContentKey × PendingCandidate) (s : Row Bool × Benchmark)
      → With s
      → Ensures With (orphan_candidate config coin e s)
  unfolding orphan_candidate
  orphan_candidate-Keeps (content, candidate) s k =
      elim (Bool-cases (is_canonical config candidate)) [
        | inl e ↦ rw e k
        | inr e ↦ rw e (
            for_each-Ensures With (orphan_provider coin candidate) (orphan_provider-Keeps candidate)
              (providers config) s k)
      ]

  abbrev pub Tally : Row CoverageOutcome × ℕ × Benchmark → Type 0
  Tally s = Keeps config b0 s.2

  pub tally_provider-Keeps :
      (candidate : PendingCandidate) (seen : Row Bool) (p : Provider)
      (s : Row CoverageOutcome × ℕ × Benchmark)
      → Tally s
      → Ensures Tally (tally_provider coin candidate seen p s)
  unfolding tally_provider
  tally_provider-Keeps candidate seen p (outcomes, mask, b) k =
      let count = λ (f : _). with_counters-Keeps config p coin f b0 b known k in
      elim (Bool-cases (arrived candidate p)) [
        | inl e ↦ rw e (Ensures->>= (Keeps config b0) Tally _ _ (count Count.matched) (λ c l. l))
        | inr e ↦ rw e (elim (Bool-cases (seen p)) [
          | inl q ↦ rw q (Ensures->>= (Keeps config b0) Tally _ _ (count Count.mismatch) (λ c l. l))
          | inr q ↦ rw q (Ensures->>= (Keeps config b0) Tally _ _ (count Count.missing) (λ c l. l))
        ])
      ]
