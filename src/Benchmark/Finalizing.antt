-- ===== src/Benchmark/Finalizing.antt =====
-- src/benchmark.rs: `finalize_candidate` never panics on a registered coin, and keeps the invariant.
use hyperliquid_market_bench.Prelude.{
  ℕ, ◌≡◌, inl, inr, some, Bool, true, Ensures, Ensures->>=, for_each-Ensures, Option-cases,
  Bool-cases, arith, ◌>>=◌, if◌then◌else◌,
}
use hyperliquid_market_bench.Model.Provider.{Row}
use hyperliquid_market_bench.Model.Keys.{ContentKey, EventKey, BaseKey}
use hyperliquid_market_bench.Config.{BenchmarkConfig, providers}
use hyperliquid_market_bench.Benchmark.{Benchmark, PendingCandidate, missing}
use hyperliquid_market_bench.Benchmark.Rings.{push_coverage-IsRing, push_cohort-IsRing}
use hyperliquid_market_bench.Benchmark.Arrivals.{received_by, latest, tally_provider, latencies}
use hyperliquid_market_bench.Benchmark.Settle.{
  is_canonical, is_complete, commit_cohort, finalize_candidate, finalize_canonical,
}
use hyperliquid_market_bench.Benchmark.Invariant.{IsCoin}
use hyperliquid_market_bench.Benchmark.Keeps.{Keeps, with_window-Keeps}
use hyperliquid_market_bench.Benchmark.Settled.{insert_settled-Keeps}
use hyperliquid_market_bench.Benchmark.Complete.{
  latest-received_by, providers-length, latencies_total,
}
use hyperliquid_market_bench.Benchmark.Rounds.{Tally, tally_provider-Keeps}

module _ (config : BenchmarkConfig) (b0 : Benchmark) where
  commit_cohort-Keeps :
      (key : EventKey) (candidate : PendingCandidate) (now settled_at : ℕ) (b : Benchmark)
      → IsCoin config key.coin
      → is_complete config candidate ≡ true
      → Keeps config b0 b
      → Ensures (Keeps config b0) (commit_cohort config key candidate now settled_at b)
  unfolding commit_cohort is_complete
  commit_cohort-Keeps key candidate now settled_at b known complete k =
      elim (Option-cases (latencies key.event_ms candidate (providers config))) [
        | inl n ↦
            absurd
              (ground (arith, latencies_total key.event_ms candidate (providers config) complete))
        | inr (row, e) ↦
            rw (e, ◌>>=◌)
              (with_window-Keeps config key.coin _ b0 b known
                (λ w r. push_cohort-IsRing config.max_rolling_cohorts now w r _) k)
      ]

  -- The instant at which a candidate counts as settled is there.
  settled_at_total :
      (candidate : PendingCandidate) (now : ℕ)
      → Ensures
          (λ _. Unit {0})
          (if is_complete config candidate
            then latest (received_by candidate (providers config))
            else some now)
  unfolding is_complete
  settled_at_total candidate now = elim (Bool-cases (is_complete config candidate)) [
    | inl e ↦ rw e (elim (Option-cases (latest (received_by candidate (providers config)))) [
      | inl n ↦ absurd (
          ground
            (arith, latest-received_by candidate (providers config) (providers-length config) e))
      | inr (t, q) ↦ rw q tt
    ])
    | inr e ↦ rw e tt
  ]

  pub finalize_candidate-Keeps :
      (key : EventKey) (candidate : PendingCandidate) (now : ℕ) (seen : Row Bool) (b : Benchmark)
      → IsCoin config key.coin
      → Keeps config b0 b
      → Ensures (Keeps config b0) (finalize_candidate config key candidate now seen b)
  unfolding finalize_candidate
  finalize_candidate-Keeps key candidate now seen b known k =
      let K = Keeps config b0 in
      Ensures->>= (λ _. Unit {0}) K _ _ (settled_at_total candidate now)
        λ at _.
          Ensures->>= (Tally config key.coin known b0) K _ _
            (for_each-Ensures (Tally config key.coin known b0)
              (tally_provider key.coin candidate seen)
              (tally_provider-Keeps config key.coin known b0 candidate seen) (providers config)
              (λ _. missing, 0, b) k)
            λ s ks.
              Ensures->>= K K _ _
                (with_window-Keeps config key.coin _ b0 s.2 known
                  (λ w r. push_coverage-IsRing config.max_rolling_cohorts now w r _) ks)
                λ b1 k1.
                  Ensures->>= K K
                    (if is_complete config candidate
                      then commit_cohort config key candidate now at b1
                      else some b1)
                    _
                    (elim (Bool-cases (is_complete config candidate)) [
                      | inl e ↦ rw e (commit_cohort-Keeps key candidate now at b1 known e k1)
                      | inr e ↦ rw e k1
                    ])
                    λ b2 k2. insert_settled-Keeps config key _ b0 b2 known k2

  pub finalize_canonical-Keeps :
      (key : BaseKey) (now : ℕ) (seen : Row Bool) (e : ContentKey × PendingCandidate)
      (b : Benchmark)
      → IsCoin config key.coin
      → Keeps config b0 b
      → Ensures (Keeps config b0) (finalize_canonical config key now seen e b)
  unfolding finalize_canonical
  finalize_canonical-Keeps key now seen (content, candidate) b known k =
      elim (Bool-cases (is_canonical config candidate)) [
        | inl e ↦ rw e (finalize_candidate-Keeps _ candidate now seen b known k)
        | inr e ↦ rw e k
      ]
