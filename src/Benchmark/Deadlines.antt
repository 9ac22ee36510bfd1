-- ===== src/Benchmark/Deadlines.antt =====
-- src/benchmark.rs: after `tick` no pending base is past its deadline, and nothing is kept longer
-- than the rolling window.
use hyperliquid_market_bench.Prelude.{
  ℕ, ◌-◌, ◌≤◌, ◌<◌, ◌≡◌, sym, subst, List, [], ◌∷◌, false, Ensures, Ensures->>=, arith, All,
  All-mono, All-keep_test, keep, for_each, String,
}
use hyperliquid_market_bench.Dict.{Map, map_values}
use hyperliquid_market_bench.Dict.Sweep
use hyperliquid_market_bench.Model.Keys.{BaseKey, BaseKey_discrete, EventKey}
use hyperliquid_market_bench.Config.{BenchmarkConfig}
use hyperliquid_market_bench.Benchmark.{
  Benchmark, PendingBase, CoinWindow, SettledCohort, CommittedCohort, CoverageCohort,
}
use hyperliquid_market_bench.Benchmark.Windows.{prune_window, within}
use hyperliquid_market_bench.Benchmark.Settle.{settle}
use hyperliquid_market_bench.Benchmark.Record.{prune, tick, has_expired}
use hyperliquid_market_bench.Benchmark.Invariant.{Inv}
use hyperliquid_market_bench.Benchmark.Settling.{Settles, settle-Settles}

module _ (config : BenchmarkConfig) (now : ℕ) where
  abbrev Waits : Map BaseKey PendingBase → BaseKey × PendingBase → Type 0
  Waits = Sweep.Waits BaseKey_discrete (has_expired config now)

  -- The invariant, and what waits.
  record Round (rest : Map BaseKey PendingBase) (b : Benchmark) : Type 0 where
    inv : Inv config b
    waits : All (Waits rest) b.pending

  settle_all-Round :
      (rest : Map BaseKey PendingBase) (b : Benchmark)
      → Round rest b
      → Ensures
          (Round [])
          (for_each (λ (e : BaseKey × PendingBase). settle config e.0 now false) rest b)
  unfolding for_each
  settle_all-Round [] b r = r
  settle_all-Round (x ∷ rest) b r =
      Ensures->>= (Settles config x.0 b) (Round []) _ _
        (settle-Settles config x.0 now false b r.inv)
        λ c s. settle_all-Round rest c (record {
          inv = s.inv;
          waits = subst (All (Waits rest)) (sym s.pending_removed) (
              Sweep.Waits-remove BaseKey_discrete (has_expired config now) x rest b.pending
                r.waits);
        })

  -- Nothing is pending past its deadline, and nothing is kept beyond the rolling window.
  pub record IsFresh (b : Benchmark) : Type 0 where
    pub pending : All (λ e. now - e.1.first_observed < config.cohort_timeout) b.pending
    pub settled_bases : All (λ e. now - e.1 ≤ config.rolling_window) b.settled_bases
    pub settled : All (λ e. now - e.1.settled_at ≤ config.rolling_window) b.settled
    pub cohorts :
        All (λ e. All (λ c. now - c.committed_at ≤ config.rolling_window) e.1.cohorts) b.windows
    pub coverage :
        All (λ e. All (λ c. now - c.settled_at ≤ config.rolling_window) e.1.coverage) b.windows

  All-kept :
      {A : Type 0} (at : A → ℕ) (xs : List A)
      → All
          (λ x. now - at x ≤ config.rolling_window)
          (keep (λ x. within config.rolling_window now (at x)) xs)
  All-kept at xs =
      All-mono _ (λ x. now - at x ≤ config.rolling_window) (λ x h. ground arith) _
        (All-keep_test (λ x. within config.rolling_window now (at x)) xs)

  All-pruned :
      {A : Type 0} (ring : CoinWindow → List A) (at : A → ℕ) (ws : Map String CoinWindow)
      → ((w : CoinWindow)
          → All
              (λ x. now - at x ≤ config.rolling_window)
              (ring (prune_window config.rolling_window now w)))
      → All
          (λ e. All (λ x. now - at x ≤ config.rolling_window) (ring e.1))
          (map_values (prune_window config.rolling_window now) ws)
  unfolding map_values
  All-pruned ring at [] h = tt
  All-pruned ring at (e ∷ ws) h = (h e.1, All-pruned ring at ws h)

  prune-IsFresh : (b : Benchmark) → Round [] b → IsFresh (prune config now b)
  unfolding prune prune_window
  prune-IsFresh b r = record {
    pending =
        All-mono (λ e. has_expired config now e ≡ false) _ (λ e h. ground arith) b.pending
          (Sweep.Waits-done BaseKey_discrete (has_expired config now) b.pending r.waits);
    settled_bases = All-kept (λ (e : BaseKey × ℕ). e.1) b.settled_bases;
    settled = All-kept (λ (e : EventKey × SettledCohort). e.1.settled_at) b.settled;
    cohorts =
        All-pruned (λ (w : CoinWindow). w.cohorts) (λ c. c.committed_at) b.windows
          (λ w. All-kept (λ (c : CommittedCohort). c.committed_at) w.cohorts);
    coverage =
        All-pruned (λ (w : CoinWindow). w.coverage) (λ c. c.settled_at) b.windows
          (λ w. All-kept (λ (c : CoverageCohort). c.settled_at) w.coverage);
  }

  -- From a state that satisfies the invariant, a tick does not panic. After it no pending base is at
  -- or past its deadline, and no tombstone, cohort or coverage entry is older than the rolling
  -- window.
  pub tick-IsFresh : (b : Benchmark) → Inv config b → Ensures IsFresh (tick config now b)
  unfolding tick
  tick-IsFresh b v =
      Ensures->>= (Round []) IsFresh _ _
        (settle_all-Round (keep (has_expired config now) b.pending) b (record {
          inv = v;
          waits = Sweep.Waits-All BaseKey_discrete (has_expired config now) b.pending;
        }))
        (λ c r. prune-IsFresh c r)
