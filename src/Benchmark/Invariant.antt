-- ===== src/Benchmark/Invariant.antt =====
-- src/benchmark.rs: what holds of a `Benchmark` between two calls.
use hyperliquid_market_bench.Prelude.{
  ◌≤◌, ◌≡◌, max, List, [], ◌∷◌, Bool, true, false, String, String_discrete, length, All,
}
use mathlib.Core.Logic.{ite}
use hyperliquid_market_bench.Dict.{contains_key}
use hyperliquid_market_bench.Model.Keys.{BaseKey, BaseKey_discrete}
use hyperliquid_market_bench.Config.{BenchmarkConfig}
use hyperliquid_market_bench.Benchmark.{Benchmark, PendingBase, max_signatures_per_base}
use hyperliquid_market_bench.Benchmark.Rings.{IsRing}

abbrev pub is_coin : List String → String → Bool
is_coin [] coin = false
is_coin (c ∷ cs) coin = ite (String_discrete c coin) true (is_coin cs coin)

module _ (config : BenchmarkConfig) where
  -- One of the coins that the process was started with.
  abbrev pub IsCoin : String → Type 0
  IsCoin coin = is_coin config.coins coin ≡ true

  -- A pending base is for a registered coin, and it holds at most four contents.
  pub record IsPending (key : BaseKey) (pending : PendingBase) : Type 0 where
    pub known : IsCoin key.coin
    pub signatures : length pending.candidates ≤ max_signatures_per_base

  pub record Inv (b : Benchmark) : Type 0 where
    pub counters_known :
        (coin : String) → IsCoin coin → contains_key String_discrete coin b.counters ≡ true
    pub windows_known :
        (coin : String) → IsCoin coin → contains_key String_discrete coin b.windows ≡ true
    pub pending_valid : All (λ e. IsPending e.0 e.1) b.pending
    pub pending_cap : length b.pending ≤ max 1 config.max_pending
    pub bases_known : All (λ e. IsCoin e.0.coin) b.settled_bases
    pub bases_cap : length b.settled_bases ≤ max 1 config.max_settled
    pub settled_known : All (λ e. IsCoin e.0.coin) b.settled
    pub settled_cap : length b.settled ≤ max 1 config.max_settled
    pub rings : All (λ e. IsRing config.max_rolling_cohorts e.1) b.windows
    -- A base that is settled is not pending.
    pub sealed :
        (key : BaseKey)
        → contains_key BaseKey_discrete key b.settled_bases ≡ true
        → contains_key BaseKey_discrete key b.pending ≡ false
