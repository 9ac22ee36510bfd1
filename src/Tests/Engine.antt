-- ===== src/Tests/Engine.antt =====
-- The results on the cohort engine, applied to a process for the books of one coin.
use hyperliquid_market_bench.Prelude.{
  ◌≡◌, refl, List, [], ◌∷◌, some, false, All, Ensures, Ensures-some, inl, arith,
}
use hyperliquid_market_bench.Model.Provider.{
  foundation_ws, hydromancer_ws, quick_node_grpc, quick_node_vpc,
}
use hyperliquid_market_bench.Model.Keys.{BaseKey, market, reconnect, base}
use hyperliquid_market_bench.Benchmark.{Benchmark, new}
use hyperliquid_market_bench.Benchmark.Settle.{settle}
use hyperliquid_market_bench.Benchmark.Record.{record_market, tick}
use hyperliquid_market_bench.Benchmark.Invariant.{IsCoin, Inv}
use hyperliquid_market_bench.Benchmark.Keeps.{Frame}
use hyperliquid_market_bench.Benchmark.Settling.{Settles, settle-Settles}
use hyperliquid_market_bench.Benchmark.Recording.{record_market-Inv}
use hyperliquid_market_bench.Benchmark.Refusals.{record_market-Frame}
use hyperliquid_market_bench.Benchmark.Deadlines.{IsFresh, tick-IsFresh}
use hyperliquid_market_bench.Safety.{
  Call, record_call, tick_call, prepare_call, commit_call, reject_call, run, Allowed,
}
use hyperliquid_market_bench.Safety.Start.{run-Inv, new-Inv}
use hyperliquid_market_bench.Tests.Scenario.{program, bbo_config, at_ms, book}

btc_known : IsCoin bbo_config "BTC"
unfolding program
btc_known = refl

-- Three books of one time, a reconnect, a tick after the deadline and a publication.
abbrev history : List Call
history =
    record_call (market (book foundation_ws "9" 10))
    ∷ record_call (market (book hydromancer_ws "9" 20))
    ∷ record_call (reconnect hydromancer_ws "BTC")
    ∷ record_call (market (book quick_node_grpc "9" 30))
    ∷ tick_call (at_ms 6_000)
    ∷ prepare_call (at_ms 60_000) 60_000
    ∷ commit_call
    ∷ reject_call
    ∷ []

history-Allowed : All (Allowed bbo_config) history
unfolding program
history-Allowed = (refl, (refl, (refl, (refl, (tt, (omega arith, (tt, (tt, tt))))))))

run-Inv_example : Ensures (Inv bbo_config) (run bbo_config history (new bbo_config.coins 0 0))
run-Inv_example = run-Inv bbo_config 0 0 history history-Allowed

abbrev fresh : Benchmark
fresh = new bbo_config.coins 0 0

-- One book is pending.
abbrev btc_base : BaseKey
btc_base = base (book foundation_ws "9" 10).key

one_pending :
    (b : Benchmark) × (record_market bbo_config (book foundation_ws "9" 10) fresh ≡ some b)
    × Inv bbo_config b
one_pending = Ensures-some (Inv bbo_config) _ (
    record_market-Inv bbo_config (book foundation_ws "9" 10) btc_known fresh
      (new-Inv bbo_config 0 0))

settle-Settles_example :
    Ensures
      (Settles bbo_config btc_base one_pending.0)
      (settle bbo_config btc_base (at_ms 5_000) false one_pending.0)
settle-Settles_example =
    settle-Settles bbo_config btc_base (at_ms 5_000) false one_pending.0 one_pending.2

tick-IsFresh_example :
    Ensures (IsFresh bbo_config (at_ms 6_000)) (tick bbo_config (at_ms 6_000) one_pending.0)
tick-IsFresh_example = tick-IsFresh bbo_config (at_ms 6_000) one_pending.0 one_pending.2

-- A book of a provider that this process does not dial.
record_market-Frame_example :
    Ensures
      (Frame bbo_config one_pending.0)
      (record_market bbo_config (book quick_node_vpc "9" 40) one_pending.0)
unfolding program
record_market-Frame_example =
    record_market-Frame bbo_config (book quick_node_vpc "9" 40) one_pending.0 btc_known
      one_pending.2 (inl refl)
