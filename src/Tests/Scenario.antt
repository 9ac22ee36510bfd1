-- ===== src/Tests/Scenario.antt =====
-- The configuration and the events that the tests share.
use hyperliquid_market_bench.Prelude.{
  ℕ, ◌*◌, ◌+◌, ◌≡◌, refl, List, [], ◌∷◌, Option, none, some, String, String_discrete, ◌>>=◌,
  for_each, add_u64, map, ℕ_discrete,
}
use hyperliquid_market_bench.Dict.{get, insert, map_values, remove, min_by_key}
use hyperliquid_market_bench.Model.Provider.{
  Provider, foundation_ws, hydromancer_ws, quick_node_grpc, index,
}
use hyperliquid_market_bench.Model.Keys
use hyperliquid_market_bench.Model.Keys.{
  MarketEvent, ProbeEvent, market, EventKey_discrete, BaseKey_discrete, ContentKey_discrete, base,
}
use hyperliquid_market_bench.Model.Dataset.{bbo}
use hyperliquid_market_bench.Config.{BenchmarkConfig, production, choices}
use hyperliquid_market_bench.Benchmark.{
  Benchmark, new, with_counters, with_window, mark_integrity_loss,
}
use hyperliquid_market_bench.Benchmark.Windows.{
  insert_by, push_coverage, push_cohort, evict_state, prune_window,
}
use hyperliquid_market_bench.Benchmark.Arrivals.{
  has_bit, set_bit, orphan_provider, tally_provider, latencies,
}
use hyperliquid_market_bench.Benchmark.Tombstones.{insert_settled, insert_settled_base}
use hyperliquid_market_bench.Benchmark.Settle.{
  is_canonical, is_complete, finalize_candidate, settle, drop_late_provider, drop_late_candidate,
  orphan_candidate, orphan_loop, commit_cohort, finalize_canonical, settle_pending,
}
use hyperliquid_market_bench.Benchmark.Record.{
  matched_before, is_expired, record_settled, make_room, join_cohort, admit, reject, record_market,
  record_event, prune, tick,
}

unfoldable pub program : Unit {0}
unfolding String_discrete EventKey_discrete BaseKey_discrete ContentKey_discrete ℕ_discrete base get
    map_values insert remove min_by_key index production choices new with_counters with_window
    mark_integrity_loss insert_by push_coverage push_cohort evict_state prune_window has_bit set_bit
    insert_settled insert_settled_base is_canonical is_complete finalize_candidate settle
    matched_before is_expired record_settled make_room join_cohort admit reject record_market
    record_event prune tick add_u64 for_each orphan_provider tally_provider latencies
    drop_late_provider drop_late_candidate orphan_candidate orphan_loop commit_cohort
    finalize_canonical settle_pending
program = tt

abbrev pub bbo_config : BenchmarkConfig
unfolding production
bbo_config = production bbo ("BTC" ∷ []) "aws" "r" "m" "x" "y"

abbrev pub at_ms : ℕ → ℕ
at_ms ms = ms * 1_000_000

-- A book of `provider` for the event time 1000, received `ms` after the start.
abbrev pub book : Provider → String → ℕ → MarketEvent
book provider px ms = record {
  provider = provider;
  key = record {
    coin = "BTC";
    event_ms = 1_000;
    content = Keys.bbo (some (record { px = px; sz = "1"; n = 1 })) none;
  };
  received = at_ms ms;
  received_wall_ms = 1_000 + ms;
}

abbrev pub start : Benchmark
unfolding new
start = new ("BTC" ∷ []) 0 0

abbrev pub run_markets : List MarketEvent → Option Benchmark
run_markets events = for_each (record_market bbo_config) events start

three_books :
    (run_markets
        (book foundation_ws "9" 10 ∷ book hydromancer_ws "9" 20 ∷ book quick_node_grpc "9" 30 ∷ [])
      >>= tick bbo_config (at_ms 6_000)
      >>= λ b. get String_discrete "BTC" b.windows >>= λ w.
          some (map (λ c. c.latency_ms hydromancer_ws) w.cohorts))
    ≡ some (20 ∷ [])
unfolding program
three_books = refl
