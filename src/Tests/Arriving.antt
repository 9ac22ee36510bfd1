-- ===== src/Tests/Arriving.antt =====
-- The results on arrivals and on committed cohorts, applied to one book of one coin.
use hyperliquid_market_bench.Prelude.{ℕ, refl, Option, none, some, false, Ensures, arith, ◌+◌}
use hyperliquid_market_bench.Model.Provider.{Row, foundation_ws, hydromancer_ws, quick_node_grpc}
use hyperliquid_market_bench.Model.Keys.{MarketEvent}
use hyperliquid_market_bench.Benchmark.{Benchmark, Observation, PendingCandidate, new}
use hyperliquid_market_bench.Benchmark.Settle.{finalize_candidate}
use hyperliquid_market_bench.Benchmark.Record.{record_market}
use hyperliquid_market_bench.Benchmark.Invariant.{IsCoin}
use hyperliquid_market_bench.Benchmark.Lookup.{Joins}
use hyperliquid_market_bench.Benchmark.Joining.{Accepted, record_market-Joins}
use hyperliquid_market_bench.Benchmark.Commits.{Finalizes, finalize_candidate-Finalizes}
use hyperliquid_market_bench.Safety.Start.{new-Inv}
use hyperliquid_market_bench.Tests.Scenario.{program, bbo_config, at_ms, book}

abbrev fresh : Benchmark
fresh = new bbo_config.coins 0 0

abbrev first_book : MarketEvent
first_book = book foundation_ws "9" 10

first_known : IsCoin bbo_config first_book.key.coin
unfolding program
first_known = refl

first_book-Accepted : Accepted bbo_config first_book fresh
unfolding program
first_book-Accepted = record {
  compared = refl;
  listed = refl;
  timed = omega arith;
  received = omega arith;
  open_base = refl;
  in_time = refl;
  room = refl;
}

record_market-Joins_example :
    Ensures (Joins first_book fresh) (record_market bbo_config first_book fresh)
record_market-Joins_example =
    record_market-Joins bbo_config first_book fresh first_known (new-Inv bbo_config 0 0)
      first_book-Accepted

abbrev receipt : ℕ → Option Observation
receipt ms = some (record { received = at_ms ms; received_wall_ms = 1_000 + ms })

abbrev three_arrivals : Row (Option Observation)
three_arrivals foundation_ws = receipt 10
three_arrivals hydromancer_ws = receipt 20
three_arrivals quick_node_grpc = receipt 30
three_arrivals _ = none

abbrev complete_candidate : PendingCandidate
complete_candidate = record { first_observed = at_ms 10; arrivals = three_arrivals }

finalize_candidate-Finalizes_example :
    Ensures (Finalizes bbo_config first_book.key complete_candidate fresh) (
      finalize_candidate bbo_config first_book.key complete_candidate (at_ms 40) (λ _. false) fresh)
finalize_candidate-Finalizes_example =
    finalize_candidate-Finalizes bbo_config first_book.key complete_candidate (at_ms 40)
      (λ _. false) fresh first_known (new-Inv bbo_config 0 0)
