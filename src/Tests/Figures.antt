-- ===== src/Tests/Figures.antt =====
-- The results on percentiles, latencies and configurations, applied.
use hyperliquid_market_bench.Prelude.{
  ℕ, ◌≡◌, ◌≤◌, ◌<◌, ◌*◌, List, [], ◌∷◌, some, Ensures, String, length, arith,
}
use hyperliquid_market_bench.Model.Dataset.{Dataset, bbo, l2book, fills, mempool, peering}
use hyperliquid_market_bench.Config.{production_state_capacity}
use hyperliquid_market_bench.Config.Choices.{process_cohorts, production_state_capacity-bounds}
use hyperliquid_market_bench.Rank.{sort, nearest_rank, distribution}
use hyperliquid_market_bench.Rank.Empirical.{IsQuantile, nearest_rank-IsQuantile}
use hyperliquid_market_bench.Rank.Summary.{Answers, distribution-Answers}

abbrev latencies_ms : List ℕ
latencies_ms = 31 ∷ 12 ∷ 12 ∷ 250 ∷ 40 ∷ []

nearest_rank-IsQuantile_example :
    (v : ℕ) × (nearest_rank (sort latencies_ms) 95 ≡ some v) × IsQuantile 95 latencies_ms v
nearest_rank-IsQuantile_example =
    nearest_rank-IsQuantile latencies_ms 95 (omega arith) (omega arith) (omega arith)

distribution-Answers_example : Ensures (Answers latencies_ms) (distribution latencies_ms)
distribution-Answers_example = distribution-Answers latencies_ms

abbrev four_coins : List String
four_coins = "BTC" ∷ "ETH" ∷ "SOL" ∷ "HYPE" ∷ []

production_state_capacity-bounds_example :
    (process_cohorts fills four_coins ≤ 300_000)
    × (process_cohorts mempool four_coins ≤ 75_000)
    × (process_cohorts peering four_coins ≤ 75_000)
    × (process_cohorts bbo four_coins ≡ length four_coins * 25_000)
    × (process_cohorts l2book four_coins ≡ length four_coins * 25_000)
    × ((d : Dataset)
        → (production_state_capacity d (length four_coins)).0
          < (production_state_capacity d (length four_coins)).1)
production_state_capacity-bounds_example = production_state_capacity-bounds four_coins
