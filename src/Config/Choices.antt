-- ===== src/Config/Choices.antt =====
-- src/benchmark.rs: the capacities of the datasets.
use hyperliquid_market_bench.Prelude.{
  ℕ, zero, suc, ◌*◌, ◌/◌, ◌≤◌, ◌<◌, ◌≡◌, refl, max, List, String, length, arith,
}
use hyperliquid_market_bench.Model.Dataset.{Dataset, bbo, l2book, fills, mempool, peering}
use hyperliquid_market_bench.Config.{production_state_capacity}

-- What a process of a dataset holds over all of its coins.
abbrev pub process_cohorts : Dataset → List String → ℕ
process_cohorts d coins = length coins * (production_state_capacity d (length coins)).2

max_suc : (n : ℕ) → max (suc n) 1 ≡ suc n
max_suc n = omega arith

share : (m n : ℕ) → suc n * (m / suc n) ≤ m
share m n = omega arith

split_budget : (m n : ℕ) → n * (m / max n 1) ≤ m
split_budget m zero = omega arith
split_budget m (suc n) = rw (max_suc n) (share m n)

-- However many coins there are, the fills hold at most 300,000 rolling cohorts and the mempool and
-- the peering at most 75,000 in one process, the books 25,000 for each coin; each dataset bounds
-- the settled keys by more than its pending bases.
pub production_state_capacity-bounds :
    (coins : List String)
    → (process_cohorts fills coins ≤ 300_000)
      × (process_cohorts mempool coins ≤ 75_000)
      × (process_cohorts peering coins ≤ 75_000)
      × (process_cohorts bbo coins ≡ length coins * 25_000)
      × (process_cohorts l2book coins ≡ length coins * 25_000)
      × ((d : Dataset)
          → (production_state_capacity d (length coins)).0
            < (production_state_capacity d (length coins)).1)
unfolding production_state_capacity
production_state_capacity-bounds coins = (
  split_budget 300_000 (length coins),
  split_budget 75_000 (length coins),
  split_budget 75_000 (length coins),
  refl,
  refl,
  λ d. ground arith,
)
