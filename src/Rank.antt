-- ===== src/Rank.antt =====
-- src/benchmark.rs: `nearest_rank`, and the percentiles, minimum and maximum of `distribution`.
-- The mean and the standard deviation are sums of floats, and are not modelled.
pub mod Empirical
pub mod Summary
use hyperliquid_market_bench.Prelude.{
  ℕ, ◌+◌, ◌-◌, ◌*◌, ◌/◌, max, List, [], ◌∷◌, Option, none, some, ◌>>=◌, if◌then◌else◌, leb, length,
  get_elem?,
}

-- `sort_unstable` gives the sorted list, which is unique.
unfoldable pub insert_sorted : ℕ → List ℕ → List ℕ
insert_sorted x [] = x ∷ []
insert_sorted x (y ∷ ys) = if leb x y then x ∷ y ∷ ys else y ∷ insert_sorted x ys

unfoldable pub sort : List ℕ → List ℕ
unfolding insert_sorted
sort [] = []
sort (x ∷ xs) = insert_sorted x (sort xs)

-- `n.div_ceil(100)`.
abbrev pub div_ceil_100 : ℕ → ℕ
div_ceil_100 n = (n + 99) / 100

-- An index past the end panics.
unfoldable pub nearest_rank : List ℕ → ℕ → Option ℕ
nearest_rank sorted percentile =
    let rank = max (div_ceil_100 (percentile * length sorted)) 1 in get_elem? sorted (rank - 1)

pub record Distribution : Type 0 where
  pub p50 : ℕ
  pub p95 : ℕ
  pub p99 : ℕ
  pub min : ℕ
  pub max : ℕ

unfoldable pub summary : List ℕ → Option Distribution
summary values = do
  p50 ← nearest_rank values 50
  p95 ← nearest_rank values 95
  p99 ← nearest_rank values 99
  least ← get_elem? values 0
  greatest ← get_elem? values (length values - 1)
  some (record { p50 = p50; p95 = p95; p99 = p99; min = least; max = greatest })

-- The outer `none` is a panic, the inner one the answer to no values.
unfoldable pub distribution : List ℕ → Option (Option Distribution)
unfolding summary
distribution [] = some none
distribution (x ∷ xs) = do d ← summary (sort (x ∷ xs)); some (some d)
