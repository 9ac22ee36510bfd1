-- ===== src/Benchmark/Tombstones.antt =====
-- src/benchmark.rs: `insert_settled` and `insert_settled_base`.
use hyperliquid_market_bench.Prelude.{ℕ, Option, none, some, if◌then◌else◌, leb, length, ◌>>=◌}
use hyperliquid_market_bench.Dict.{insert, remove, min_by_key}
use hyperliquid_market_bench.Model.Keys.{EventKey, BaseKey, EventKey_discrete, BaseKey_discrete}
use hyperliquid_market_bench.Config.{BenchmarkConfig}
use hyperliquid_market_bench.Benchmark.{Benchmark, SettledCohort, with_window}
use hyperliquid_market_bench.Benchmark.Windows.{evict_state}

module _ (config : BenchmarkConfig) where
  -- The oldest settled key goes when the map is full.
  unfoldable pub settled_room : ℕ → Benchmark → Option Benchmark
  settled_room settled_at b =
      if leb config.max_settled (length b.settled)
      then (elim (min_by_key (λ (s : SettledCohort). s.settled_at) b.settled) [
        | none ↦ some b
        | some oldest ↦
            with_window oldest.0.coin (evict_state settled_at)
              (record b { settled = remove EventKey_discrete oldest.0 b.settled })
      ])
      else some b

  unfoldable pub insert_settled : EventKey → SettledCohort → Benchmark → Option Benchmark
  unfolding settled_room
  insert_settled key cohort b = do
    b ← settled_room cohort.settled_at b
    some (record b { settled = insert EventKey_discrete key cohort b.settled })

  unfoldable pub bases_room : ℕ → Benchmark → Option Benchmark
  bases_room settled_at b =
      if leb config.max_settled (length b.settled_bases)
      then (elim (min_by_key (λ at. at) b.settled_bases) [
        | none ↦ some b
        | some oldest ↦
            with_window oldest.0.coin (evict_state settled_at)
              (record b { settled_bases = remove BaseKey_discrete oldest.0 b.settled_bases })
      ])
      else some b

  unfoldable pub insert_settled_base : BaseKey → ℕ → Benchmark → Option Benchmark
  unfolding bases_room
  insert_settled_base key settled_at b = do
    b ← bases_room settled_at b
    some (record b { settled_bases = insert BaseKey_discrete key settled_at b.settled_bases })
