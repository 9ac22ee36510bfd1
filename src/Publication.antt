-- ===== src/Publication.antt =====
-- src/benchmark.rs: the state changes of `window_events`, and `commit_prepared_publication` and
-- `reject_prepared_publication`. A publication is prepared, handed to the durable outbox, and
-- then committed or rejected.
pub mod Progress
pub mod Rows
pub mod Events
pub mod Agreement
pub mod Columns
pub mod Published
use hyperliquid_market_bench.Prelude.{
  ℕ, ◌-◌, ◌%◌, Option, none, some, Bool, true, false, ◌||◌, ◌>>=◌, if◌then◌else◌, leb, ◌==◌, map,
}
use hyperliquid_market_bench.Dict.{map_values}
use hyperliquid_market_bench.Config.{BenchmarkConfig}
use hyperliquid_market_bench.Benchmark.{Benchmark, PreparedOutcomeInterval, as_millis}
use hyperliquid_market_bench.Benchmark.Record.{tick}
use hyperliquid_market_bench.Outcomes.{mark_outcomes_reported}

-- `now_ms` is `system_time_ms(time)`, and the interval is in nanoseconds. A remainder by zero
-- panics.
unfoldable pub aligned_window_end_ms : ℕ → ℕ → Option ℕ
aligned_window_end_ms now_ms interval =
    let interval_ms = as_millis interval in
    if interval_ms == 0 then none else some (now_ms - now_ms % interval_ms)

-- `window_events` up to the rows that it returns: the earlier preparation is dropped, the pending
-- cohorts are maintained, and an interval that moves both clocks forward is prepared.
unfoldable pub prepare_publication : BenchmarkConfig → ℕ → ℕ → Benchmark → Option Benchmark
prepare_publication config now actual_wall_ms b = do
  b ← tick config now (record b { prepared_outcome_interval = none })
  wall_ms ← aligned_window_end_ms actual_wall_ms config.publish_interval
  if leb wall_ms b.outcome_cursor_wall_ms || leb now b.outcome_cursor
      then some b
      else some (record b {
        prepared_outcome_interval = some (record { end = now; end_wall_ms = wall_ms });
      })

unfoldable pub commit_interval : PreparedOutcomeInterval → Benchmark → Benchmark × Bool
commit_interval prepared b =
    if leb prepared.end_wall_ms b.outcome_cursor_wall_ms || leb prepared.end b.outcome_cursor
    then (b, false)
    else (
      record b {
        windows = map_values (mark_outcomes_reported prepared.end) b.windows;
        outcome_cursor = prepared.end;
        outcome_cursor_wall_ms = prepared.end_wall_ms;
        outcome_has_published = true;
      },
      true,
    )

unfoldable pub commit_prepared_publication : Benchmark → Benchmark × Bool
unfolding commit_interval
commit_prepared_publication b = elim b.prepared_outcome_interval [
  | none ↦ (b, false)
  | some prepared ↦ commit_interval prepared (record b { prepared_outcome_interval = none })
]

unfoldable pub reject_prepared_publication : Benchmark → Benchmark
reject_prepared_publication b = record b { prepared_outcome_interval = none }
