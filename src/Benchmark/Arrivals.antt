-- ===== src/Benchmark/Arrivals.antt =====
-- src/benchmark.rs, `settle` and `finalize_candidate`: what is done with the arrivals of one
-- candidate.
use hyperliquid_market_bench.Prelude.{
  ℕ, ◌+◌, ◌-◌, ◌/◌, ◌%◌, ◌^◌, List, [], ◌∷◌, Option, none, some, Bool, true, String, if◌then◌else◌,
  ◌==◌, max, is_some, ◌>>=◌,
}
use hyperliquid_market_bench.Model.Provider.{Provider, Row, set, index}
use hyperliquid_market_bench.Benchmark.{
  Benchmark, PendingCandidate, CoverageOutcome, matched, mismatch, with_counters,
}
use hyperliquid_market_bench.Benchmark.Count

abbrev pub arrived : PendingCandidate → Provider → Bool
arrived candidate p = is_some (candidate.arrivals p)

-- `mask & (1 << i) != 0` and `mask | (1 << i)` on a u8.
unfoldable pub has_bit : ℕ → ℕ → Bool
has_bit mask i = mask / 2 ^ i % 2 == 1

unfoldable pub set_bit : ℕ → ℕ → ℕ
set_bit mask i = if has_bit mask i then mask else mask + 2 ^ i

-- `a - b` on u64 wraps in a release build.
abbrev pub sub_u64 : ℕ → ℕ → ℕ
sub_u64 a b = (a + 2 ^ 64 - b) % 2 ^ 64

abbrev pub received_by : PendingCandidate → List Provider → List ℕ
received_by candidate [] = []
received_by candidate (p ∷ ps) = elim (candidate.arrivals p) [
  | none ↦ received_by candidate ps
  | some o ↦ o.received ∷ received_by candidate ps
]

-- `Iterator::max`.
abbrev pub latest : List ℕ → Option ℕ
latest [] = none
latest (t ∷ ts) = elim (latest ts) [ none ↦ some t | some u ↦ some (max t u) ]

unfoldable pub orphan_provider :
    String → PendingCandidate → Provider → Row Bool × Benchmark → Option (Row Bool × Benchmark)
orphan_provider coin candidate p (seen, b) =
    if arrived candidate p
    then (do b ← with_counters p coin Count.orphaned b; some (set seen p true, b))
    else some (seen, b)

-- One round of the loop that counts who matched: the outcomes, the mask and the counters.
unfoldable pub tally_provider :
    String
    → PendingCandidate
    → Row Bool
    → Provider
    → Row CoverageOutcome × ℕ × Benchmark
    → Option (Row CoverageOutcome × ℕ × Benchmark)
tally_provider coin candidate noncanonical_seen p (outcomes, matched_mask, b) =
    if arrived candidate p
    then (do
      b ← with_counters p coin Count.matched b
      some (set outcomes p matched, set_bit matched_mask (index p), b))
    else if noncanonical_seen p
    then (do
      b ← with_counters p coin Count.mismatch b
      some (set outcomes p mismatch, matched_mask, b))
    else (do b ← with_counters p coin Count.missing b; some (outcomes, matched_mask, b))

-- `latency_ms` of a complete cohort; `expect("complete cohort")` fails on a missing arrival.
unfoldable pub latencies : ℕ → PendingCandidate → List Provider → Option (Row ℕ)
latencies event_ms candidate [] = some (λ _. 0)
latencies event_ms candidate (p ∷ ps) = do
  row ← latencies event_ms candidate ps
  arrival ← candidate.arrivals p
  some (set row p (sub_u64 arrival.received_wall_ms event_ms))
