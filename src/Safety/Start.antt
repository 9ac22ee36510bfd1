-- ===== src/Safety/Start.antt =====
-- src/benchmark.rs: `Benchmark::new` registers every configured coin, so that each history that
-- starts with it is safe.
use hyperliquid_market_bench.Prelude.{
  ℕ, ◌≡◌, refl, List, [], ◌∷◌, true, String, String_discrete, All, Ensures, arith,
}
use hyperliquid_market_bench.Dict.{get, contains_key, insert}
use hyperliquid_market_bench.Dict.Laws.{get-insert, All-insert}
use hyperliquid_market_bench.Config.{BenchmarkConfig}
use hyperliquid_market_bench.Benchmark.{
  Benchmark, CoinWindow, new, register, empty_window, zero_counters,
}
use hyperliquid_market_bench.Benchmark.Rings.{IsRing}
use hyperliquid_market_bench.Benchmark.Invariant.{is_coin, IsCoin, Inv}
use hyperliquid_market_bench.Safety.{Call, Allowed, run, run_from-Inv}

-- Both maps know the coin.
record Knows (coin : String) (b : Benchmark) : Type 0 where
  counters : contains_key String_discrete coin b.counters ≡ true
  windows : contains_key String_discrete coin b.windows ≡ true

abbrev register_one : String → Benchmark → Benchmark
register_one c b = record b {
  windows = insert String_discrete c empty_window b.windows;
  counters = insert String_discrete c (λ _. zero_counters) b.counters;
}

register_one-Knows_old :
    (c coin : String) (b : Benchmark) → Knows coin b → Knows coin (register_one c b)
register_one-Knows_old c coin b k = record {
  counters = rw (get-insert String_discrete c coin (λ _. zero_counters) b.counters) (ground arith);
  windows = rw (get-insert String_discrete c coin empty_window b.windows) (ground arith);
}

register_one-Knows_new :
    (c coin : String) (b : Benchmark) → c ≡ coin → Knows coin (register_one c b)
register_one-Knows_new c coin b e = record {
  counters = rw (get-insert String_discrete c coin (λ _. zero_counters) b.counters) (ground arith);
  windows = rw (get-insert String_discrete c coin empty_window b.windows) (ground arith);
}

register-Knows_old :
    (coins : List String) (coin : String) (b : Benchmark)
    → Knows coin b
    → Knows coin (register coins b)
unfolding register
register-Knows_old [] coin b k = k
register-Knows_old (c ∷ coins) coin b k =
    register-Knows_old coins coin (register_one c b) (register_one-Knows_old c coin b k)

register-Knows :
    (coins : List String) (coin : String) (b : Benchmark)
    → is_coin coins coin ≡ true
    → Knows coin (register coins b)
unfolding register
register-Knows [] coin b h = absurd (cc)
register-Knows (c ∷ coins) coin b h = elim (String_discrete c coin) [
  | yes e ↦ register-Knows_old coins coin (register_one c b) (register_one-Knows_new c coin b e)
  | no n ↦ register-Knows coins coin (register_one c b) (ground arith)
]

-- Before any event nothing is pending or settled, and the rings are empty.
record IsIdle (cap : ℕ) (b : Benchmark) : Type 0 where
  pending : b.pending ≡ []
  settled_bases : b.settled_bases ≡ []
  settled : b.settled ≡ []
  rings : All (λ e. IsRing cap e.1) b.windows

register-IsIdle :
    (cap : ℕ) (coins : List String) (b : Benchmark) → IsIdle cap b → IsIdle cap (register coins b)
unfolding register
register-IsIdle cap [] b i = i
register-IsIdle cap (c ∷ coins) b i = register-IsIdle cap coins (register_one c b) (record {
  pending = i.pending;
  settled_bases = i.settled_bases;
  settled = i.settled;
  rings =
      All-insert String_discrete (λ (e : String × CoinWindow). IsRing cap e.1) c empty_window
        b.windows
        (record {
          cohorts_sorted = tt;
          coverage_sorted = tt;
          cohorts_cap = omega arith;
          coverage_cap = omega arith;
        })
        i.rings;
})

idle-Inv :
    (config : BenchmarkConfig) (b : Benchmark)
    → IsIdle config.max_rolling_cohorts b
    → ((coin : String) → IsCoin config coin → Knows coin b)
    → Inv config b
unfolding get
idle-Inv config b i k = record {
  counters_known = λ c h. (k c h).counters;
  windows_known = λ c h. (k c h).windows;
  pending_valid = rw i.pending tt;
  pending_cap = rw i.pending (omega arith);
  bases_known = rw i.settled_bases tt;
  bases_cap = rw i.settled_bases (omega arith);
  settled_known = rw i.settled tt;
  settled_cap = rw i.settled (omega arith);
  rings = i.rings;
  sealed = λ key h. absurd (ground (arith, i.settled_bases));
}

pub new-Inv :
    (config : BenchmarkConfig) (now wall_ms : ℕ) → Inv config (new config.coins now wall_ms)
unfolding new
new-Inv config now wall_ms =
    idle-Inv config _
      (register-IsIdle config.max_rolling_cohorts config.coins _
        (record { pending = refl; settled_bases = refl; settled = refl; rings = tt }))
      (λ coin h. register-Knows config.coins coin _ h)

-- A benchmark that is fresh from `new` and then takes any sequence of calls on its configured
-- coins, with a publish interval of a millisecond or more where it prepares a publication, does
-- not panic, and ends in a state in which every base that is settled is not pending,
-- the pending bases, the settled bases and keys and both rings of each coin are within their caps
-- (a cap of 0 on the maps admits one entry), each pending base holds at most four contents, both
-- rings are in the order of their instants, and all that is kept is about a registered coin.
pub run-Inv :
    (config : BenchmarkConfig) (now wall_ms : ℕ) (calls : List Call)
    → All (Allowed config) calls
    → Ensures (Inv config) (run config calls (new config.coins now wall_ms))
run-Inv config now wall_ms calls allowed =
    run_from-Inv config calls _ allowed (new-Inv config now wall_ms)
