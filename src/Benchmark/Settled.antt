-- ===== src/Benchmark/Settled.antt =====
-- src/benchmark.rs: `insert_settled` and `insert_settled_base` keep the caps on settled keys.
use hyperliquid_market_bench.Prelude.{
  ℕ, ◌+◌, ◌≤◌, ◌≡◌, ap, ◌∙◌, inl, inr, max, some, length, Ensures, Ensures->>=, Ensures-mono,
  Option-cases, Bool-cases, arith, leb,
}
use hyperliquid_market_bench.Dict.{insert, remove, min_by_key}
use hyperliquid_market_bench.Dict.Laws.{
  length-insert-le, length-remove-lt, length-remove-le, All-insert, All-remove, All-min_by_key,
  contains_key-min_by_key, min_by_key-eq-none,
}
use hyperliquid_market_bench.Model.Keys.{EventKey, BaseKey, EventKey_discrete}
use hyperliquid_market_bench.Config.{BenchmarkConfig}
use hyperliquid_market_bench.Benchmark.{Benchmark, SettledCohort, with_window}
use hyperliquid_market_bench.Benchmark.Windows.{evict_state}
use hyperliquid_market_bench.Benchmark.Rings.{evict_state-IsRing}
use hyperliquid_market_bench.Benchmark.Invariant.{IsCoin, Inv}
use hyperliquid_market_bench.Benchmark.Keeps.{Keeps, Frame, with_window-Frame}
use hyperliquid_market_bench.Benchmark.Tombstones.{insert_settled, settled_room}

abbrev settled_time : SettledCohort → ℕ
settled_time s = s.settled_at

module _ (config : BenchmarkConfig) where
  abbrev SettledKnown : EventKey × SettledCohort → Type 0
  SettledKnown e = IsCoin config e.0.coin

  abbrev BaseKnown : BaseKey × ℕ → Type 0
  BaseKnown e = IsCoin config e.0.coin

  -- There is room for one more settled key.
  record HasRoom (b0 b : Benchmark) : Type 0 where
    keeps : Keeps config b0 b
    room : length b.settled + 1 ≤ max 1 config.max_settled

  Inv-settled-remove :
      (b : Benchmark) (key : EventKey)
      → Inv config b
      → Inv config (record b { settled = remove EventKey_discrete key b.settled })
  Inv-settled-remove b key v = record {
    counters_known = v.counters_known;
    windows_known = v.windows_known;
    pending_valid = v.pending_valid;
    pending_cap = v.pending_cap;
    bases_known = v.bases_known;
    bases_cap = v.bases_cap;
    settled_known = All-remove EventKey_discrete SettledKnown key b.settled v.settled_known;
    settled_cap = omega (arith, length-remove-le EventKey_discrete key b.settled, v.settled_cap);
    rings = v.rings;
    sealed = v.sealed;
  }

  Inv-settled-insert :
      (b : Benchmark) (key : EventKey) (cohort : SettledCohort)
      → IsCoin config key.coin
      → length b.settled + 1 ≤ max 1 config.max_settled
      → Inv config b
      → Inv config (record b { settled = insert EventKey_discrete key cohort b.settled })
  Inv-settled-insert b key cohort known room v = record {
    counters_known = v.counters_known;
    windows_known = v.windows_known;
    pending_valid = v.pending_valid;
    pending_cap = v.pending_cap;
    bases_known = v.bases_known;
    bases_cap = v.bases_cap;
    settled_known =
        All-insert EventKey_discrete SettledKnown key cohort b.settled known v.settled_known;
    settled_cap = omega (arith, length-insert-le EventKey_discrete key cohort b.settled, room);
    rings = v.rings;
    sealed = v.sealed;
  }

  evict_oldest :
      (b0 b : Benchmark) (oldest : EventKey × SettledCohort) (now : ℕ)
      → min_by_key settled_time b.settled ≡ some oldest
      → Keeps config b0 b
      → Ensures (HasRoom b0) (
          with_window oldest.0.coin
            (evict_state now)
            (record b { settled = remove EventKey_discrete oldest.0 b.settled }))
  evict_oldest b0 b oldest now e k =
      let b1 : Benchmark = record b { settled = remove EventKey_discrete oldest.0 b.settled } in
      let found = contains_key-min_by_key EventKey_discrete settled_time b.settled e in
      let known = All-min_by_key SettledKnown settled_time b.settled k.inv.settled_known e in
      Ensures-mono (Frame config b1) (HasRoom b0) _
        (with_window-Frame config oldest.0.coin (evict_state now) b1 known
          (λ w r. evict_state-IsRing config.max_rolling_cohorts now w r)
          (Inv-settled-remove b oldest.0 k.inv))
        (λ c l. record {
          keeps = record {
            inv = l.keeps.inv;
            pending_same = l.keeps.pending_same ∙ k.pending_same;
            bases_same = l.keeps.bases_same ∙ k.bases_same;
          };
          room = omega (
            arith,
            ap length l.settled_same,
            length-remove-lt EventKey_discrete oldest.0 b.settled found,
            k.inv.settled_cap,
          );
        })

  settled_room-HasRoom :
      (now : ℕ) (b0 b : Benchmark)
      → Keeps config b0 b
      → Ensures (HasRoom b0) (settled_room config now b)
  unfolding settled_room
  settled_room-HasRoom now b0 b k = elim (Bool-cases (leb config.max_settled (length b.settled))) [
    | inr e ↦ rw e (record { keeps = k; room = ground arith })
    | inl e ↦ rw e (elim (Option-cases (min_by_key settled_time b.settled)) [
      | inl q ↦
          rw q (record {
            keeps = k;
            room = omega (arith, min_by_key-eq-none settled_time b.settled q);
          })
      | inr (oldest, q) ↦ rw q (evict_oldest b0 b oldest now q k)
    ])
  ]

  pub insert_settled-Keeps :
      (key : EventKey) (cohort : SettledCohort) (b0 b : Benchmark)
      → IsCoin config key.coin
      → Keeps config b0 b
      → Ensures (Keeps config b0) (insert_settled config key cohort b)
  unfolding insert_settled
  insert_settled-Keeps key cohort b0 b known k =
      Ensures->>= (HasRoom b0) (Keeps config b0) (settled_room config cohort.settled_at b) _
        (settled_room-HasRoom cohort.settled_at b0 b k)
        (λ c r. record {
          inv = Inv-settled-insert c key cohort known r.room r.keeps.inv;
          pending_same = r.keeps.pending_same;
          bases_same = r.keeps.bases_same;
        })
