-- ===== src/Benchmark/Refusals.antt =====
-- src/benchmark.rs: the events that `record_market` only counts.
use hyperliquid_market_bench.Prelude.{
  ◌<◌, ◌≡◌, refl, sym, ◌∙◌, subst, ◌⊎◌, inl, inr, Option, true, false, Ensures, Ensures->>=,
  Ensures-mono, Option-cases, Bool-cases, arith, ltb, ◌==◌, ◌>>=◌,
}
use hyperliquid_market_bench.Dict.{contains_key, get}
use hyperliquid_market_bench.Model.Provider.{contains}
use hyperliquid_market_bench.Model.Keys.{BaseKey_discrete, base, MarketEvent}
use hyperliquid_market_bench.Config.{BenchmarkConfig, providers}
use hyperliquid_market_bench.Benchmark.{
  Benchmark, ProviderCounters, mark_integrity_loss, lose_integrity,
}
use hyperliquid_market_bench.Benchmark.Count
use hyperliquid_market_bench.Benchmark.Record.{
  is_expired, record_settled, admit, reject, record_market,
}
use hyperliquid_market_bench.Benchmark.Invariant.{IsCoin, Inv}
use hyperliquid_market_bench.Benchmark.Keeps.{
  Keeps-refl, Keeps-trans, Frame, with_counters-Frame, with_window-Frame,
}

module _ (config : BenchmarkConfig) where
  Frame-trans :
      (b0 b1 b2 : Benchmark) → Frame config b0 b1 → Frame config b1 b2 → Frame config b0 b2
  Frame-trans b0 b1 b2 f g = record {
    keeps = Keeps-trans config b0 b1 b2 f.keeps g.keeps;
    settled_same = g.settled_same ∙ f.settled_same;
  }

  Frame->>= :
      (b0 b1 : Benchmark) (m : Option Benchmark)
      → Frame config b0 b1
      → Ensures (Frame config b1) m
      → Ensures (Frame config b0) m
  Frame->>= b0 b1 m f h =
      Ensures-mono (Frame config b1) (Frame config b0) m h (λ c g. Frame-trans b0 b1 c f g)

  reject-Frame :
      (event : MarketEvent) (count : ProviderCounters → ProviderCounters) (b : Benchmark)
      → IsCoin config event.key.coin
      → Inv config b
      → Ensures (Frame config b) (reject event count b)
  unfolding reject mark_integrity_loss
  reject-Frame event count b known v =
      Ensures->>= (Frame config b) (Frame config b) _ _
        (with_counters-Frame config event.provider event.key.coin count b known v)
        (λ c f. Frame->>= b c _ f (
          with_window-Frame config event.key.coin (lose_integrity event.received) c known
            (λ w r. record {
              cohorts_sorted = r.cohorts_sorted;
              coverage_sorted = r.coverage_sorted;
              cohorts_cap = r.cohorts_cap;
              coverage_cap = r.coverage_cap;
            })
            f.keeps.inv))

  -- The base of the event has been settled.
  abbrev pub IsSettled : MarketEvent → Benchmark → Type 0
  IsSettled event b = contains_key BaseKey_discrete (base event.key) b.settled_bases ≡ true

  not-is_expired :
      (event : MarketEvent) (b : Benchmark)
      → Inv config b
      → IsSettled event b
      → is_expired config event b ≡ false
  unfolding is_expired
  not-is_expired event b v h =
      elim (Option-cases (get BaseKey_discrete (base event.key) b.pending)) [
        | inl e ↦ rw (e, is_expired) refl
        | inr (p, e) ↦ absurd (ground (arith, v.sealed (base event.key) h))
      ]

  record_settled-Frame :
      (event : MarketEvent) (b : Benchmark)
      → IsCoin config event.key.coin
      → Inv config b
      → Ensures (Frame config b) (record_settled event b)
  unfolding record_settled
  record_settled-Frame event b known v =
      with_counters-Frame config event.provider event.key.coin _ b known v

  admit_settled-Frame :
      (event : MarketEvent) (b : Benchmark)
      → IsCoin config event.key.coin
      → Inv config b
      → IsSettled event b
      → Ensures (Frame config b) (admit config event b)
  unfolding admit
  admit_settled-Frame event b known v h =
      Ensures->>= (Frame config b) (Frame config b) _ _
        (with_counters-Frame config event.provider event.key.coin Count.observed b known v)
        λ c f.
          let same =
            subst (λ m. contains_key BaseKey_discrete (base event.key) m ≡ true)
              (sym f.keeps.bases_same) h in
          rw (not-is_expired event c f.keeps.inv same, ◌>>=◌, same)
            (Frame->>= b c _ f (record_settled-Frame event c known f.keeps.inv))

  -- What is wrong with an event that is only counted.
  abbrev pub Refused : MarketEvent → Benchmark → Type 0
  Refused event b =
      (contains (providers config) event.provider ≡ false)
      ⊎ ((event.key.event_ms ≡ 0)
          ⊎ ((event.received_wall_ms < event.key.event_ms) ⊎ IsSettled event b))

  -- From a state that satisfies the invariant, and for a registered coin, recording an event of a
  -- provider that the process does not compare, one without a timestamp, one that is stamped later
  -- than it was received, or one for a base that is settled does not panic, and leaves the pending
  -- bases and both tombstone maps as they are.
  pub record_market-Frame :
      (event : MarketEvent) (b : Benchmark)
      → IsCoin config event.key.coin
      → Inv config b
      → Refused event b
      → Ensures (Frame config b) (record_market config event b)
  unfolding record_market
  record_market-Frame event b known v h =
      elim (Bool-cases (contains (providers config) event.provider)) [
        | inr e ↦ rw e (record { keeps = Keeps-refl config b v; settled_same = refl })
        | inl e ↦ rw e (elim (Bool-cases (event.key.event_ms == 0)) [
          | inl z ↦ rw z (reject-Frame event _ b known v)
          | inr z ↦ rw z (elim (Bool-cases (ltb event.received_wall_ms event.key.event_ms)) [
            | inl f ↦ rw f (reject-Frame event _ b known v)
            | inr f ↦ rw f (admit_settled-Frame event b known v (ground arith))
          ])
        ])
      ]
