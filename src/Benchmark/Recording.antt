-- ===== src/Benchmark/Recording.antt =====
-- src/benchmark.rs: `record` never panics on a registered coin, and keeps the invariant.
use hyperliquid_market_bench.Prelude.{
  ◌≤◌, ◌≡◌, inl, inr, some, Bool, false, length, is_some, Ensures, Ensures->>=, Ensures-mono,
  Option-cases, Bool-cases, arith, if◌then◌else◌, ◌==◌, ltb, leb, not, ◌&&◌,
}
use hyperliquid_market_bench.Dict.{Map, get, contains_key, insert}
use hyperliquid_market_bench.Dict.Laws.{All-get, length-insert-le, length-insert_present}
use hyperliquid_market_bench.Model.Provider.{contains}
use hyperliquid_market_bench.Model.Keys.{
  ContentKey, ContentKey_discrete, BaseKey, BaseKey_discrete, base, MarketEvent,
}
use hyperliquid_market_bench.Config.{BenchmarkConfig, providers}
use hyperliquid_market_bench.Benchmark.{
  Benchmark, ProviderCounters, PendingBase, PendingCandidate, with_counters, mark_integrity_loss,
  lose_integrity, max_signatures_per_base,
}
use hyperliquid_market_bench.Benchmark.Count
use hyperliquid_market_bench.Benchmark.Settle.{settle}
use hyperliquid_market_bench.Benchmark.Record.{
  is_expired, record_settled, open_base, open_candidate, store_candidate, observe, overflows,
  join_cohort, admit, future_counter, reject, record_market,
}
use hyperliquid_market_bench.Benchmark.Invariant.{IsCoin, IsPending, Inv}
use hyperliquid_market_bench.Benchmark.Keeps.{
  Keeps, Keeps-refl, with_counters-Keeps, with_window-Keeps,
}
use hyperliquid_market_bench.Benchmark.Settling.{Settles, settle-Settles}
use hyperliquid_market_bench.Benchmark.Room.{HasRoom, make_room-HasRoom, store_base-Inv}

-- The candidates of a base after one more content, or one that was there.
length-insert_content :
    (content : ContentKey) (c : PendingCandidate) (m : Map ContentKey PendingCandidate)
    → length m ≤ max_signatures_per_base
    → (not (contains_key ContentKey_discrete content m) && leb max_signatures_per_base (length m))
      ≡ false
    → length (insert ContentKey_discrete content c m) ≤ max_signatures_per_base
length-insert_content content c m h o = ground (
  arith,
  length-insert-le ContentKey_discrete content c m,
  length-insert_present ContentKey_discrete content c m,
)

module _ (config : BenchmarkConfig) (event : MarketEvent)
    (known : IsCoin config event.key.coin) where
  signatures_of_found :
      (b : Benchmark)
      → Inv config b
      → length (open_base event b).candidates ≤ max_signatures_per_base
  signatures_of_found b v = elim (Option-cases (get BaseKey_discrete (base event.key) b.pending)) [
    | inl e ↦ rw e (omega arith)
    | inr (p, e) ↦
        rw e
          (All-get BaseKey_discrete (λ (x : BaseKey × PendingBase). IsPending config x.0 x.1)
            (base event.key) p b.pending v.pending_valid e).signatures
  ]

  counted :
      (f : ProviderCounters → ProviderCounters) (b : Benchmark)
      → Inv config b
      → Ensures (Inv config) (with_counters event.provider event.key.coin f b)
  counted f b v =
      Ensures-mono (Keeps config b) (Inv config) _
        (with_counters-Keeps config event.provider event.key.coin f b b known
          (Keeps-refl config b v))
        (λ c k. k.inv)

  marked :
      (b : Benchmark)
      → Inv config b
      → Ensures (Inv config) (mark_integrity_loss event.key.coin event.received b)
  unfolding mark_integrity_loss
  marked b v =
      Ensures-mono (Keeps config b) (Inv config) _
        (with_window-Keeps config event.key.coin (lose_integrity event.received) b b known
          (λ w r. record {
            cohorts_sorted = r.cohorts_sorted;
            coverage_sorted = r.coverage_sorted;
            cohorts_cap = r.cohorts_cap;
            coverage_cap = r.coverage_cap;
          })
          (Keeps-refl config b v))
        (λ c k. k.inv)

  settled_inv :
      (evicted : Bool) (b : Benchmark)
      → Inv config b
      → Ensures (Inv config) (settle config (base event.key) event.received evicted b)
  settled_inv evicted b v =
      Ensures-mono (Settles config (base event.key) b) (Inv config) _
        (settle-Settles config (base event.key) event.received evicted b v) (λ c s. s.inv)

  join_cohort-Inv :
      (b : Benchmark)
      → HasRoom config event known b
      → Ensures (Inv config) (join_cohort config event b)
  unfolding join_cohort
  join_cohort-Inv b r =
      let cohort = open_base event b in
      let candidate = open_candidate event cohort in
      let few = signatures_of_found b r.inv in
      let more = λ (c : PendingCandidate) (o : overflows event cohort ≡ false).
        store_base-Inv config event known b (store_candidate event c cohort) r
          (length-insert_content event.key.content c cohort.candidates few o) in
      elim (Bool-cases (overflows event cohort)) [
        | inl o ↦ rw o (
            Ensures->>= (Inv config) (Inv config) _ _
              (counted Count.signature_overflow _
                (store_base-Inv config event known b cohort r few))
              marked)
        | inr o ↦ rw o (elim (Bool-cases (is_some (candidate.arrivals event.provider))) [
          | inl d ↦ rw d (counted Count.duplicate _ (more candidate o))
          | inr d ↦ rw d (elim (Bool-cases (length (providers config) == 1)) [
            | inl one ↦ rw one (settled_inv false _ (more (observe event candidate) o))
            | inr many ↦ rw many (more (observe event candidate) o)
          ])
        ])
      ]

  expired_settled :
      (b : Benchmark)
      → Inv config b
      → Ensures (Inv config) (
          if is_expired config event b
          then settle config (base event.key) event.received false b
          else some b)
  expired_settled b v = elim (Bool-cases (is_expired config event b)) [
    | inl e ↦ rw e (settled_inv false b v)
    | inr e ↦ rw e v
  ]

  admit-Inv : (b : Benchmark) → Inv config b → Ensures (Inv config) (admit config event b)
  unfolding admit record_settled
  admit-Inv b v = Ensures->>= (Inv config) (Inv config) _ _ (counted Count.observed b v) λ b1 v1.
      Ensures->>= (Inv config) (Inv config)
        (if is_expired config event b1
          then settle config (base event.key) event.received false b1
          else some b1)
        _ (expired_settled b1 v1)
        λ b2 v2.
          elim (Bool-cases (contains_key BaseKey_discrete (base event.key) b2.settled_bases)) [
            | inl e ↦ rw e (counted _ b2 v2)
            | inr e ↦ rw e (
                Ensures->>= (HasRoom config event known) (Inv config) _ _
                  (make_room-HasRoom config event known b2 v2 e) join_cohort-Inv)
          ]

  reject-Inv :
      (f : ProviderCounters → ProviderCounters) (b : Benchmark)
      → Inv config b
      → Ensures (Inv config) (reject event f b)
  unfolding reject
  reject-Inv f b v = Ensures->>= (Inv config) (Inv config) _ _ (counted f b v) marked

  pub record_market-Inv :
      (b : Benchmark) → Inv config b → Ensures (Inv config) (record_market config event b)
  unfolding record_market
  record_market-Inv b v = elim (Bool-cases (contains (providers config) event.provider)) [
    | inr e ↦ rw e v
    | inl e ↦ rw e (elim (Bool-cases (event.key.event_ms == 0)) [
      | inl z ↦ rw z (reject-Inv Count.future_timestamp b v)
      | inr z ↦ rw z (elim (Bool-cases (ltb event.received_wall_ms event.key.event_ms)) [
        | inl f ↦ rw f (reject-Inv (future_counter event) b v)
        | inr f ↦ rw f (admit-Inv b v)
      ])
    ])
  ]
