-- ===== src/Benchmark/Joining.antt =====
-- src/benchmark.rs: an accepted event joins its candidate, and the first arrival of a provider
-- stands.
use hyperliquid_market_bench.Prelude.{
  ◌≤◌, ◌<◌, ◌≡◌, refl, sym, subst, arith, inl, inr, Option, some, true, false, String,
  String_discrete, ◌>>=◌, Ensures, Yields, Yields->>=, Yields-mono, Ensures-Yields, Option-cases,
  Bool-cases, if◌then◌else◌, ◌==◌, ltb, length,
}
use hyperliquid_market_bench.Dict.{Map, get, contains_key}
use hyperliquid_market_bench.Model.Provider.{Provider, Row, contains}
use hyperliquid_market_bench.Model.Keys.{BaseKey_discrete, MarketEvent, base}
use hyperliquid_market_bench.Config.{BenchmarkConfig, providers}
use hyperliquid_market_bench.Benchmark.{
  Benchmark, ProviderCounters, with_counters, mark_integrity_loss, lose_integrity,
}
use hyperliquid_market_bench.Benchmark.Count
use hyperliquid_market_bench.Benchmark.Settle.{settle}
use hyperliquid_market_bench.Benchmark.Record.{
  open_base, open_candidate, overflows, join_cohort, is_expired, is_full, make_room, admit,
  record_market, record_settled,
}
use hyperliquid_market_bench.Benchmark.Invariant.{IsCoin, Inv}
use hyperliquid_market_bench.Benchmark.Recording.{record_market-Inv}
use hyperliquid_market_bench.Benchmark.Lookup.{
  Joins, SamePending, with_counters-SamePending, with_window-SamePending, Joins-SamePending,
}
use hyperliquid_market_bench.Benchmark.Stored.{overflow-Joins, duplicate-Joins, observe-Joins}

module _ (config : BenchmarkConfig) (event : MarketEvent) where
  counted-Joins :
      (count : ProviderCounters → ProviderCounters) (b c : Benchmark)
      → Joins event b c
      → Yields (Joins event b) (with_counters event.provider event.key.coin count c)
  counted-Joins count b c j =
      Yields-mono (SamePending c) (Joins event b) _
        (with_counters-SamePending event.provider event.key.coin count c)
        (λ d e. Joins-SamePending event b c d j e)

  join_cohort-Joins :
      (b : Benchmark)
      → (length (providers config) == 1) ≡ false
      → Yields (Joins event b) (join_cohort config event b)
  unfolding join_cohort mark_integrity_loss
  join_cohort-Joins b many =
      let cohort = open_base event b in
      let candidate = open_candidate event cohort in
      elim (Bool-cases (overflows event cohort)) [
        | inl e ↦ rw e (
            Yields->>= (Joins event b) (Joins event b) _ _
              (counted-Joins Count.signature_overflow b _ (overflow-Joins event b e))
              (λ c j.
                Yields-mono (SamePending c) (Joins event b) _
                  (with_window-SamePending event.key.coin (lose_integrity event.received) c)
                  (λ d s. Joins-SamePending event b c d j s)))
        | inr e ↦ rw e (elim (Option-cases (candidate.arrivals event.provider)) [
          | inr (o, q) ↦ rw q (counted-Joins Count.duplicate b _ (duplicate-Joins event b o q))
          | inl q ↦ rw (q, many) (observe-Joins event b q)
        ])
      ]

  -- An event that counts: its provider is one of several that are compared, its timestamp is there
  -- and not later than its receipt, its base is not settled, its deadline has not passed, and
  -- there is room for it.
  pub record Accepted (b : Benchmark) : Type 0 where
    pub compared : (length (providers config) == 1) ≡ false
    pub listed : contains (providers config) event.provider ≡ true
    pub timed : 0 < event.key.event_ms
    pub received : event.key.event_ms ≤ event.received_wall_ms
    pub open_base : contains_key BaseKey_discrete (base event.key) b.settled_bases ≡ false
    pub in_time : is_expired config event b ≡ false
    pub room : is_full config event b ≡ false

  abbrev Counted : Benchmark → Benchmark → Type 0
  Counted b c = (m : Map String (Row ProviderCounters)) × (c ≡ record b { counters = m })

  with_counters-Counted :
      (p : Provider) (coin : String) (f : ProviderCounters → ProviderCounters) (b : Benchmark)
      → Yields (Counted b) (with_counters p coin f b)
  unfolding with_counters
  with_counters-Counted p coin f b = elim (Option-cases (get String_discrete coin b.counters)) [
    | inl e ↦ rw (e, ◌>>=◌) tt
    | inr (row, e) ↦ rw (e, ◌>>=◌) (_, refl)
  ]

  abbrev rest_of_admit : Benchmark → Option Benchmark
  rest_of_admit c =
      (if is_expired config event c
        then settle config (base event.key) event.received false c
        else some c)
      >>= λ c.
          if contains_key BaseKey_discrete (base event.key) c.settled_bases
          then record_settled event c
          else (make_room config event c >>= join_cohort config event)

  -- The counters are not read.
  in_time-recounted :
      (b : Benchmark) (m : Map String (Row ProviderCounters))
      → is_expired config event b ≡ false
      → is_expired config event (record b { counters = m }) ≡ false
  unfolding is_expired
  in_time-recounted b m h = h

  Joins-recounted :
      (b d : Benchmark) (m : Map String (Row ProviderCounters))
      → Joins event (record b { counters = m }) d
      → Joins event b d
  Joins-recounted b d m j = record { kept = j.kept; joined = j.joined }

  room-recounted :
      (b : Benchmark) (m : Map String (Row ProviderCounters))
      → is_full config event b ≡ false
      → make_room config event (record b { counters = m }) ≡ some (record b { counters = m })
  unfolding make_room
  room-recounted b m h = rw h refl

  rest-Joins :
      (b : Benchmark) (m : Map String (Row ProviderCounters))
      → Accepted b
      → Yields (Joins event b) (rest_of_admit (record b { counters = m }))
  rest-Joins b m a =
      rw (in_time-recounted b m a.in_time, ◌>>=◌, a.open_base, room-recounted b m a.room)
        (Yields-mono (Joins event (record b { counters = m })) (Joins event b) _
          (join_cohort-Joins (record b { counters = m }) a.compared)
          (λ d j. Joins-recounted b d m j))

  admit-Joins : (b : Benchmark) → Accepted b → Yields (Joins event b) (admit config event b)
  unfolding admit
  admit-Joins b a =
      Yields->>= (Counted b) (Joins event b) _ _
        (with_counters-Counted event.provider event.key.coin Count.observed b)
        (λ c (m, e).
          subst (λ x. Yields (Joins event b) (rest_of_admit x)) (sym e) (rest-Joins b m a))

  -- From a state that satisfies the invariant, recording an event that counts does not panic, for
  -- a registered coin. It counts if its process compares several providers and its own is one of
  -- them, if its timestamp is there and not later than its receipt, and if its base is not settled,
  -- not past its deadline, and pending already or not kept out by a full map. No arrival of the base
  -- is lost or overwritten, and the event's provider has an arrival for the event's content
  -- afterwards, the one that was there or else the event's own receipt, unless the base holds four
  -- other contents already.
  pub record_market-Joins :
      (b : Benchmark)
      → IsCoin config event.key.coin
      → Inv config b
      → Accepted b
      → Ensures (Joins event b) (record_market config event b)
  unfolding record_market
  record_market-Joins b known v a =
      Ensures-Yields (Inv config) (Joins event b) _ (record_market-Inv config event known b v)
        (rw (a.listed, untimed, not_early) (admit-Joins b a))
    where
      untimed : (event.key.event_ms == 0) ≡ false
      untimed = ground (arith, a.timed)

      not_early : ltb event.received_wall_ms event.key.event_ms ≡ false
      not_early = ground (arith, a.received)
