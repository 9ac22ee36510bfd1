-- ===== src/Benchmark/Lookup.antt =====
-- src/benchmark.rs: the arrivals that are stored under a base, a content and a provider, and how
-- `record_market` stores them.
use hyperliquid_market_bench.Prelude.{
  ◌≡◌, refl, ap, arith, ◌∙◌, inl, inr, Option, none, some, false, String, String_discrete, ◌>>=◌,
  Yields, Option-cases,
}
use mathlib.Core.Logic.{ite}
use hyperliquid_market_bench.Dict.{get}
use hyperliquid_market_bench.Dict.Laws.{get-insert}
use hyperliquid_market_bench.Model.Provider.{Provider}
use hyperliquid_market_bench.Model.Keys.{
  BaseKey, BaseKey_discrete, ContentKey, ContentKey_discrete, MarketEvent, base,
}
use hyperliquid_market_bench.Benchmark.{
  Benchmark, ProviderCounters, Observation, PendingCandidate, PendingBase, CoinWindow,
  with_counters, with_window,
}
use hyperliquid_market_bench.Benchmark.Record.{
  get_or, open_base, open_candidate, store_base, store_candidate, overflows,
}

abbrev pub arrival_at : Provider → Option PendingCandidate → Option Observation
arrival_at q none = none
arrival_at q (some c) = c.arrivals q

-- A provider's arrival for a content of a base.
abbrev pub arrival_in : ContentKey → Provider → PendingBase → Option Observation
arrival_in content q cohort = arrival_at q (get ContentKey_discrete content cohort.candidates)

abbrev pub arrival_for : ContentKey → Provider → Option PendingBase → Option Observation
arrival_for content q none = none
arrival_for content q (some cohort) = arrival_in content q cohort

abbrev pub arrival_of : BaseKey → ContentKey → Provider → Benchmark → Option Observation
arrival_of key content q b = arrival_for content q (get BaseKey_discrete key b.pending)

pub arrival_in-open_base :
    (event : MarketEvent) (b : Benchmark) (content : ContentKey) (q : Provider)
    → arrival_in content q (open_base event b) ≡ arrival_of (base event.key) content q b
unfolding get
arrival_in-open_base event b content q =
    elim (Option-cases (get BaseKey_discrete (base event.key) b.pending)) [
      | inl e ↦ rw e refl
      | inr (p, e) ↦ rw e refl
    ]

pub arrivals-open_candidate :
    (event : MarketEvent) (cohort : PendingBase) (q : Provider)
    → (open_candidate event cohort).arrivals q ≡ arrival_in event.key.content q cohort
arrivals-open_candidate event cohort q =
    elim (Option-cases (get ContentKey_discrete event.key.content cohort.candidates)) [
      | inl e ↦ rw e refl
      | inr (p, e) ↦ rw e refl
    ]

pub arrival_of-store_base :
    (event : MarketEvent) (cohort : PendingBase) (b : Benchmark) (content : ContentKey)
    (q : Provider)
    → arrival_of (base event.key) content q (store_base event cohort b)
      ≡ arrival_in content q cohort
arrival_of-store_base event cohort b content q =
    ap (arrival_for content q) {y = some cohort} (
      ground
        (arith, get-insert BaseKey_discrete (base event.key) (base event.key) cohort b.pending))

pub arrival_in-store_candidate :
    (event : MarketEvent) (candidate : PendingCandidate) (cohort : PendingBase)
    (content : ContentKey) (q : Provider)
    → arrival_in content q (store_candidate event candidate cohort)
      ≡ ite
          (ContentKey_discrete event.key.content content)
          (candidate.arrivals q)
          (arrival_in content q cohort)
arrival_in-store_candidate event candidate cohort content q =
    rw (get-insert ContentKey_discrete event.key.content content candidate cohort.candidates)
      (elim (ContentKey_discrete event.key.content content)
        as (λ d.
          arrival_at q (ite d (some candidate) (get ContentKey_discrete content cohort.candidates))
          ≡ ite d (candidate.arrivals q) (arrival_in content q cohort)) [
            | yes _ ↦ refl
            | no _ ↦ refl
          ])

-- An observation as the code stores it.
abbrev pub observation : MarketEvent → Observation
observation event = record { received = event.received; received_wall_ms = event.received_wall_ms }

-- No arrival of the base is lost or overwritten, and the event's provider has one for the event's
-- content: the one that was there, and else the event's own.
pub record Joins (event : MarketEvent) (b c : Benchmark) : Type 0 where
  pub kept :
      (content : ContentKey) (q : Provider) (o : Observation)
      → arrival_of (base event.key) content q b ≡ some o
      → arrival_of (base event.key) content q c ≡ some o
  pub joined :
      overflows event (open_base event b) ≡ false
      → arrival_of (base event.key) event.key.content event.provider c
        ≡ some (
            get_or
              (arrival_of (base event.key) event.key.content event.provider b)
              (observation event))

abbrev pub SamePending : Benchmark → Benchmark → Type 0
SamePending b c = c.pending ≡ b.pending

pub with_counters-SamePending :
    (p : Provider) (coin : String) (f : ProviderCounters → ProviderCounters) (b : Benchmark)
    → Yields (SamePending b) (with_counters p coin f b)
unfolding with_counters
with_counters-SamePending p coin f b = elim (Option-cases (get String_discrete coin b.counters)) [
  | inl e ↦ rw (e, ◌>>=◌) tt
  | inr (row, e) ↦ rw (e, ◌>>=◌) refl
]

pub with_window-SamePending :
    (coin : String) (f : CoinWindow → CoinWindow) (b : Benchmark)
    → Yields (SamePending b) (with_window coin f b)
unfolding with_window
with_window-SamePending coin f b = elim (Option-cases (get String_discrete coin b.windows)) [
  | inl e ↦ rw (e, ◌>>=◌) tt
  | inr (row, e) ↦ rw (e, ◌>>=◌) refl
]

pub Joins-SamePending :
    (event : MarketEvent) (b c d : Benchmark) → Joins event b c → SamePending c d → Joins event b d
Joins-SamePending event b c d j e = record {
  kept = λ content q o h.
      ap (λ m. arrival_for content q (get BaseKey_discrete (base event.key) m)) e
      ∙ j.kept content q o h;
  joined = λ h.
      ap
        (λ m.
          arrival_for event.key.content event.provider (get BaseKey_discrete (base event.key) m))
        e
      ∙ j.joined h;
}
