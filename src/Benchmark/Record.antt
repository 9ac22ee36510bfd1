-- ===== src/Benchmark/Record.antt =====
-- src/benchmark.rs: `record`, `record_market`, `tick` and `prune`.
use hyperliquid_market_bench.Prelude.{
  ℕ, ◌-◌, Option, none, some, Bool, true, false, not, ◌&&◌, if◌then◌else◌, ltb, leb, ◌==◌, min,
  length, keep, is_some, ◌>>=◌, for_each,
}
use hyperliquid_market_bench.Dict.{map_values, get, contains_key, insert, min_by_key}
use hyperliquid_market_bench.Model.Provider.{Provider, set, index, contains}
use hyperliquid_market_bench.Model.Keys.{
  EventKey, BaseKey, ContentKey_discrete, EventKey_discrete, BaseKey_discrete, base, MarketEvent,
  ProbeEvent, market, reconnect, sequence_gap, replay,
}
use hyperliquid_market_bench.Config.{BenchmarkConfig, providers}
use hyperliquid_market_bench.Benchmark.{
  Benchmark, ProviderCounters, PendingCandidate, PendingBase, new_candidate, new_base,
  with_counters, mark_integrity_loss, max_future_skew_ms, max_signatures_per_base,
}
use hyperliquid_market_bench.Benchmark.Count
use hyperliquid_market_bench.Benchmark.Windows.{prune_window, within}
use hyperliquid_market_bench.Benchmark.Settle.{settle}
use hyperliquid_market_bench.Benchmark.Arrivals.{has_bit}

abbrev pub get_or {ℓ} : {A : Type ℓ} → Option A → A → A
get_or none d = d
get_or (some a) d = a

-- `settled.get(key)` has the provider's bit.
unfoldable pub matched_before : EventKey → Provider → Benchmark → Bool
matched_before key provider b = elim (get EventKey_discrete key b.settled) [
  | none ↦ false
  | some cohort ↦ has_bit cohort.matched_mask (index provider)
]

-- The event's base has been settled already.
unfoldable pub record_settled : MarketEvent → Benchmark → Option Benchmark
record_settled event b =
    with_counters event.provider event.key.coin
      (if matched_before event.key event.provider b then Count.duplicate else Count.late) b

-- The base and the candidate that the event belongs to, with the earliest receipts.
abbrev pub open_base : MarketEvent → Benchmark → PendingBase
open_base event b =
    let found =
      get_or (get BaseKey_discrete (base event.key) b.pending) (new_base event.received) in
    record found { first_observed = min found.first_observed event.received }

abbrev pub open_candidate : MarketEvent → PendingBase → PendingCandidate
open_candidate event cohort =
    let found =
      get_or (get ContentKey_discrete event.key.content cohort.candidates)
        (new_candidate event.received) in
    record found { first_observed = min found.first_observed event.received }

abbrev pub store_base : MarketEvent → PendingBase → Benchmark → Benchmark
store_base event cohort b = record b {
  pending = insert BaseKey_discrete (base event.key) cohort b.pending;
}

abbrev pub store_candidate : MarketEvent → PendingCandidate → PendingBase → PendingBase
store_candidate event candidate cohort = record cohort {
  candidates = insert ContentKey_discrete event.key.content candidate cohort.candidates;
}

abbrev pub observe : MarketEvent → PendingCandidate → PendingCandidate
observe event candidate = record candidate {
  arrivals =
      set candidate.arrivals event.provider
        (some (record { received = event.received; received_wall_ms = event.received_wall_ms }));
}

-- The base holds as many contents as it may, and this is another.
abbrev pub overflows : MarketEvent → PendingBase → Bool
overflows event cohort =
    not (contains_key ContentKey_discrete event.key.content cohort.candidates)
    && leb max_signatures_per_base (length cohort.candidates)

-- The counter for an event stamped later than it was received.
abbrev pub future_counter : MarketEvent → (ProviderCounters → ProviderCounters)
future_counter event =
    if ltb max_future_skew_ms (event.key.event_ms - event.received_wall_ms)
    then Count.future_timestamp
    else Count.negative_latency

unfoldable pub reject :
    MarketEvent → (ProviderCounters → ProviderCounters) → Benchmark → Option Benchmark
reject event counter b = do
  b ← with_counters event.provider event.key.coin counter b
  mark_integrity_loss event.key.coin event.received b

module _ (config : BenchmarkConfig) where
  -- The deadline of the base has passed when the event arrives.
  unfoldable pub is_expired : MarketEvent → Benchmark → Bool
  is_expired event b = elim (get BaseKey_discrete (base event.key) b.pending) [
    | none ↦ false
    | some pending ↦ leb config.cohort_timeout (event.received - pending.first_observed)
  ]

  -- The event opens a new base, and the map of bases is full.
  abbrev pub is_full : MarketEvent → Benchmark → Bool
  is_full event b =
      not (contains_key BaseKey_discrete (base event.key) b.pending)
      && leb config.max_pending (length b.pending)

  -- A new base settles the oldest one when the map is full.
  unfoldable pub make_room : MarketEvent → Benchmark → Option Benchmark
  make_room event b =
      if is_full event b
      then (elim (min_by_key (λ (p : PendingBase). p.first_observed) b.pending) [
        | none ↦ some b
        | some oldest ↦ settle config oldest.0 event.received true b
      ])
      else some b

  -- The event joins its candidate; a single source settles at once.
  unfoldable pub join_cohort : MarketEvent → Benchmark → Option Benchmark
  join_cohort event b =
      let cohort = open_base event b in
      let candidate = open_candidate event cohort in
      let coin = event.key.coin in
      if overflows event cohort
      then (do
        b ← with_counters event.provider coin Count.signature_overflow (store_base event cohort b)
        mark_integrity_loss coin event.received b)
      else if is_some (candidate.arrivals event.provider)
      then with_counters event.provider coin Count.duplicate
          (store_base event (store_candidate event candidate cohort) b)
      else (let b = store_base event (store_candidate event (observe event candidate) cohort) b in
          if length (providers config) == 1
          then settle config (base event.key) event.received false b
          else some b)

  -- `record_market` behind its checks of the timestamp.
  unfoldable pub admit : MarketEvent → Benchmark → Option Benchmark
  admit event b = do
    b ← with_counters event.provider event.key.coin Count.observed b
    b ← if is_expired event b then settle config (base event.key) event.received false b else some b
    if contains_key BaseKey_discrete (base event.key) b.settled_bases
        then record_settled event b
        else (do b ← make_room event b; join_cohort event b)

  unfoldable pub record_market : MarketEvent → Benchmark → Option Benchmark
  record_market event b =
      if not (contains (providers config) event.provider)
      then some b
      else if event.key.event_ms == 0
      then reject event Count.future_timestamp b
      else if ltb event.received_wall_ms event.key.event_ms
      then reject event (future_counter event) b
      else admit event b

  unfoldable pub record_event : ProbeEvent → Benchmark → Option Benchmark
  record_event (market event) b = record_market event b
  record_event (reconnect provider coin) b = with_counters provider coin Count.reconnects b
  record_event (sequence_gap provider coin missing) b =
      with_counters provider coin (Count.sequence_gaps missing) b
  record_event (replay provider coin messages has_gap) b =
      with_counters provider coin (Count.replay messages has_gap) b

  abbrev pub has_expired : ℕ → BaseKey × PendingBase → Bool
  has_expired now e = leb config.cohort_timeout (now - e.1.first_observed)

  unfoldable pub prune : ℕ → Benchmark → Benchmark
  prune now b = record b {
    settled_bases = keep (λ e. within config.rolling_window now e.1) b.settled_bases;
    settled = keep (λ e. within config.rolling_window now e.1.settled_at) b.settled;
    windows = map_values (prune_window config.rolling_window now) b.windows;
  }

  unfoldable pub tick : ℕ → Benchmark → Option Benchmark
  tick now b = do
    let expired = keep (has_expired now) b.pending
    b ← for_each (λ e. settle config e.0 now false) expired b
    some (prune now b)
