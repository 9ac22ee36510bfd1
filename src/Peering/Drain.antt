-- ===== src/Peering/Drain.antt =====
-- src/peering.rs: `Assembly::drain_ready`, and the rounds and bundles that it forgets.
use hyperliquid_market_bench.Prelude.{
  ℕ, ◌+◌, ◌-◌, max, List, [], ◌∷◌, Option, none, some, Bool, true, false, if◌then◌else◌, ltb, leb,
  keep, add_u64, ◌>>=◌,
}
use hyperliquid_market_bench.Dict.{Map, get}
use hyperliquid_market_bench.Model.Keys.{MarketEvent}
use hyperliquid_market_bench.Model.Keys
use hyperliquid_market_bench.Peering.{
  round_retain, bundle_retain, incomplete_deadline, Sig, Sig_discrete, ReferenceRound, TrackedRound,
  Bundle, Assembly,
}

-- What a round of the assembly comes to: it waits, it is an event, or it is closed without one,
-- with its reference or its bundles at fault, or because the chain never named it.
pub data Closing : Type 0 where
  waits : Closing
  ready : MarketEvent → Closing
  no_ordering : Closing
  missing_bundle : Closing
  unnamed : Closing

abbrev pub overdue : ℕ → Option ℕ → Bool
overdue now none = false
overdue now (some seen) = ltb incomplete_deadline (now - seen)

abbrev pub later_arrival : ℕ × ℕ → Bundle → ℕ × ℕ
later_arrival at bundle = if ltb at.0 bundle.arrived then (bundle.arrived, bundle.wall_ms) else at

-- The last of the arrivals, or none where a bundle is missing.
unfoldable pub ready_at : List (Sig × Bundle) → ℕ × ℕ → List Sig → Option (ℕ × ℕ)
ready_at bundles at [] = some at
ready_at bundles at (sig ∷ sigs) =
    get Sig_discrete sig bundles >>= λ bundle. ready_at bundles (later_arrival at bundle) sigs

abbrev pub closing_event : Assembly → ℕ → ReferenceRound → ℕ × ℕ → MarketEvent
closing_event a round reference at = record {
  provider = a.provider;
  key = record { coin = a.coin; event_ms = reference.time_ms; content = Keys.peering round };
  received = at.0;
  received_wall_ms = at.1;
}

unfoldable pub close_complete : Assembly → ℕ → ℕ → ReferenceRound → Bool → Option (ℕ × ℕ) → Closing
close_complete a now round reference late none = if late then missing_bundle else waits
close_complete a now round reference late (some at) = ready (closing_event a round reference at)

unfoldable pub close_open :
    Assembly → ℕ → ℕ → Bool → Option (ℕ × ℕ) → Option ReferenceRound → Closing
close_open a now round late (some ordering) (some reference) =
    close_complete a now round reference late (ready_at a.bundles ordering reference.bundle_sigs)
close_open a now round late none (some reference) = if late then no_ordering else waits
close_open a now round late none none = if late then unnamed else waits
close_open a now round late (some ordering) none = if late then unnamed else waits

unfoldable pub close_round : Assembly → ℕ → ℕ → TrackedRound → Closing
close_round a now round tracked =
    if tracked.reported_gap
    then waits
    else close_open a now round (overdue now tracked.first_seen) tracked.ordering tracked.reference

unfoldable pub mark_reported : Closing → TrackedRound → TrackedRound
mark_reported waits tracked = tracked
mark_reported _ tracked = record tracked { reported_gap = true }

abbrev pub closing_of : Assembly → ℕ → ℕ × TrackedRound → Closing
closing_of a now entry = close_round a now entry.0 entry.1

-- The loop over the rounds; a round does not read what the loop counts.
unfoldable pub marked_rounds : Assembly → ℕ → Map ℕ TrackedRound → Map ℕ TrackedRound
marked_rounds a now [] = []
marked_rounds a now (e ∷ rounds) =
    (e.0, mark_reported (closing_of a now e) e.1) ∷ marked_rounds a now rounds

unfoldable pub add_ready : Closing → List MarketEvent → List MarketEvent
add_ready (ready event) events = event ∷ events
add_ready _ events = events

unfoldable pub ready_events : Assembly → ℕ → Map ℕ TrackedRound → List MarketEvent
ready_events a now [] = []
ready_events a now (e ∷ rounds) = add_ready (closing_of a now e) (ready_events a now rounds)

-- What one round adds to the gaps, and to each of the assembly's counters.
unfoldable pub is_no_ordering : Closing → ℕ
is_no_ordering no_ordering = 1
is_no_ordering _ = 0

unfoldable pub is_missing_bundle : Closing → ℕ
is_missing_bundle missing_bundle = 1
is_missing_bundle _ = 0

unfoldable pub is_ready : Closing → ℕ
is_ready (ready event) = 1
is_ready _ = 0

unfoldable pub tally : (Closing → ℕ) → Assembly → ℕ → Map ℕ TrackedRound → ℕ
tally f a now [] = 0
tally f a now (e ∷ rounds) = f (closing_of a now e) + tally f a now rounds

unfoldable pub high_water : Assembly → ℕ → Map ℕ TrackedRound → ℕ → ℕ
high_water a now [] high = high
high_water a now (e ∷ rounds) high =
    high_water a now rounds (elim (closing_of a now e) [ ready event ↦ max high e.0 | _ ↦ high ])

unfoldable pub prune : ℕ → Assembly → Assembly
prune now a = record a {
  rounds = keep (λ e. leb (a.max_ref_round - round_retain) e.0) a.rounds;
  bundles = keep (λ e. ltb (now - e.1.seen) bundle_retain) a.bundles;
}

-- The ready events and the count of gaps, and the assembly after it.
unfoldable pub drain_ready : ℕ → Assembly → (List MarketEvent × ℕ) × Assembly
drain_ready now a = (
  (
    ready_events a now a.rounds,
    tally is_no_ordering a now a.rounds + tally is_missing_bundle a now a.rounds,
  ),
  prune now (record a {
    rounds = marked_rounds a now a.rounds;
    emitted_high_water = high_water a now a.rounds a.emitted_high_water;
    gaps_no_ordering = add_u64 a.gaps_no_ordering (tally is_no_ordering a now a.rounds);
    gaps_missing_bundle = add_u64 a.gaps_missing_bundle (tally is_missing_bundle a now a.rounds);
    completed = add_u64 a.completed (tally is_ready a now a.rounds);
  }),
)
