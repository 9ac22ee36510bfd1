-- ===== src/Peering/Closes.antt =====
-- src/peering.rs: when a round is an event, when it is a gap, and that it is closed once.
use hyperliquid_market_bench.Prelude.{
  ℕ, ◌≤◌, ◌≡◌, ◌⊎◌, List, [], ◌∷◌, none, some, true, false, All, is_some,
}
use hyperliquid_market_bench.Dict.{get}
use hyperliquid_market_bench.Peering.{
  Sig, Sig_discrete, ReferenceRound, TrackedRound, Bundle, Assembly,
}
use hyperliquid_market_bench.Peering.Drain.{
  Closing, waits, ready, no_ordering, missing_bundle, unnamed, overdue, closing_event,
}

abbrev pub Arrived : List (Sig × Bundle) → ℕ → Sig → Type 0
Arrived bundles by sig =
    (bundle : Bundle) × (get Sig_discrete sig bundles ≡ some bundle) × (bundle.arrived ≤ by)

-- The ordering and every named bundle have arrived by an instant, which is the arrival of one of
-- them, with its wall clock.
abbrev pub IsLast : List (Sig × Bundle) → ℕ × ℕ → List Sig → ℕ × ℕ → Type 0
IsLast bundles ordering sigs at =
    (ordering.0 ≤ at.0)
    × All (Arrived bundles at.0) sigs
    × ((at ≡ ordering)
        ⊎ ((sig : Sig) × (bundle : Bundle) × (get Sig_discrete sig bundles ≡ some bundle)
            × (at ≡ (bundle.arrived, bundle.wall_ms))))

abbrev pub Missing : List (Sig × Bundle) → List Sig → Type 0
Missing bundles [] = ⊥
Missing bundles (sig ∷ sigs) = (get Sig_discrete sig bundles ≡ none) ⊎ Missing bundles sigs

-- A round has no ordering yet, or no reference, or misses a bundle that its reference names.
abbrev pub IsIncomplete : Assembly → TrackedRound → Type 0
IsIncomplete a tracked =
    (tracked.ordering ≡ none)
    ⊎ ((tracked.reference ≡ none)
        ⊎ ((reference : ReferenceRound) × (tracked.reference ≡ some reference)
            × Missing a.bundles reference.bundle_sigs))

-- What each closing says of the round.
abbrev pub Closes : Assembly → ℕ → ℕ → TrackedRound → Closing → Type 0
Closes a now round tracked waits =
    (tracked.reported_gap ≡ true)
    ⊎ ((overdue now tracked.first_seen ≡ false) × IsIncomplete a tracked)
Closes a now round tracked (ready event) =
    (ordering : ℕ × ℕ) × (reference : ReferenceRound) × (tracked.reported_gap ≡ false)
    × (tracked.ordering ≡ some ordering)
    × (tracked.reference ≡ some reference)
    × (event ≡ closing_event a round reference (event.received, event.received_wall_ms))
    × IsLast a.bundles ordering reference.bundle_sigs (event.received, event.received_wall_ms)
Closes a now round tracked no_ordering =
    (tracked.reported_gap ≡ false)
    × (overdue now tracked.first_seen ≡ true)
    × (tracked.ordering ≡ none)
    × (is_some tracked.reference ≡ true)
Closes a now round tracked missing_bundle =
    (reference : ReferenceRound) × (tracked.reported_gap ≡ false)
    × (overdue now tracked.first_seen ≡ true)
    × (is_some tracked.ordering ≡ true)
    × (tracked.reference ≡ some reference)
    × Missing a.bundles reference.bundle_sigs
Closes a now round tracked unnamed =
    (tracked.reported_gap ≡ false)
    × (overdue now tracked.first_seen ≡ true)
    × (tracked.reference ≡ none)
