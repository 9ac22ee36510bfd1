-- ===== src/Peering/Drained.antt =====
-- src/peering.rs: `drain_ready` closes each round once.
use hyperliquid_market_bench.Prelude.{
  ℕ, ◌≡◌, ◌≢◌, ◌∙◌, refl, ap, sym, inl, inr, List, [], ◌∷◌, Option, none, some, Bool, true, false,
  if◌then◌else◌, if_elim, keep, All, All-keep, Option-cases, arith, is_some,
}
use hyperliquid_market_bench.Dict.{Map, get}
use hyperliquid_market_bench.Dict.Laws.{contains_key-keep}
use hyperliquid_market_bench.Peering.{
  Sig, Sig_discrete, ReferenceRound, TrackedRound, Bundle, Assembly,
}
use hyperliquid_market_bench.Peering.Drain.{
  Closing, waits, ready, no_ordering, missing_bundle, unnamed, overdue, later_arrival, ready_at,
  close_complete, close_open, close_round, mark_reported, closing_of, marked_rounds, add_ready,
  ready_events, is_no_ordering, is_missing_bundle, tally, prune, drain_ready,
}

module _ (p : Sig × Bundle → Bool) (bundles : List (Sig × Bundle)) where
  get-keep-none :
      (sig : Sig)
      → get Sig_discrete sig bundles ≡ none
      → get Sig_discrete sig (keep p bundles) ≡ none
  get-keep-none sig h = elim (Option-cases (get Sig_discrete sig (keep p bundles))) [
    | inl e ↦ e
    | inr (b, e) ↦
        let there = contains_key-keep Sig_discrete p sig bundles (ap is_some e) in
        absurd (ground (arith, there, ap is_some h))
  ]

  -- What was missing is missing among fewer bundles.
  ready_at-keep-none :
      (sigs : List Sig) (at later : ℕ × ℕ)
      → ready_at bundles at sigs ≡ none
      → ready_at (keep p bundles) later sigs ≡ none
  unfolding ready_at
  ready_at-keep-none [] at later h = cc
  ready_at-keep-none (sig ∷ sigs) at later h = elim (Option-cases (get Sig_discrete sig bundles)) [
    | inl e ↦ rw (get-keep-none sig e) refl
    | inr (b, e) ↦ elim (Option-cases (get Sig_discrete sig (keep p bundles))) [
      | inl f ↦ rw f refl
      | inr (c, f) ↦
          rw f (ready_at-keep-none sigs (later_arrival at b) (later_arrival later c) (rw e at h))
    ]
  ]

module _ (a b : Assembly) (p : Sig × Bundle → Bool) (fewer : b.bundles ≡ keep p a.bundles) where
  waits_late :
      (late : Bool) (closing : Closing)
      → closing ≢ waits
      → (if late then closing else waits) ≡ waits
      → late ≡ false
  waits_late true closing n h = absurd (n h)
  waits_late false closing n h = refl

  complete-waits :
      (now round : ℕ) (reference : ReferenceRound) (late : Bool) (found : Option (ℕ × ℕ))
      → close_complete a now round reference late found ≡ waits
      → (found ≡ none) × (late ≡ false)
  unfolding close_complete
  complete-waits now round reference late none h =
      (refl, waits_late late missing_bundle (λ e. cc) h)
  complete-waits now round reference late (some at) h = cc

  -- A round that waits goes on waiting at the same instant.
  open-waits :
      (now round : ℕ) (late : Bool) (ordering : Option (ℕ × ℕ)) (reference : Option ReferenceRound)
      → close_open a now round late ordering reference ≡ waits
      → close_open b now round late ordering reference ≡ waits
  unfolding close_open close_complete
  open-waits now round late (some ordering) (some reference) h =
      let w =
        complete-waits now round reference late (ready_at a.bundles ordering reference.bundle_sigs)
          h in
      let none_left : ready_at b.bundles ordering reference.bundle_sigs ≡ none =
        ap (λ m. ready_at m ordering reference.bundle_sigs) fewer
        ∙ ready_at-keep-none p a.bundles reference.bundle_sigs ordering ordering w.0 in
      rw (none_left, w.1) refl
  open-waits now round late none (some reference) h = h
  open-waits now round late none none h = h
  open-waits now round late (some ordering) none h = h

  marked-waits :
      (now round : ℕ) (tracked : TrackedRound) (closing : Closing)
      → close_round a now round tracked ≡ closing
      → close_round b now round (mark_reported closing tracked) ≡ waits
  unfolding close_round mark_reported
  marked-waits now round tracked waits h =
      if_elim (λ c. c ≡ waits) tracked.reported_gap waits _ (λ e. refl)
        (λ e.
          open-waits now round (overdue now tracked.first_seen) tracked.ordering tracked.reference (
            ap
              (λ t.
                if t
                then waits
                else close_open a now round (overdue now tracked.first_seen) tracked.ordering
                    tracked.reference)
              (sym e)
            ∙ h))
  marked-waits now round tracked (ready event) h = refl
  marked-waits now round tracked no_ordering h = refl
  marked-waits now round tracked missing_bundle h = refl
  marked-waits now round tracked unnamed h = refl

  marked_rounds-waits :
      (now : ℕ) (rounds : Map ℕ TrackedRound)
      → All (λ e. closing_of b now e ≡ waits) (marked_rounds a now rounds)
  unfolding marked_rounds
  marked_rounds-waits now [] = tt
  marked_rounds-waits now (e ∷ rounds) =
      (marked-waits now e.0 e.1 (closing_of a now e) refl, marked_rounds-waits now rounds)

ready_events-waits :
    (b : Assembly) (now : ℕ) (rounds : Map ℕ TrackedRound)
    → All (λ e. closing_of b now e ≡ waits) rounds
    → ready_events b now rounds ≡ []
unfolding ready_events add_ready
ready_events-waits b now [] h = refl
ready_events-waits b now (e ∷ rounds) h =
    ap (λ c. add_ready c (ready_events b now rounds)) h.0 ∙ ready_events-waits b now rounds h.1

tally-waits :
    (f : Closing → ℕ) (b : Assembly) (now : ℕ) (rounds : Map ℕ TrackedRound)
    → f waits ≡ 0
    → All (λ e. closing_of b now e ≡ waits) rounds
    → tally f b now rounds ≡ 0
unfolding tally
tally-waits f b now [] z h = refl
tally-waits f b now (e ∷ rounds) z h = omega (arith, ap f h.0, z, tally-waits f b now rounds z h.1)

-- What a drain has closed is closed for good: the next drain, at the same instant and with nothing
-- tracked in between, yields no event and no gap.
pub drain_ready-once :
    (now : ℕ) (a : Assembly) → (drain_ready now (drain_ready now a).1).0 ≡ ([], 0)
unfolding drain_ready prune is_no_ordering is_missing_bundle
drain_ready-once now a =
    let b = (drain_ready now a).1 in
    let all =
      All-keep (λ e. closing_of b now e ≡ waits) _ (marked_rounds a now a.rounds)
        (marked_rounds-waits a b _ refl now a.rounds) in
    rw
      (
        ready_events-waits b now b.rounds all,
        tally-waits is_no_ordering b now b.rounds refl all,
        tally-waits is_missing_bundle b now b.rounds refl all,
      )
      refl
