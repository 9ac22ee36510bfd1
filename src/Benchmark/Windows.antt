-- ===== src/Benchmark/Windows.antt =====
-- src/benchmark.rs: what `finalize_candidate`, `prune` and the eviction paths do to a coin's
-- rolling window.
use hyperliquid_market_bench.Prelude.{
  ℕ, ◌-◌, List, [], ◌∷◌, some, Bool, if◌then◌else◌, ltb, leb, length, keep, add_u64,
}
use hyperliquid_market_bench.Benchmark.{CoinWindow, CommittedCohort, CoverageCohort}

-- `position(|y| f(y) > f(x)).unwrap_or(len)` and `insert` there.
unfoldable pub insert_by {ℓ} : {A : Type ℓ} → (A → ℕ) → A → List A → List A
insert_by f x [] = x ∷ []
insert_by f x (y ∷ ys) = if ltb (f x) (f y) then x ∷ y ∷ ys else y ∷ insert_by f x ys

abbrev pub pop_front {ℓ} : {A : Type ℓ} → List A → List A
pop_front [] = []
pop_front (x ∷ xs) = xs

-- The coverage ring takes one more cohort, and drops its oldest if it is over the cap.
unfoldable pub push_coverage : ℕ → ℕ → CoverageCohort → CoinWindow → CoinWindow
push_coverage max_rolling_cohorts now cohort window =
    let coverage = insert_by (λ (c : CoverageCohort). c.settled_at) cohort window.coverage in
    if ltb max_rolling_cohorts (length coverage)
    then record window {
      coverage = pop_front coverage;
      coverage_evictions = add_u64 window.coverage_evictions 1;
      last_integrity_loss = some now;
    }
    else record window { coverage = coverage }

-- The latency ring takes one more complete cohort, likewise.
unfoldable pub push_cohort : ℕ → ℕ → CommittedCohort → CoinWindow → CoinWindow
push_cohort max_rolling_cohorts now cohort window =
    let cohorts = insert_by (λ (c : CommittedCohort). c.committed_at) cohort window.cohorts in
    let complete_cohorts = add_u64 window.complete_cohorts 1 in
    if ltb max_rolling_cohorts (length cohorts)
    then record window {
      cohorts = pop_front cohorts;
      complete_cohorts = complete_cohorts;
      rolling_evictions = add_u64 window.rolling_evictions 1;
      last_integrity_loss = some now;
    }
    else record window { cohorts = cohorts; complete_cohorts = complete_cohorts }

unfoldable pub evict_state : ℕ → CoinWindow → CoinWindow
evict_state now window = record window {
  state_evictions = add_u64 window.state_evictions 1;
  last_integrity_loss = some now;
}

-- `now.saturating_duration_since(at) <= rolling_window`.
abbrev pub within : ℕ → ℕ → ℕ → Bool
within rolling_window now at = leb (now - at) rolling_window

unfoldable pub prune_window : ℕ → ℕ → CoinWindow → CoinWindow
prune_window rolling_window now window = record window {
  cohorts = keep (λ c. within rolling_window now c.committed_at) window.cohorts;
  coverage = keep (λ c. within rolling_window now c.settled_at) window.coverage;
}
