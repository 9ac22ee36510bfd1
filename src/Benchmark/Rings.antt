-- ===== src/Benchmark/Rings.antt =====
-- The rolling rings of a coin's window: their order and their caps.
use hyperliquid_market_bench.Prelude.{
  ℕ, ◌+◌, ◌≤◌, ◌≡◌, List, [], ◌∷◌, Bool, arith, ltb, length, keep, All, All-keep, All-mono,
  length-keep-le, Bool-cases, inl, inr,
}
use hyperliquid_market_bench.Benchmark.{CoinWindow, CommittedCohort, CoverageCohort}
use hyperliquid_market_bench.Benchmark.Windows.{
  insert_by, pop_front, push_coverage, push_cohort, evict_state, prune_window, within,
}

abbrev pub IsSortedBy {ℓ} : {A : Type ℓ} → (A → ℕ) → List A → Type 0
IsSortedBy f [] = Unit
IsSortedBy f (x ∷ xs) = All (λ y. f x ≤ f y) xs × IsSortedBy f xs

module _ {ℓ} {A : Type ℓ} (f : A → ℕ) where
  pub length-insert_by : (x : A) (xs : List A) → length (insert_by f x xs) ≡ length xs + 1
  unfolding insert_by
  length-insert_by x [] = omega arith
  length-insert_by x (y ∷ ys) = ground (arith, length-insert_by x ys)

  pub All-insert_by {κ} :
      (P : A → Type κ) (x : A) (xs : List A) → P x → All P xs → All P (insert_by f x xs)
  unfolding insert_by
  All-insert_by P x [] p h = (p, tt)
  All-insert_by P x (y ∷ ys) p h = elim (Bool-cases (ltb (f x) (f y))) [
    | inl e ↦ rw e (p, h)
    | inr e ↦ rw e (h.0, All-insert_by P x ys p h.1)
  ]

  pub insert_by-IsSortedBy :
      (x : A) (xs : List A) → IsSortedBy f xs → IsSortedBy f (insert_by f x xs)
  unfolding insert_by
  insert_by-IsSortedBy x [] h = (tt, tt)
  insert_by-IsSortedBy x (y ∷ ys) h = elim (Bool-cases (ltb (f x) (f y))) [
    | inl e ↦
        rw e (
          (ground arith, All-mono (λ z. f y ≤ f z) (λ z. f x ≤ f z) (λ z q. ground arith) ys h.0),
          h,
        )
    | inr e ↦
        rw e (All-insert_by (λ z. f y ≤ f z) x ys (ground arith) h.0, insert_by-IsSortedBy x ys h.1)
  ]

  pub pop_front-IsSortedBy : (xs : List A) → IsSortedBy f xs → IsSortedBy f (pop_front xs)
  pop_front-IsSortedBy [] h = h
  pop_front-IsSortedBy (x ∷ xs) h = h.1

  pub keep-IsSortedBy : (p : A → Bool) (xs : List A) → IsSortedBy f xs → IsSortedBy f (keep p xs)
  keep-IsSortedBy p [] h = tt
  keep-IsSortedBy p (x ∷ xs) h = elim (Bool-cases (p x)) [
    | inl e ↦ rw e (All-keep (λ y. f x ≤ f y) p xs h.0, keep-IsSortedBy p xs h.1)
    | inr e ↦ rw e (keep-IsSortedBy p xs h.1)
  ]

pub length-pop_front {ℓ} :
    {A : Type ℓ} (n : ℕ) (xs : List A) → length xs ≤ n + 1 → length (pop_front xs) ≤ n
length-pop_front n [] h = omega arith
length-pop_front n (x ∷ xs) h = omega arith

-- Both rings are ordered by their instants and hold at most `cap` entries.
pub record IsRing (cap : ℕ) (w : CoinWindow) : Type 0 where
  pub cohorts_sorted : IsSortedBy (λ (c : CommittedCohort). c.committed_at) w.cohorts
  pub coverage_sorted : IsSortedBy (λ (c : CoverageCohort). c.settled_at) w.coverage
  pub cohorts_cap : length w.cohorts ≤ cap
  pub coverage_cap : length w.coverage ≤ cap

module _ (cap now : ℕ) (w : CoinWindow) (h : IsRing cap w) where
  pub push_coverage-IsRing : (c : CoverageCohort) → IsRing cap (push_coverage cap now c w)
  unfolding push_coverage
  push_coverage-IsRing c =
      let f : CoverageCohort → ℕ = λ x. x.settled_at in
      let s = insert_by-IsSortedBy f c w.coverage h.coverage_sorted in
      let n = length-insert_by f c w.coverage in
      elim (Bool-cases (ltb cap (length (insert_by f c w.coverage)))) [
        | inl e ↦ rw e (record {
          cohorts_sorted = h.cohorts_sorted;
          coverage_sorted = pop_front-IsSortedBy f _ s;
          cohorts_cap = h.cohorts_cap;
          coverage_cap =
              length-pop_front cap (insert_by f c w.coverage) (omega (arith, n, h.coverage_cap));
        })
        | inr e ↦ rw e (record {
          cohorts_sorted = h.cohorts_sorted;
          coverage_sorted = s;
          cohorts_cap = h.cohorts_cap;
          coverage_cap = ground arith;
        })
      ]

  pub push_cohort-IsRing : (c : CommittedCohort) → IsRing cap (push_cohort cap now c w)
  unfolding push_cohort
  push_cohort-IsRing c =
      let f : CommittedCohort → ℕ = λ x. x.committed_at in
      let s = insert_by-IsSortedBy f c w.cohorts h.cohorts_sorted in
      let n = length-insert_by f c w.cohorts in
      elim (Bool-cases (ltb cap (length (insert_by f c w.cohorts)))) [
        | inl e ↦ rw e (record {
          cohorts_sorted = pop_front-IsSortedBy f _ s;
          coverage_sorted = h.coverage_sorted;
          cohorts_cap =
              length-pop_front cap (insert_by f c w.cohorts) (omega (arith, n, h.cohorts_cap));
          coverage_cap = h.coverage_cap;
        })
        | inr e ↦ rw e (record {
          cohorts_sorted = s;
          coverage_sorted = h.coverage_sorted;
          cohorts_cap = ground arith;
          coverage_cap = h.coverage_cap;
        })
      ]

  pub evict_state-IsRing : IsRing cap (evict_state now w)
  unfolding evict_state
  evict_state-IsRing = record {
    cohorts_sorted = h.cohorts_sorted;
    coverage_sorted = h.coverage_sorted;
    cohorts_cap = h.cohorts_cap;
    coverage_cap = h.coverage_cap;
  }

  pub prune_window-IsRing : (ttl : ℕ) → IsRing cap (prune_window ttl now w)
  unfolding prune_window
  prune_window-IsRing ttl = record {
    cohorts_sorted = keep-IsSortedBy _ _ w.cohorts h.cohorts_sorted;
    coverage_sorted = keep-IsSortedBy _ _ w.coverage h.coverage_sorted;
    cohorts_cap = omega (
      arith,
      length-keep-le (λ (c : CommittedCohort). within ttl now c.committed_at) w.cohorts,
      h.cohorts_cap,
    );
    coverage_cap = omega (
      arith,
      length-keep-le (λ (c : CoverageCohort). within ttl now c.settled_at) w.coverage,
      h.coverage_cap,
    );
  }
