-- ===== src/Outcomes/Marking.antt =====
-- src/benchmark.rs: `mark_outcomes_reported` changes the flags and nothing else.
use hyperliquid_market_bench.Prelude.{
  ℕ, ◌≤◌, ◌≡◌, refl, sym, subst, List, [], ◌∷◌, length, All, map, arith,
}
use hyperliquid_market_bench.Benchmark.{CoinWindow, CommittedCohort}
use hyperliquid_market_bench.Benchmark.Rings.{IsRing, IsSortedBy}
use hyperliquid_market_bench.Outcomes.{mark_cohort, mark_outcomes_reported}

abbrev committed : CommittedCohort → ℕ
committed c = c.committed_at

committed-mark_cohort :
    (through : ℕ) (c : CommittedCohort) → committed (mark_cohort through c) ≡ committed c
committed-mark_cohort through c = ground arith

All-mark_cohort :
    (through t : ℕ) (cs : List CommittedCohort)
    → All (λ c. t ≤ committed c) cs
    → All (λ c. t ≤ committed c) (map (mark_cohort through) cs)
All-mark_cohort through t [] h = tt
All-mark_cohort through t (c ∷ cs) h = (ground arith, All-mark_cohort through t cs h.1)

mark_cohort-IsSortedBy :
    (through : ℕ) (cs : List CommittedCohort)
    → IsSortedBy committed cs
    → IsSortedBy committed (map (mark_cohort through) cs)
mark_cohort-IsSortedBy through [] h = tt
mark_cohort-IsSortedBy through (c ∷ cs) h = (
  subst (λ t. All (λ d. t ≤ committed d) (map (mark_cohort through) cs))
      (sym (committed-mark_cohort through c)) (All-mark_cohort through (committed c) cs h.0),
  mark_cohort-IsSortedBy through cs h.1,
)

pub length-map {ℓ} : {A : Type ℓ} (f : A → A) (xs : List A) → length (map f xs) ≡ length xs
length-map f [] = refl
length-map f (x ∷ xs) = omega (arith, length-map f xs)

pub mark_outcomes_reported-IsRing :
    (cap through : ℕ) (w : CoinWindow)
    → IsRing cap w
    → IsRing cap (mark_outcomes_reported through w)
unfolding mark_outcomes_reported
mark_outcomes_reported-IsRing cap through w r = record {
  cohorts_sorted = mark_cohort-IsSortedBy through w.cohorts r.cohorts_sorted;
  coverage_sorted = r.coverage_sorted;
  cohorts_cap = omega (arith, length-map (mark_cohort through) w.cohorts, r.cohorts_cap);
  coverage_cap = r.coverage_cap;
}
