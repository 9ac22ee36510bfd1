-- ===== src/Benchmark/Commits.antt =====
-- src/benchmark.rs: `finalize_candidate` commits a cohort exactly for a complete candidate, and
-- measures each provider by its own receipt.
use hyperliquid_market_bench.Prelude.{
  ℕ, ◌≤◌, ◌<◌, ◌^◌, ◌-◌, ◌≡◌, refl, sym, subst, ◌∙◌, inl, inr, List, Option, none, some, Bool, true,
  false, String, String_discrete, ◌>>=◌, Ensures, Yields, Yields->>=, Yields-mono, Ensures-Yields,
  for_each-Yields, Option-cases, Bool-cases, if◌then◌else◌,
}
use mathlib.Core.Logic.{ite}
use hyperliquid_market_bench.Model.Provider.{Provider, Row, contains}
use hyperliquid_market_bench.Model.Keys.{EventKey}
use hyperliquid_market_bench.Config.{BenchmarkConfig, providers}
use hyperliquid_market_bench.Benchmark.{
  Benchmark, Observation, CommittedCohort, PendingCandidate, as_millis, missing,
}
use hyperliquid_market_bench.Benchmark.Windows.{push_cohort}
use hyperliquid_market_bench.Benchmark.Arrivals.{received_by, latest, latencies, tally_provider}
use hyperliquid_market_bench.Benchmark.Settle.{is_complete, commit_cohort, finalize_candidate}
use hyperliquid_market_bench.Benchmark.Invariant.{IsCoin, Inv}
use hyperliquid_market_bench.Benchmark.Keeps.{Keeps, Keeps-refl}
use hyperliquid_market_bench.Benchmark.Finalizing.{finalize_candidate-Keeps}
use hyperliquid_market_bench.Benchmark.Complete.{latencies-arrival, sub_u64-eq}
use hyperliquid_market_bench.Benchmark.Cohorts.{
  cohorts_of, SameCohorts, SameCohorts-trans, SameTally, Updates, push_ring, cohorts-push_cohort,
  cohorts-push_coverage, with_window-Updates, with_window-SameCohorts, insert_settled-SameCohorts,
  tally_provider-SameCohorts,
}

settled_instant :
    (complete : Bool) (last : Option ℕ) (now : ℕ)
    → Yields (λ at. complete ≡ true → last ≡ some at) (if complete then last else some now)
settled_instant true none now = tt
settled_instant true (some t) now = λ _. refl
settled_instant false last now = λ h. absurd (cc)

Updates-between :
    (coin : String) (g : List CommittedCohort → List CommittedCohort) (a b c d : Benchmark)
    → SameCohorts a b
    → Updates coin g b c
    → SameCohorts c d
    → Updates coin g a d
Updates-between coin g a b c d f u h j =
    h j ∙ subst (λ cs. cohorts_of j c ≡ ite (String_discrete coin j) (g cs) cs) (f j) (u j)

module _ (config : BenchmarkConfig) (key : EventKey) (candidate : PendingCandidate) where
  -- What a committed cohort records of the candidate.
  pub record Measures (cohort : CommittedCohort) : Type 0 where
    pub event_time : cohort.event_ms ≡ key.event_ms
    pub unreported : cohort.outcome_reported ≡ false
    pub last_receipt : latest (received_by candidate (providers config)) ≡ some cohort.committed_at
    pub delay : cohort.commit_delay_ms ≡ as_millis (cohort.committed_at - candidate.first_observed)
    pub latency :
        (q : Provider) (o : Observation)
        → contains (providers config) q ≡ true
        → candidate.arrivals q ≡ some o
        → key.event_ms ≤ o.received_wall_ms
        → o.received_wall_ms < 2 ^ 64
        → cohort.latency_ms q ≡ o.received_wall_ms - key.event_ms

  pub record Finalizes (b c : Benchmark) : Type 0 where
    pub incomplete : is_complete config candidate ≡ false → SameCohorts b c
    pub complete :
        is_complete config candidate ≡ true
        → (cohort : CommittedCohort) × Measures cohort
          × Updates key.coin (push_ring config.max_rolling_cohorts cohort) b c

  -- What has been committed on the way, before the tombstone is set.
  commit_cohort-Updates :
      (now at : ℕ) (b : Benchmark)
      → latest (received_by candidate (providers config)) ≡ some at
      → Yields
          (λ c.
            (cohort : CommittedCohort) × Measures cohort
            × Updates key.coin (push_ring config.max_rolling_cohorts cohort) b c)
          (commit_cohort config key candidate now at b)
  unfolding commit_cohort
  commit_cohort-Updates now at b last =
      elim (Option-cases (latencies key.event_ms candidate (providers config))) [
        | inl n ↦ rw (n, ◌>>=◌) tt
        | inr (row, e) ↦
            let cohort : CommittedCohort = record {
              committed_at = at;
              event_ms = key.event_ms;
              latency_ms = row;
              commit_delay_ms = as_millis (at - candidate.first_observed);
              outcome_reported = false;
            } in
            let measured : Measures cohort = record {
              event_time = refl;
              unreported = refl;
              last_receipt = last;
              delay = refl;
              latency = λ q o i a h k.
                  latencies-arrival key.event_ms candidate (providers config) row q o e i a
                  ∙ sub_u64-eq o.received_wall_ms key.event_ms h k;
            } in
            rw (e, ◌>>=◌)
              (Yields-mono (Updates key.coin (push_ring config.max_rolling_cohorts cohort) b) _ _
                (with_window-Updates key.coin (push_cohort config.max_rolling_cohorts now cohort)
                  (push_ring config.max_rolling_cohorts cohort) b
                  (cohorts-push_cohort config.max_rolling_cohorts now cohort))
                (λ c u. (cohort, measured, u)))
      ]

  maybe_commit :
      (now at : ℕ) (b : Benchmark)
      → (is_complete config candidate ≡ true
          → latest (received_by candidate (providers config)) ≡ some at)
      → Yields (Finalizes b) (
          if is_complete config candidate
          then commit_cohort config key candidate now at b
          else some b)
  maybe_commit now at b last = elim (Bool-cases (is_complete config candidate)) [
    | inl e ↦
        subst
          (λ x.
            Yields (Finalizes b)
              (if x then commit_cohort config key candidate now at b else some b))
          (sym e)
          (Yields-mono _ (Finalizes b) _ (commit_cohort-Updates now at b (last e))
            (λ c u. record { incomplete = λ n. absurd (cc); complete = λ _. u }))
    | inr e ↦
        subst
          (λ x.
            Yields (Finalizes b)
              (if x then commit_cohort config key candidate now at b else some b))
          (sym e) (record { incomplete = λ _ j. refl; complete = λ n. absurd (cc) })
  ]

  Finalizes-between :
      (a b c d : Benchmark) → SameCohorts a b → Finalizes b c → SameCohorts c d → Finalizes a d
  Finalizes-between a b c d f x h = record {
    incomplete = λ n. SameCohorts-trans a b d f (SameCohorts-trans b c d (x.incomplete n) h);
    complete = λ n.
        let (cohort, measured, u) = x.complete n in
        (
          cohort,
          measured,
          Updates-between key.coin (push_ring config.max_rolling_cohorts cohort) a b c d f u h,
        );
  }

  finalize_candidate-Yields :
      (now : ℕ) (seen : Row Bool) (b : Benchmark)
      → Yields (Finalizes b) (finalize_candidate config key candidate now seen b)
  unfolding finalize_candidate
  finalize_candidate-Yields now seen b =
      Yields->>=
        (λ at.
          is_complete config candidate ≡ true
          → latest (received_by candidate (providers config)) ≡ some at)
        (Finalizes b) _ _ (settled_instant (is_complete config candidate) _ now)
        λ at last.
          Yields->>= (SameTally b) (Finalizes b) _ _
            (for_each-Yields (SameTally b) (tally_provider key.coin candidate seen)
              (tally_provider-SameCohorts key.coin candidate seen b) (providers config)
              (λ _. missing, 0, b) (λ _. refl))
            λ s f.
              Yields->>= (SameCohorts s.2) (Finalizes b) _ _
                (with_window-SameCohorts key.coin _ s.2
                  (cohorts-push_coverage config.max_rolling_cohorts now _))
                λ b1 f1.
                  Yields->>= (Finalizes b1) (Finalizes b)
                    (if is_complete config candidate
                      then commit_cohort config key candidate now at b1
                      else some b1)
                    _ (maybe_commit now at b1 last)
                    λ b2 x.
                      Yields-mono (SameCohorts b2) (Finalizes b) _
                        (insert_settled-SameCohorts config key _ b2)
                        (λ c h. Finalizes-between b b1 b2 c (SameCohorts-trans b s.2 b1 f f1) x h)

  -- From a state that satisfies the invariant, finalizing a candidate of a registered coin does
  -- not panic. If an arrival is missing, no coin's committed cohorts change. If it is complete, the
  -- coin's ring takes one cohort in the order of the last receipts, less its oldest over the cap,
  -- and no other coin's ring changes; the cohort is not reported yet, and its latency for each
  -- provider is the wall clock of that provider's receipt less the event's time, if the receipt is
  -- not before that time and fits a u64.
  pub finalize_candidate-Finalizes :
      (now : ℕ) (seen : Row Bool) (b : Benchmark)
      → IsCoin config key.coin
      → Inv config b
      → Ensures (Finalizes b) (finalize_candidate config key candidate now seen b)
  finalize_candidate-Finalizes now seen b known v =
      Ensures-Yields (Keeps config b) (Finalizes b) _
        (finalize_candidate-Keeps config b key candidate now seen b known (Keeps-refl config b v))
        (finalize_candidate-Yields now seen b)
