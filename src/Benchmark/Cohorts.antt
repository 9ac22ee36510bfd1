-- ===== src/Benchmark/Cohorts.antt =====
-- src/benchmark.rs: which operations touch the committed cohorts of a coin.
use hyperliquid_market_bench.Prelude.{
  ℕ, ◌≡◌, refl, sym, subst, arith, ◌∙◌, ap, inl, inr, List, [], Option, none, some, Bool, String,
  String_discrete, ◌>>=◌, Yields, Yields->>=, Yields-mono, Option-cases, Bool-cases, if◌then◌else◌,
  leb, ltb, length,
}
use mathlib.Core.Logic.{ite}
use hyperliquid_market_bench.Dict.{get, insert, remove, min_by_key}
use hyperliquid_market_bench.Dict.Laws.{get-insert}
use hyperliquid_market_bench.Model.Provider.{Provider, Row}
use hyperliquid_market_bench.Model.Keys.{EventKey, EventKey_discrete}
use hyperliquid_market_bench.Config.{BenchmarkConfig}
use hyperliquid_market_bench.Benchmark.{
  Benchmark, ProviderCounters, CoinWindow, CommittedCohort, CoverageCohort, CoverageOutcome,
  PendingCandidate, SettledCohort, with_counters, with_window,
}
use hyperliquid_market_bench.Benchmark.Windows.{
  insert_by, pop_front, push_coverage, push_cohort, evict_state,
}
use hyperliquid_market_bench.Benchmark.Count
use hyperliquid_market_bench.Benchmark.Arrivals.{arrived, tally_provider}
use hyperliquid_market_bench.Benchmark.Tombstones.{settled_room, insert_settled}

abbrev pub cohorts_in : Option CoinWindow → List CommittedCohort
cohorts_in none = []
cohorts_in (some w) = w.cohorts

-- The committed cohorts of a coin.
abbrev pub cohorts_of : String → Benchmark → List CommittedCohort
cohorts_of coin b = cohorts_in (get String_discrete coin b.windows)

abbrev pub SameCohorts : Benchmark → Benchmark → Type 0
SameCohorts b c = (coin : String) → cohorts_of coin c ≡ cohorts_of coin b

pub SameCohorts-trans : (b c d : Benchmark) → SameCohorts b c → SameCohorts c d → SameCohorts b d
SameCohorts-trans b c d f g coin = g coin ∙ f coin

-- The ring takes the cohort in the order of commits, and drops its oldest over the room.
abbrev pub committed : CommittedCohort → ℕ
committed c = c.committed_at

abbrev pub push_ring : ℕ → CommittedCohort → List CommittedCohort → List CommittedCohort
push_ring room cohort cohorts =
    let grown = insert_by committed cohort cohorts in
    if ltb room (length grown) then pop_front grown else grown

pub cohorts-push_cohort :
    (room now : ℕ) (cohort : CommittedCohort) (w : CoinWindow)
    → (push_cohort room now cohort w).cohorts ≡ push_ring room cohort w.cohorts
unfolding push_cohort
cohorts-push_cohort room now cohort w = ground arith

pub cohorts-push_coverage :
    (room now : ℕ) (cohort : CoverageCohort) (w : CoinWindow)
    → (push_coverage room now cohort w).cohorts ≡ w.cohorts
unfolding push_coverage
cohorts-push_coverage room now cohort w = ground arith

pub with_counters-SameCohorts :
    (p : Provider) (coin : String) (f : ProviderCounters → ProviderCounters) (b : Benchmark)
    → Yields (SameCohorts b) (with_counters p coin f b)
unfolding with_counters
with_counters-SameCohorts p coin f b = elim (Option-cases (get String_discrete coin b.counters)) [
  | inl e ↦ rw (e, ◌>>=◌) tt
  | inr (row, e) ↦ rw (e, ◌>>=◌) (λ _. refl)
]

-- A window's update changes the cohorts of its own coin only.
abbrev pub Updates :
    String → (List CommittedCohort → List CommittedCohort) → Benchmark → Benchmark → Type 0
Updates coin g b c =
    (j : String)
    → cohorts_of j c ≡ ite (String_discrete coin j) (g (cohorts_of j b)) (cohorts_of j b)

cohorts_updated :
    (coin j : String) (g : List CommittedCohort → List CommittedCohort) (v w : CoinWindow)
    (b : Benchmark)
    → get String_discrete coin b.windows ≡ some w
    → v.cohorts ≡ g w.cohorts
    → cohorts_in (get String_discrete j (insert String_discrete coin v b.windows))
      ≡ ite (String_discrete coin j) (g (cohorts_of j b)) (cohorts_of j b)
cohorts_updated coin j g v w b e h =
    rw (get-insert String_discrete coin j v b.windows)
      (elim (String_discrete coin j)
        as (λ d.
          cohorts_in (ite d (some v) (get String_discrete j b.windows))
          ≡ ite d (g (cohorts_of j b)) (cohorts_of j b)) [
            | yes q ↦
                h
                ∙ ap g (
                    sym (ap cohorts_in (subst (λ k. get String_discrete k b.windows ≡ some w) q e)))
            | no _ ↦ refl
          ])

pub with_window-Updates :
    (coin : String) (f : CoinWindow → CoinWindow) (g : List CommittedCohort → List CommittedCohort)
    (b : Benchmark)
    → ((w : CoinWindow) → (f w).cohorts ≡ g w.cohorts)
    → Yields (Updates coin g b) (with_window coin f b)
unfolding with_window
with_window-Updates coin f g b h = elim (Option-cases (get String_discrete coin b.windows)) [
  | inl e ↦ rw (e, ◌>>=◌) tt
  | inr (w, e) ↦ rw (e, ◌>>=◌) (λ j. cohorts_updated coin j g (f w) w b e (h w))
]

ite_same : {A : Type 0} (coin j : String) (x : A) → ite (String_discrete coin j) x x ≡ x
ite_same coin j x = elim (String_discrete coin j) as (λ d. ite d x x ≡ x) [
  | yes _ ↦ refl
  | no _ ↦ refl
]

Updates-SameCohorts :
    (coin : String) (b c : Benchmark) → Updates coin (λ cs. cs) b c → SameCohorts b c
Updates-SameCohorts coin b c u j = u j ∙ ite_same coin j (cohorts_of j b)

-- An update of a window that keeps its cohorts keeps those of every coin.
pub with_window-SameCohorts :
    (coin : String) (f : CoinWindow → CoinWindow) (b : Benchmark)
    → ((w : CoinWindow) → (f w).cohorts ≡ w.cohorts)
    → Yields (SameCohorts b) (with_window coin f b)
with_window-SameCohorts coin f b h =
    Yields-mono (Updates coin (λ cs. cs) b) (SameCohorts b) _
      (with_window-Updates coin f (λ cs. cs) b h) (λ c u. Updates-SameCohorts coin b c u)

module _ (config : BenchmarkConfig) where
  pub insert_settled-SameCohorts :
      (key : EventKey) (s : SettledCohort) (b : Benchmark)
      → Yields (SameCohorts b) (insert_settled config key s b)
  unfolding insert_settled settled_room evict_state
  insert_settled-SameCohorts key s b =
      Yields->>= (SameCohorts b) (SameCohorts b) (settled_room config s.settled_at b) _
        (elim (Bool-cases (leb config.max_settled (length b.settled))) [
          | inr e ↦ rw e (λ _. refl)
          | inl e ↦
              rw e
                (elim (Option-cases (min_by_key (λ (x : SettledCohort). x.settled_at) b.settled)) [
                  | inl q ↦ rw q (λ _. refl)
                  | inr (oldest, q) ↦ rw q (
                      with_window-SameCohorts oldest.0.coin (evict_state s.settled_at)
                        (record b { settled = remove EventKey_discrete oldest.0 b.settled })
                        (λ w. refl))
                ])
        ])
        (λ c f. f)

abbrev pub SameTally : Benchmark → Row CoverageOutcome × ℕ × Benchmark → Type 0
SameTally b s = SameCohorts b s.2

pub tally_provider-SameCohorts :
    (coin : String) (candidate : PendingCandidate) (seen : Row Bool) (b : Benchmark) (p : Provider)
    (s : Row CoverageOutcome × ℕ × Benchmark)
    → SameTally b s
    → Yields (SameTally b) (tally_provider coin candidate seen p s)
unfolding tally_provider
tally_provider-SameCohorts coin candidate seen b p (outcomes, mask, c) k =
    let count = λ (f : ProviderCounters → ProviderCounters).
      Yields-mono (SameCohorts c) (SameCohorts b) _ (with_counters-SameCohorts p coin f c)
        (λ d g. SameCohorts-trans b c d k g) in
    elim (Bool-cases (arrived candidate p)) [
      | inl e ↦ rw e (Yields->>= (SameCohorts b) (SameTally b) _ _ (count Count.matched) (λ d l. l))
      | inr e ↦ rw e (elim (Bool-cases (seen p)) [
        | inl q ↦
            rw q (Yields->>= (SameCohorts b) (SameTally b) _ _ (count Count.mismatch) (λ d l. l))
        | inr q ↦
            rw q (Yields->>= (SameCohorts b) (SameTally b) _ _ (count Count.missing) (λ d l. l))
      ])
    ]
