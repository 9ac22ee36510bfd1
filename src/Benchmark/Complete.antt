-- ===== src/Benchmark/Complete.antt =====
-- src/benchmark.rs: a complete candidate has a latest receipt and a latency for each provider, so
-- that the `expect`s of `finalize_candidate` never fail.
use hyperliquid_market_bench.Prelude.{
  sym, ap, ◌∙◌, subst, ℕ, ◌-◌, ◌≤◌, ◌<◌, ◌^◌, ◌≡◌, refl, List, [], ◌∷◌, some, true, false, length,
  all, arith, is_some, Option-cases, Bool-cases, inl, inr, ◌>>=◌,
}
use mathlib.Core.Option.{some-injective}
use hyperliquid_market_bench.Model.Provider.{Provider, Row, set, same, same→eq, contains}
use hyperliquid_market_bench.Config.{BenchmarkConfig, providers, choices}
use hyperliquid_market_bench.Benchmark.{Observation, PendingCandidate}
use hyperliquid_market_bench.Benchmark.Arrivals.{arrived, received_by, latest, latencies, sub_u64}

pub latest-received_by :
    (c : PendingCandidate) (ps : List Provider)
    → 0 < length ps
    → all (arrived c) ps ≡ true
    → is_some (latest (received_by c ps)) ≡ true
latest-received_by c [] n h = absurd (omega arith)
latest-received_by c (p ∷ ps) n h = ground arith

pub providers-length : (config : BenchmarkConfig) → 0 < length (providers config)
unfolding choices
providers-length config = ground arith

pub latencies_total :
    (ms : ℕ) (c : PendingCandidate) (ps : List Provider)
    → all (arrived c) ps ≡ true
    → is_some (latencies ms c ps) ≡ true
unfolding latencies
latencies_total ms c [] h = refl
latencies_total ms c (p ∷ ps) h = ground (arith, latencies_total ms c ps)

latencies-cons :
    (ms : ℕ) (c : PendingCandidate) (p : Provider) (ps : List Provider) (rest : Row ℕ)
    (a : Observation)
    → latencies ms c ps ≡ some rest
    → c.arrivals p ≡ some a
    → latencies ms c (p ∷ ps) ≡ some (set rest p (sub_u64 a.received_wall_ms ms))
unfolding latencies
latencies-cons ms c p ps rest a r t = rw (r, t, ◌>>=◌)

latency_of_set :
    (ms : ℕ) (c : PendingCandidate) (p q : Provider) (rest : Row ℕ) (a o : Observation)
    → c.arrivals p ≡ some a
    → c.arrivals q ≡ some o
    → (same p q ≡ false → rest q ≡ sub_u64 o.received_wall_ms ms)
    → set rest p (sub_u64 a.received_wall_ms ms) q ≡ sub_u64 o.received_wall_ms ms
latency_of_set ms c p q rest a o t e other = elim (Bool-cases (same p q)) [
  | inl y ↦ rw y (
      ap (λ (x : Observation). sub_u64 x.received_wall_ms ms)
        (some-injective a o (sym t ∙ ap c.arrivals (same→eq p q y) ∙ e)))
  | inr n ↦ rw n (other n)
]

-- In the latencies of a cohort, the latency of each of its providers is the wall clock of that
-- provider's own receipt less the time of the event, on 64-bit words.
pub latencies-arrival :
    (ms : ℕ) (c : PendingCandidate) (ps : List Provider) (row : Row ℕ) (q : Provider)
    (o : Observation)
    → latencies ms c ps ≡ some row
    → contains ps q ≡ true
    → c.arrivals q ≡ some o
    → row q ≡ sub_u64 o.received_wall_ms ms
unfolding latencies
latencies-arrival ms c [] row q o h i e = absurd (cc)
latencies-arrival ms c (p ∷ ps) row q o h i e = elim (Option-cases (latencies ms c ps)) [
  | inl n ↦ absurd (ground arith)
  | inr (rest, r) ↦ elim (Option-cases (c.arrivals p)) [
    | inl n ↦ absurd (ground arith)
    | inr (a, t) ↦
        subst (λ (f : Row ℕ). f q ≡ sub_u64 o.received_wall_ms ms)
          (some-injective (set rest p (sub_u64 a.received_wall_ms ms)) row
            (sym (latencies-cons ms c p ps rest a r t) ∙ h))
          (latency_of_set ms c p q rest a o t e
            (λ n. latencies-arrival ms c ps rest q o r (ground arith) e))
  ]
]

-- The difference does not wrap where the receipt is not before the event.
pub sub_u64-eq : (a b : ℕ) → b ≤ a → a < 2 ^ 64 → sub_u64 a b ≡ a - b
sub_u64-eq a b h k = omega arith
