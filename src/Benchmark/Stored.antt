-- ===== src/Benchmark/Stored.antt =====
-- src/benchmark.rs, `record_market`: what is found under a base after an event has overflowed it,
-- has been a duplicate, or has been stored.
use hyperliquid_market_bench.Prelude.{
  ◌≡◌, refl, sym, ap, subst, arith, ◌∙◌, inl, inr, Option, none, some, true, Bool-cases,
}
use mathlib.Core.Logic.{ite}
use hyperliquid_market_bench.Model.Provider.{Provider, same, same→eq, same_refl}
use hyperliquid_market_bench.Model.Keys.{ContentKey, ContentKey_discrete, MarketEvent, base}
use hyperliquid_market_bench.Benchmark.{Benchmark, Observation, PendingCandidate, PendingBase}
use hyperliquid_market_bench.Benchmark.Record.{
  get_or, open_base, open_candidate, store_base, store_candidate, observe, overflows,
}
use hyperliquid_market_bench.Benchmark.Lookup.{
  arrival_of, observation, Joins, arrival_in-open_base, arrivals-open_candidate,
  arrival_of-store_base, arrival_in-store_candidate,
}

none-some : {A : Type 0} {a : A} → none ≡ some a → ⊥
none-some h = cc

module _ (event : MarketEvent) (b : Benchmark) where
  abbrev opened : PendingBase
  opened = open_base event b

  abbrev old : ContentKey → Provider → Option Observation
  old content q = arrival_of (base event.key) content q b

  -- What is found after a candidate has been stored.
  arrival_of-stored :
      (candidate : PendingCandidate) (content : ContentKey) (q : Provider)
      → arrival_of
          (base event.key)
          content
          q
          (store_base event (store_candidate event candidate opened) b)
        ≡ ite (ContentKey_discrete event.key.content content) (candidate.arrivals q) (old content q)
  arrival_of-stored candidate content q =
      arrival_of-store_base event (store_candidate event candidate opened) b content q
      ∙ arrival_in-store_candidate event candidate opened content q
      ∙ ap (λ x. ite (ContentKey_discrete event.key.content content) (candidate.arrivals q) x)
          (arrival_in-open_base event b content q)

  found_arrival :
      (q : Provider) → (open_candidate event opened).arrivals q ≡ old event.key.content q
  found_arrival q =
      arrivals-open_candidate event opened q ∙ arrival_in-open_base event b event.key.content q

  -- A candidate that keeps the arrivals that there were keeps those of the base.
  stored-kept :
      (candidate : PendingCandidate)
      → ((q : Provider) (o : Observation)
          → old event.key.content q ≡ some o
          → candidate.arrivals q ≡ some o)
      → (content : ContentKey) (q : Provider) (o : Observation) → old content q ≡ some o
      → arrival_of
          (base event.key)
          content
          q
          (store_base event (store_candidate event candidate opened) b)
        ≡ some o
  stored-kept candidate keeps content q o h =
      arrival_of-stored candidate content q
      ∙ (elim (ContentKey_discrete event.key.content content)
          as (λ d. ite d (candidate.arrivals q) (old content q) ≡ some o) [
            | yes e ↦ keeps q o (subst (λ k. old k q ≡ some o) (sym e) h)
            | no _ ↦ h
          ])

  stored-joined :
      (candidate : PendingCandidate)
      → arrival_of
          (base event.key)
          event.key.content
          event.provider
          (store_base event (store_candidate event candidate opened) b)
        ≡ candidate.arrivals event.provider
  stored-joined candidate =
      arrival_of-stored candidate event.key.content event.provider ∙ ground arith

  pub overflow-Joins : overflows event opened ≡ true → Joins event b (store_base event opened b)
  overflow-Joins e = record {
    kept = λ content q o h.
        arrival_of-store_base event opened b content q ∙ arrival_in-open_base event b content q ∙ h;
    joined = λ n. absurd (cc);
  }

  pub duplicate-Joins :
      (o : Observation)
      → (open_candidate event opened).arrivals event.provider ≡ some o
      → Joins event b
          (store_base event (store_candidate event (open_candidate event opened) opened) b)
  duplicate-Joins o e = record {
    kept = stored-kept (open_candidate event opened) (λ q p h. found_arrival q ∙ h);
    joined = λ _.
        stored-joined (open_candidate event opened)
        ∙ e
        ∙ ap (λ x. some (get_or x (observation event))) (sym e ∙ found_arrival event.provider);
  }

  observed_arrival :
      (c : PendingCandidate) (q : Provider) (o : Observation)
      → c.arrivals event.provider ≡ none
      → c.arrivals q ≡ some o
      → (observe event c).arrivals q ≡ some o
  observed_arrival c q o e h = elim (Bool-cases (same event.provider q)) [
    | inl y ↦ absurd (none-some (sym e ∙ ap c.arrivals (same→eq event.provider q y) ∙ h))
    | inr n ↦ rw n h
  ]

  pub observe-Joins :
      (open_candidate event opened).arrivals event.provider ≡ none
      → Joins event b (
          store_base event
            (store_candidate event (observe event (open_candidate event opened)) opened)
            b)
  observe-Joins e = record {
    kept =
        stored-kept (observe event (open_candidate event opened))
          (λ q o h. observed_arrival (open_candidate event opened) q o e (found_arrival q ∙ h));
    joined = λ _.
        stored-joined (observe event (open_candidate event opened))
        ∙ rw (same_refl event.provider) refl
        ∙ ap (λ x. some (get_or x (observation event))) (sym e ∙ found_arrival event.provider);
  }
