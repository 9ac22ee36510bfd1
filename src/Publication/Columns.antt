-- ===== src/Publication/Columns.antt =====
-- src/benchmark.rs: the rows of all coins and providers, as `window_events` collects them.
use hyperliquid_market_bench.Prelude.{
  ap, ◌∙◌, ◌++◌, ℕ, ◌≡◌, refl, List, [], ◌∷◌, Option, some, true, String, String_discrete, map,
  ◌>>=◌, All, All-append, Ensures, Ensures->>=, Option-cases, Bool-cases, inl, inr, arith, is_some,
}
use hyperliquid_market_bench.Dict.{get}
use hyperliquid_market_bench.Model.Provider.{Provider, Row}
use hyperliquid_market_bench.Config.{BenchmarkConfig, providers, has_provider_comparison}
use hyperliquid_market_bench.Benchmark.{Benchmark, CoinWindow, ProviderCounters}
use hyperliquid_market_bench.Benchmark.Invariant.{IsCoin, Inv}
use hyperliquid_market_bench.Outcomes.{no_outcomes}
use hyperliquid_market_bench.Outcomes.Tally.{Counts, unreported_outcomes-Counts}
use hyperliquid_market_bench.Rank.{Distribution}
use hyperliquid_market_bench.Rank.Summary.{Answers, distribution-Answers}
use hyperliquid_market_bench.Signals.{StreamSignal, RuntimeSignals, stream}
use hyperliquid_market_bench.Clock.{ClockAssessment}
use hyperliquid_market_bench.Publication.Events.{
  WindowRow, Interval, row_of, provider_rows, streams, window_outcomes, coin_rows, all_rows,
}
use hyperliquid_market_bench.Publication.Agreement.{
  latency_by, commit_delay_of, key_of, reported_by, Column, Rows, keys_of, all_keys,
  map_append_keys, row_of-Column,
}

module _ (config : BenchmarkConfig) where
  -- Every stream of a coin of the process is registered.
  abbrev pub Registered : RuntimeSignals → Type 0
  Registered signals =
      (p : Provider) (coin : String) → IsCoin config coin → is_some (stream p coin signals) ≡ true

  module _ (signals : RuntimeSignals) (registered : Registered signals) where
    stream_found :
        (p : Provider) (coin : String)
        → IsCoin config coin
        → (s : StreamSignal) × (stream p coin signals ≡ some s)
    stream_found p coin known = elim (Option-cases (stream p coin signals)) [
      | inl e ↦ absurd (ground (arith, registered p coin known))
      | inr (s, e) ↦ (s, e)
    ]

    provider_rows-Rows :
        (now : ℕ) (b : Benchmark)
        (row : Provider → StreamSignal → ProviderCounters → Option Distribution → WindowRow)
        (w : CoinWindow) (counters : Row ProviderCounters) (coin : String) (ps : List Provider)
        → IsCoin config coin
        → ((p : Provider) (s : StreamSignal) (c : ProviderCounters) (d : Option Distribution)
            → Answers (map (latency_by p) w.cohorts) d
            → Column config now b (row p s c d) × (key_of (row p s c d) ≡ (coin, p)))
        → Ensures
            (Rows config now b (keys_of config coin ps))
            (provider_rows config row w counters signals coin ps)
    unfolding provider_rows
    provider_rows-Rows now b row w counters coin [] known f = (tt, refl)
    provider_rows-Rows now b row w counters coin (p ∷ ps) known f =
        let (s, e) = stream_found p coin known in
        let Q = Rows config now b (keys_of config coin (p ∷ ps)) in
        Ensures->>= (Answers (map (latency_by p) w.cohorts)) Q _ _
          (distribution-Answers (map (latency_by p) w.cohorts))
          λ d a.
            rw (e, ◌>>=◌)
              (Ensures->>= (Rows config now b (keys_of config coin ps)) Q _ _
                (provider_rows-Rows now b row w counters coin ps known f)
                (λ rows h.
                  let own = f p s (counters p) d a in
                  (
                    (own.0, h.0),
                    ap (λ k. k ∷ map key_of rows) own.1 ∙ ap (λ l. (coin, p) ∷ l) h.1,
                  )))

    streams_total :
        (coin : String) (ps : List Provider)
        → IsCoin config coin
        → Ensures (λ _. Unit {0}) (streams config signals coin ps)
    unfolding streams
    streams_total coin [] known = tt
    streams_total coin (p ∷ ps) known =
        let (s, e) = stream_found p coin known in
        rw (e, ◌>>=◌)
          (Ensures->>= (λ _. Unit {0}) (λ _. Unit {0}) _ _ (streams_total coin ps known)
            (λ _ _. tt))

    window_outcomes-Counts :
        (w : CoinWindow) (now : ℕ)
        → Ensures
            (Counts config (reported_by config now w) no_outcomes)
            (window_outcomes config w now)
    unfolding window_outcomes
    window_outcomes-Counts w now = elim (Bool-cases (has_provider_comparison config)) [
      | inl e ↦ rw e (unreported_outcomes-Counts config w now)
      | inr e ↦ rw e (record {
        complete = refl;
        shared = refl;
        strict = λ p. omega arith;
        tied = λ p. omega arith;
      })
    ]

    coin_rows-Rows :
        (interval : Interval) (now : ℕ) (clock : ClockAssessment) (b : Benchmark) (coin : String)
        → IsCoin config coin
        → Inv config b
        → Ensures
            (Rows config now b (keys_of config coin (providers config)))
            (coin_rows config interval now signals clock b coin)
    unfolding coin_rows row_of
    coin_rows-Rows interval now clock b coin known v =
        let Q = Rows config now b (keys_of config coin (providers config)) in
        elim (Option-cases (get String_discrete coin b.windows)) [
          | inl e ↦ absurd (ground (arith, v.windows_known coin known))
          | inr (w, found) ↦ elim (Option-cases (get String_discrete coin b.counters)) [
            | inl e ↦ absurd (ground (arith, v.counters_known coin known))
            | inr (counters, e) ↦
                rw (found, e, ◌>>=◌)
                  (Ensures->>= (Counts config (reported_by config now w) no_outcomes) Q _ _
                    (window_outcomes-Counts w now)
                    λ o c.
                      Ensures->>= (Answers (map commit_delay_of w.cohorts)) Q _ _
                        (distribution-Answers (map commit_delay_of w.cohorts))
                        λ delay late.
                          Ensures->>= (λ _. Unit {0}) Q _ _
                            (streams_total coin (providers config) known)
                            λ heard _.
                              provider_rows-Rows now b _ w counters coin (providers config) known
                                (λ p s k d a. (
                                  row_of-Column config now b interval coin w o _ delay _ p s k d
                                      found c a late,
                                  refl,
                                )))
          ]
        ]

    pub all_rows-Rows :
        (interval : Interval) (now : ℕ) (clock : ClockAssessment) (b : Benchmark)
        (coins : List String)
        → All (IsCoin config) coins
        → Inv config b
        → Ensures
            (Rows config now b (all_keys config coins))
            (all_rows config interval now signals clock b coins)
    unfolding all_rows
    all_rows-Rows interval now clock b [] known v = (tt, refl)
    all_rows-Rows interval now clock b (coin ∷ coins) known v =
        let Q = Rows config now b (all_keys config (coin ∷ coins)) in
        Ensures->>= (Rows config now b (keys_of config coin (providers config))) Q _ _
          (coin_rows-Rows interval now clock b coin known.0 v)
          λ rows h.
            Ensures->>= (Rows config now b (all_keys config coins)) Q _ _
              (all_rows-Rows interval now clock b coins known.1 v)
              (λ rest k. (
                All-append (Column config now b) rows rest h.0 k.0,
                map_append_keys config rows rest
                    ∙ ap (λ l. l ++ map key_of rest) h.1
                    ∙ ap (λ l. keys_of config coin (providers config) ++ l) k.1,
              ))
