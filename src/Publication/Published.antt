-- ===== src/Publication/Published.antt =====
-- src/benchmark.rs: `window_events` as a whole.
use hyperliquid_market_bench.Prelude.{
  ℕ, ◌<◌, ◌≡◌, refl, List, [], ◌∷◌, Option, none, some, true, false, ◌||◌, String, leb, ◌>>=◌, All,
  All-mono, Ensures, Ensures->>=, Ensures-some, Bool-cases, inl, inr, arith, ◌≤◌, ◌*◌, ◌/◌, ◌⊎◌,
  map, subst,
}
use hyperliquid_market_bench.Config.{BenchmarkConfig}
use hyperliquid_market_bench.Benchmark.{Benchmark, PreparedOutcomeInterval, as_millis}
use hyperliquid_market_bench.Benchmark.Record.{tick}
use hyperliquid_market_bench.Benchmark.Invariant.{is_coin, Inv}
use hyperliquid_market_bench.Signals.{RuntimeSignals}
use hyperliquid_market_bench.Clock.{ClockAssessment}
use hyperliquid_market_bench.Publication.{aligned_window_end_ms, prepare_publication}
use hyperliquid_market_bench.Publication.Progress.{aligned_window_end_ms-multiple}
use hyperliquid_market_bench.Publication.Events.{WindowRow, window_events}
use hyperliquid_market_bench.Publication.Agreement.{Column, Rows, key_of, all_keys}
use hyperliquid_market_bench.Publication.Columns.{Registered, all_rows-Rows}
use hyperliquid_market_bench.Safety.{tick-Inv, Inv-schedule}

is_coin-cons : (c d : String) (cs : List String) → is_coin cs d ≡ true → is_coin (c ∷ cs) d ≡ true
is_coin-cons c d cs h = ground arith

is_coin-head : (c : String) (cs : List String) → is_coin (c ∷ cs) c ≡ true
is_coin-head c cs = ground arith

-- Each of the coins is one of them.
is_coin-All : (cs : List String) → All (λ c. is_coin cs c ≡ true) cs
is_coin-All [] = tt
is_coin-All (c ∷ cs) = (
  is_coin-head c cs,
  All-mono (λ d. is_coin cs d ≡ true) (λ d. is_coin (c ∷ cs) d ≡ true)
      (λ d h. is_coin-cons c d cs h) cs (is_coin-All cs),
)

module _ (config : BenchmarkConfig) (now wall_ms : ℕ) where
  -- The end of the window is not ahead of the clock of the published windows or of the time of the
  -- last one.
  abbrev pub NotAhead : ℕ → Benchmark → Type 0
  NotAhead end_ms c = (end_ms ≤ c.outcome_cursor_wall_ms) ⊎ (now ≤ c.outcome_cursor)

  -- There are no rows where the end is not ahead; else there is one for each provider of each coin,
  -- in their order, and the interval up to now is prepared.
  abbrev pub Shape : ℕ → List WindowRow × Benchmark → Type 0
  Shape end_ms r =
      (NotAhead end_ms r.1 × (r.0 ≡ []))
      ⊎ ((r.1.outcome_cursor_wall_ms < end_ms)
          × (r.1.outcome_cursor < now)
          × (map key_of r.0 ≡ all_keys config config.coins)
          × (r.1.prepared_outcome_interval ≡ some (record { end = now; end_wall_ms = end_ms })))

  -- The state is the one that `prepare_publication` describes, the rows are those of the window
  -- that ends at the last multiple of the interval, and each row agrees with its coin's window.
  pub record Publishes (b : Benchmark) (r : List WindowRow × Benchmark) : Type 0 where
    pub prepares : prepare_publication config now wall_ms b ≡ some r.1
    pub columns : All (Column config now r.1) r.0
    pub shape :
        Shape (wall_ms / as_millis config.publish_interval * as_millis config.publish_interval) r

  Column-prepared :
      (b : Benchmark) (p : Option PreparedOutcomeInterval) (row : WindowRow)
      → Column config now b row
      → Column config now (record b { prepared_outcome_interval = p }) row
  Column-prepared b p row c = record {
    window = c.window;
    found = c.found;
    agrees = c.agrees;
    outcomes = c.outcomes;
    samples = c.samples;
  }

  prepare-late :
      (b c : Benchmark) (end_ms : ℕ)
      → tick config now (record b { prepared_outcome_interval = none }) ≡ some c
      → aligned_window_end_ms wall_ms config.publish_interval ≡ some end_ms
      → (leb end_ms c.outcome_cursor_wall_ms || leb now c.outcome_cursor) ≡ true
      → prepare_publication config now wall_ms b ≡ some c
  unfolding prepare_publication
  prepare-late b c end_ms t a l = rw (t, ◌>>=◌, a, l) refl

  prepare-fresh :
      (b c : Benchmark) (end_ms : ℕ)
      → tick config now (record b { prepared_outcome_interval = none }) ≡ some c
      → aligned_window_end_ms wall_ms config.publish_interval ≡ some end_ms
      → (leb end_ms c.outcome_cursor_wall_ms || leb now c.outcome_cursor) ≡ false
      → prepare_publication config now wall_ms b
        ≡ some (record c {
          prepared_outcome_interval = some (record { end = now; end_wall_ms = end_ms });
        })
  unfolding prepare_publication
  prepare-fresh b c end_ms t a l = rw (t, ◌>>=◌, a, l) refl

  not_ahead :
      (end_ms : ℕ) (c : Benchmark)
      → (leb end_ms c.outcome_cursor_wall_ms || leb now c.outcome_cursor) ≡ true
      → NotAhead end_ms c
  not_ahead end_ms c h = elim (Bool-cases (leb end_ms c.outcome_cursor_wall_ms)) [
    | inl e ↦ inl (ground arith)
    | inr e ↦ inr (ground arith)
  ]

  -- From a state that satisfies the invariant, with a publish interval of a millisecond or more and
  -- a registered stream for each provider of each coin, the events of a window are built without a
  -- panic, and the state afterwards is the prepared one. The window ends at the last multiple of
  -- the interval up to the wall clock. Where that end is not ahead of the last published one, or
  -- now is not after the last publication, there are no rows; else there is one row for each
  -- provider of each coin, in their order, and the interval up to now is prepared. In every row the
  -- sample count, the percentiles, the commit delays and the numbers of complete and evicted
  -- cohorts are those of the coin's window, and the coverage is that of the row's own provider. The
  -- complete cohorts of the outcomes are the window's unreported ones committed up to now where
  -- providers are compared, and none where they are not; the strict and the tied wins of each
  -- company are those of these cohorts, and the strict wins of all companies and the ties add up to
  -- their number. A row is ready only with at least 1,000 samples.
  pub window_events-Publishes :
      (signals : RuntimeSignals) (clock : ClockAssessment) (b : Benchmark)
      → Registered config signals
      → 0 < as_millis config.publish_interval
      → Inv config b
      → Ensures (Publishes b) (window_events config now wall_ms signals clock b)
  unfolding window_events
  window_events-Publishes signals clock b registered h v =
      let quiet : Benchmark = record b { prepared_outcome_interval = none } in
      let (c, t, w) =
        Ensures-some (Inv config) (tick config now quiet)
          (tick-Inv config now quiet (quiet_inv b v)) in
      let (end_ms, a, multiple, _, _) =
        aligned_window_end_ms-multiple wall_ms config.publish_interval h in
      elim (Bool-cases (leb end_ms c.outcome_cursor_wall_ms || leb now c.outcome_cursor)) [
        | inl l ↦
            rw (t, ◌>>=◌, a, l)
              (record {
                prepares = prepare-late b c end_ms t a l;
                columns = tt;
                shape = subst (λ e. Shape e ([], c)) multiple (inl (not_ahead end_ms c l, refl));
              })
        | inr l ↦
            rw (t, ◌>>=◌, a, l)
              (Ensures->>= (Rows config now c (all_keys config config.coins)) (Publishes b) _ _
                (all_rows-Rows config signals registered _ now clock c config.coins
                  (is_coin-All config.coins) w)
                (λ rows k. record {
                  prepares = prepare-fresh b c end_ms t a l;
                  columns = All-mono (Column config now c) _ (Column-prepared c _) rows k.0;
                  shape =
                      subst (λ e. Shape e (rows, prepared c end_ms)) multiple
                        (inr (ground arith, ground arith, k.1, refl));
                }))
      ]
    where
      prepared : Benchmark → ℕ → Benchmark
      prepared c end_ms = record c {
        prepared_outcome_interval = some (record { end = now; end_wall_ms = end_ms });
      }

      quiet_inv :
          (b : Benchmark)
          → Inv config b
          → Inv config (record b { prepared_outcome_interval = none })
      quiet_inv b v =
          Inv-schedule config b b.outcome_cursor b.outcome_cursor_wall_ms b.outcome_has_published
            none v
