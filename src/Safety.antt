-- ===== src/Safety.antt =====
-- src/benchmark.rs: every call of `Benchmark`, in any order, keeps the invariant and does not
-- panic.
pub mod Start
use hyperliquid_market_bench.Prelude.{
  ℕ, ◌≤◌, ◌<◌, ◌≡◌, refl, sym, ◌∙◌, ap, max, List, [], ◌∷◌, Option, none, some, Bool, true, false,
  String, String_discrete, length, All, All-keep, All-mono, length-keep-le, Ensures, Ensures->>=,
  Ensures-mono, for_each, for_each-Ensures, Option-cases, Bool-cases, inl, inr, arith, ◌>>=◌,
  if◌then◌else◌, map, keep, leb, ◌||◌,
}
use hyperliquid_market_bench.Dict.{Map, get, contains_key, map_values, insert}
use hyperliquid_market_bench.Dict.Laws.{
  contains_key-map_values, contains_key-keep, All-map_values, get-insert, All-insert,
}
use hyperliquid_market_bench.Model.Keys.{
  coin_of, EventKey, BaseKey, BaseKey_discrete, ProbeEvent, market, reconnect, sequence_gap, replay,
}
use hyperliquid_market_bench.Config.{BenchmarkConfig}
use hyperliquid_market_bench.Benchmark.{
  Benchmark, CoinWindow, CommittedCohort, PreparedOutcomeInterval, CoverageCohort, PendingBase,
  SettledCohort, as_millis, new, register, empty_window, zero_counters,
}
use hyperliquid_market_bench.Benchmark.Rings.{IsRing, IsSortedBy, prune_window-IsRing}
use hyperliquid_market_bench.Benchmark.Windows.{prune_window, within}
use hyperliquid_market_bench.Benchmark.Settle.{settle}
use hyperliquid_market_bench.Benchmark.Record.{record_event, prune, tick, has_expired}
use hyperliquid_market_bench.Benchmark.Invariant.{is_coin, IsCoin, IsPending, Inv}
use hyperliquid_market_bench.Benchmark.Keeps.{Keeps, Keeps-refl, with_counters-Keeps}
use hyperliquid_market_bench.Benchmark.Settling.{Settles, settle-Settles}
use hyperliquid_market_bench.Benchmark.Recording.{record_market-Inv}
use hyperliquid_market_bench.Outcomes.{mark_outcomes_reported, mark_cohort, is_unreported}
use hyperliquid_market_bench.Outcomes.Marking.{mark_outcomes_reported-IsRing}
use hyperliquid_market_bench.Publication.Progress.{aligned_window_end_ms-multiple}
use hyperliquid_market_bench.Publication.{
  aligned_window_end_ms, prepare_publication, commit_interval, commit_prepared_publication,
  reject_prepared_publication,
}

-- The calls that the collector's loop makes, with their instants and wall clocks.
pub data Call : Type 0 where
  record_call : ProbeEvent → Call
  tick_call : ℕ → Call
  prepare_call : ℕ → ℕ → Call
  commit_call : Call
  reject_call : Call

module _ (config : BenchmarkConfig) where
  abbrev pub Allowed : Call → Type 0
  Allowed (record_call e) = IsCoin config (coin_of e)
  Allowed (prepare_call now wall_ms) = 0 < as_millis config.publish_interval
  Allowed _ = Unit

  unfoldable pub step : Call → Benchmark → Option Benchmark
  step (record_call e) b = record_event config e b
  step (tick_call now) b = tick config now b
  step (prepare_call now wall_ms) b = prepare_publication config now wall_ms b
  step commit_call b = some (commit_prepared_publication b).0
  step reject_call b = some (reject_prepared_publication b)

  record_event-Inv :
      (e : ProbeEvent) (b : Benchmark)
      → IsCoin config (coin_of e)
      → Inv config b
      → Ensures (Inv config) (record_event config e b)
  unfolding record_event
  record_event-Inv (market event) b known v = record_market-Inv config event known b v
  record_event-Inv (reconnect p coin) b known v =
      Ensures-mono _ (Inv config) _
        (with_counters-Keeps config p coin _ b b known (Keeps-refl config b v)) (λ c k. k.inv)
  record_event-Inv (sequence_gap p coin n) b known v =
      Ensures-mono _ (Inv config) _
        (with_counters-Keeps config p coin _ b b known (Keeps-refl config b v)) (λ c k. k.inv)
  record_event-Inv (replay p coin n gap) b known v =
      Ensures-mono _ (Inv config) _
        (with_counters-Keeps config p coin _ b b known (Keeps-refl config b v)) (λ c k. k.inv)

  abbrev KeepsRing : (CoinWindow → CoinWindow) → Type 0
  KeepsRing f =
      (w : CoinWindow)
      → IsRing config.max_rolling_cohorts w
      → IsRing config.max_rolling_cohorts (f w)

  Inv-map_windows :
      (f : CoinWindow → CoinWindow) (b : Benchmark)
      → KeepsRing f
      → Inv config b
      → Inv config (record b { windows = map_values f b.windows })
  Inv-map_windows f b g v = record {
    counters_known = v.counters_known;
    windows_known =
        λ c q. contains_key-map_values String_discrete f c b.windows ∙ v.windows_known c q;
    pending_valid = v.pending_valid;
    pending_cap = v.pending_cap;
    bases_known = v.bases_known;
    bases_cap = v.bases_cap;
    settled_known = v.settled_known;
    settled_cap = v.settled_cap;
    rings = All-map_values (IsRing config.max_rolling_cohorts) f b.windows g v.rings;
    sealed = v.sealed;
  }

  Inv-keep_settled :
      (p : BaseKey × ℕ → Bool) (q : EventKey × SettledCohort → Bool) (b : Benchmark)
      → Inv config b
      → Inv config (record b { settled_bases = keep p b.settled_bases; settled = keep q b.settled })
  Inv-keep_settled p q b v = record {
    counters_known = v.counters_known;
    windows_known = v.windows_known;
    pending_valid = v.pending_valid;
    pending_cap = v.pending_cap;
    bases_known =
        All-keep (λ (e : BaseKey × ℕ). IsCoin config e.0.coin) p b.settled_bases v.bases_known;
    bases_cap = omega (arith, length-keep-le p b.settled_bases, v.bases_cap);
    settled_known =
        All-keep (λ (e : EventKey × SettledCohort). IsCoin config e.0.coin) q b.settled
          v.settled_known;
    settled_cap = omega (arith, length-keep-le q b.settled, v.settled_cap);
    rings = v.rings;
    sealed = λ j h. v.sealed j (contains_key-keep BaseKey_discrete p j b.settled_bases h);
  }

  prune-Inv : (now : ℕ) (b : Benchmark) → Inv config b → Inv config (prune config now b)
  unfolding prune
  prune-Inv now b v =
      Inv-map_windows _ _
        (λ w r. prune_window-IsRing config.max_rolling_cohorts now w r config.rolling_window)
        (Inv-keep_settled _ _ b v)

  pub tick-Inv : (now : ℕ) (b : Benchmark) → Inv config b → Ensures (Inv config) (tick config now b)
  unfolding tick
  tick-Inv now b v =
      Ensures->>= (Inv config) (Inv config) _ _
        (for_each-Ensures (Inv config) (λ (e : BaseKey × PendingBase). settle config e.0 now false)
          (λ e c w.
            Ensures-mono (Settles config e.0 c) (Inv config) _
              (settle-Settles config e.0 now false c w) (λ d s. s.inv))
          (keep (has_expired config now) b.pending) b v)
        (λ c w. prune-Inv now c w)

  pub Inv-schedule :
      (b : Benchmark) (cursor wall_ms : ℕ) (published : Bool)
      (prepared : Option PreparedOutcomeInterval)
      → Inv config b
      → Inv config (record b {
        outcome_cursor = cursor;
        outcome_cursor_wall_ms = wall_ms;
        outcome_has_published = published;
        prepared_outcome_interval = prepared;
      })
  Inv-schedule b cursor wall_ms published prepared v = record {
    counters_known = v.counters_known;
    windows_known = v.windows_known;
    pending_valid = v.pending_valid;
    pending_cap = v.pending_cap;
    bases_known = v.bases_known;
    bases_cap = v.bases_cap;
    settled_known = v.settled_known;
    settled_cap = v.settled_cap;
    rings = v.rings;
    sealed = v.sealed;
  }

  commit_interval-Inv :
      (p : PreparedOutcomeInterval) (b : Benchmark)
      → Inv config b
      → Inv config (commit_interval p b).0
  unfolding commit_interval
  commit_interval-Inv p b v =
      elim (Bool-cases (leb p.end_wall_ms b.outcome_cursor_wall_ms || leb p.end b.outcome_cursor)) [
        | inl late ↦ rw late v
        | inr fresh ↦ rw fresh (
            Inv-schedule
              (record b { windows = map_values (mark_outcomes_reported p.end) b.windows }) p.end
              p.end_wall_ms true b.prepared_outcome_interval
              (Inv-map_windows (mark_outcomes_reported p.end) b
                (λ w r. mark_outcomes_reported-IsRing config.max_rolling_cohorts p.end w r) v))
      ]

  commit-Inv : (b : Benchmark) → Inv config b → Inv config (commit_prepared_publication b).0
  unfolding commit_prepared_publication
  commit-Inv b v = elim (Option-cases b.prepared_outcome_interval) [
    | inl e ↦ rw (e, commit_prepared_publication) v
    | inr (p, e) ↦
        rw (e, commit_prepared_publication)
          (commit_interval-Inv p (record b { prepared_outcome_interval = none })
            (Inv-schedule b b.outcome_cursor b.outcome_cursor_wall_ms b.outcome_has_published none
              v))
  ]

  prepare-Inv :
      (now wall_ms : ℕ) (b : Benchmark)
      → 0 < as_millis config.publish_interval
      → Inv config b
      → Ensures (Inv config) (prepare_publication config now wall_ms b)
  unfolding prepare_publication
  prepare-Inv now wall_ms b h v =
      let (end_ms, found, _, _, _) =
        aligned_window_end_ms-multiple wall_ms config.publish_interval h in
      let quiet =
        Inv-schedule b b.outcome_cursor b.outcome_cursor_wall_ms b.outcome_has_published none v in
      Ensures->>= (Inv config) (Inv config) _ _ (tick-Inv now _ quiet) λ c w.
        rw (found, ◌>>=◌)
          (elim (Bool-cases (leb end_ms c.outcome_cursor_wall_ms || leb now c.outcome_cursor)) [
            | inl e ↦ rw e w
            | inr e ↦ rw e (
                Inv-schedule c c.outcome_cursor c.outcome_cursor_wall_ms c.outcome_has_published _
                  w)
          ])

  -- No call on a registered coin panics, and each keeps the invariant.
  pub step-Inv :
      (call : Call) (b : Benchmark)
      → Allowed call
      → Inv config b
      → Ensures (Inv config) (step call b)
  unfolding step reject_prepared_publication
  step-Inv (record_call e) b a v = record_event-Inv e b a v
  step-Inv (tick_call now) b a v = tick-Inv now b v
  step-Inv (prepare_call now wall_ms) b a v = prepare-Inv now wall_ms b a v
  step-Inv commit_call b a v = commit-Inv b v
  step-Inv reject_call b a v =
      Inv-schedule b b.outcome_cursor b.outcome_cursor_wall_ms b.outcome_has_published none v

  unfoldable pub run : List Call → Benchmark → Option Benchmark
  run [] b = some b
  run (call ∷ calls) b = step call b >>= run calls

  pub run_from-Inv :
      (calls : List Call) (b : Benchmark)
      → All Allowed calls
      → Inv config b
      → Ensures (Inv config) (run calls b)
  unfolding run
  run_from-Inv [] b a v = v
  run_from-Inv (call ∷ calls) b a v =
      Ensures->>= (Inv config) (Inv config) _ _ (step-Inv call b a.0 v)
        (λ c w. run_from-Inv calls c a.1 w)
