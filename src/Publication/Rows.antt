-- ===== src/Publication/Rows.antt =====
-- src/benchmark.rs: how `window_events` judges the health and the readiness of a coin's providers.
-- The signals that it reads are taken to be the same throughout one publication.
use hyperliquid_market_bench.Prelude.{
  ℕ, ◌-◌, List, Option, none, some, Bool, true, false, not, ◌&&◌, ◌||◌, String, String_discrete,
  if◌then◌else◌, leb, ltb, ◌==◌, all, ◌≡◌, refl, ◌∙◌, arith, Bool-cases, inl, inr,
}
use mathlib.Core.Logic.{ite}
use hyperliquid_market_bench.Config.{BenchmarkConfig}
use hyperliquid_market_bench.Benchmark.{CoinWindow, as_millis}
use hyperliquid_market_bench.Signals.{StreamSignal}
use hyperliquid_market_bench.Clock.{ClockAssessment}

abbrev pub min_ready_samples : ℕ
min_ready_samples = 1_000

unfoldable pub stream_message_age_ms : ℕ → ℕ → Option ℕ
stream_message_age_ms reference_wall_ms message_wall_ms =
    if ltb 0 message_wall_ms then some (reference_wall_ms - message_wall_ms) else none

abbrev pub is_fresh : ℕ → Option ℕ → Bool
is_fresh stale_after_ms none = false
is_fresh stale_after_ms (some age) = leb age stale_after_ms

module _ (config : BenchmarkConfig) where
  abbrev pub state_integrity_complete : ℕ → CoinWindow → Bool
  state_integrity_complete now window = elim window.last_integrity_loss [
    | none ↦ true
    | some lost ↦ ltb config.rolling_window (now - lost)
  ]

  abbrev pub no_recent_drop : ℕ → StreamSignal → Bool
  no_recent_drop wall_ms signal =
      (signal.last_queue_drop_wall_ms == 0)
      || (leb signal.last_queue_drop_wall_ms wall_ms
          && ltb (as_millis config.rolling_window) (wall_ms - signal.last_queue_drop_wall_ms))

  abbrev pub hears : ℕ → StreamSignal → Bool
  hears wall_ms signal =
      is_fresh (as_millis config.stale_after)
        (stream_message_age_ms wall_ms signal.last_message_wall_ms)

  -- What is known of a coin's cohort of providers when its rows are built.
  pub record CohortHealth : Type 0 where
    pub integrity_complete : Bool
    pub connections_live : Bool
    pub messages_fresh : Bool
    pub clock : ClockAssessment

  unfoldable pub cohort_health :
      ℕ → ℕ → ClockAssessment → CoinWindow → List StreamSignal → CohortHealth
  cohort_health now wall_ms clock window signals = record {
    integrity_complete =
        state_integrity_complete now window && all (no_recent_drop wall_ms) signals;
    connections_live = all (λ (s : StreamSignal). s.connection_up) signals;
    messages_fresh = all (hears wall_ms) signals;
    clock = clock;
  }

  abbrev pub cohort_health_complete : CohortHealth → Bool
  cohort_health_complete h =
      h.integrity_complete && h.connections_live && h.messages_fresh && h.clock.healthy

  abbrev pub enough_samples : ℕ → Bool
  enough_samples sample_count = leb min_ready_samples sample_count

  abbrev pub cohort_complete : CohortHealth → ℕ → Bool
  cohort_complete h sample_count = cohort_health_complete h && ltb 0 sample_count

  abbrev pub is_ready : CohortHealth → ℕ → Bool
  is_ready h sample_count = cohort_complete h sample_count && enough_samples sample_count

  unfoldable pub readiness : CohortHealth → Bool → ℕ → String
  readiness h fresh sample_count =
      if not h.connections_live
      then "disconnected"
      else if not h.messages_fresh || not fresh
      then "stale"
      else if not h.clock.healthy
      then h.clock.status
      else if not h.integrity_complete
      then "integrity-gap"
      else if not (enough_samples sample_count)
      then "warming-up"
      else "ready"

-- Whether a text is the one that a ready row carries.
abbrev pub says_ready : String → Bool
says_ready s = ite (String_discrete s "ready") true false

texts :
    (says_ready "disconnected" ≡ false)
    × (says_ready "stale" ≡ false)
    × (says_ready "integrity-gap" ≡ false)
    × (says_ready "warming-up" ≡ false)
    × (says_ready "ready" ≡ true)
unfolding String_discrete Bool-cases
texts = (refl, refl, refl, refl, refl)

module _ (config : BenchmarkConfig) where
  -- A row reads "ready" exactly where it is ready, provided that the clock's own status never does
  -- and that the row's provider has been heard where its whole cohort has.
  pub readiness-is_ready :
      (h : CohortHealth config) (fresh : Bool) (sample_count : ℕ)
      → says_ready h.clock.status ≡ false
      → (h.messages_fresh ≡ true → fresh ≡ true)
      → says_ready (readiness config h fresh sample_count) ≡ is_ready config h sample_count
  unfolding readiness
  readiness-is_ready h fresh sample_count status heard = elim (Bool-cases h.connections_live) [
    | inr a ↦ rw a (texts.0 ∙ ground arith)
    | inl a ↦ rw a (elim (Bool-cases h.messages_fresh) [
      | inr b ↦ rw b (texts.1 ∙ ground arith)
      | inl b ↦
          rw (b, heard b)
            (elim (Bool-cases h.clock.healthy) [
              | inr c ↦ rw c (status ∙ ground arith)
              | inl c ↦ rw c (elim (Bool-cases h.integrity_complete) [
                | inr d ↦ rw d (texts.2 ∙ ground arith)
                | inl d ↦ rw d (elim (Bool-cases (enough_samples config sample_count)) [
                  | inr e ↦ rw e (texts.3 ∙ ground arith)
                  | inl e ↦ rw e (texts.4 ∙ ground arith)
                ])
              ])
            ])
    ])
  ]
