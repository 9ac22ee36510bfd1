-- ===== src/Tests/Publishing.antt =====
-- The results on the rows of a publication and on the clock, applied.
use hyperliquid_market_bench.Prelude.{
  ℕ, ◌<◌, ◌≡◌, ◌↔◌, refl, some, Bool, true, false, Ensures, ltb, arith, String_discrete, Bool-cases,
}
use hyperliquid_market_bench.Benchmark.{new, as_millis}
use hyperliquid_market_bench.Clock.{
  ClockAssessment, ClockHealthSnapshot, assess, IsTrusted, assess-IsTrusted,
}
use hyperliquid_market_bench.Signals.{RuntimeSignals, new_signals}
use hyperliquid_market_bench.Signals.Registration.{new_signals-is_some}
use hyperliquid_market_bench.Publication.Rows.{
  CohortHealth, readiness, is_ready, says_ready, readiness-is_ready,
}
use hyperliquid_market_bench.Publication.Events.{window_events}
use hyperliquid_market_bench.Publication.Published.{Publishes, window_events-Publishes}
use hyperliquid_market_bench.Safety.Start.{new-Inv}
use hyperliquid_market_bench.Tests.Scenario.{program, bbo_config, at_ms}

abbrev healthy_clock : ClockAssessment
healthy_clock = record { healthy = true; status = "healthy"; age_ms = some 5 }

abbrev good_health : CohortHealth bbo_config
good_health = record {
  integrity_complete = true;
  connections_live = true;
  messages_fresh = true;
  clock = healthy_clock;
}

healthy_text : says_ready "healthy" ≡ false
unfolding String_discrete Bool-cases
healthy_text = refl

readiness-is_ready_example :
    says_ready (readiness bbo_config good_health true 1_500) ≡ is_ready bbo_config good_health 1_500
readiness-is_ready_example =
    readiness-is_ready bbo_config good_health true 1_500 healthy_text (λ h. refl)

abbrev all_signals : RuntimeSignals
all_signals = new_signals bbo_config.coins

publish_interval-positive : 0 < as_millis bbo_config.publish_interval
unfolding program
publish_interval-positive = omega arith

window_events-Publishes_example :
    Ensures (Publishes bbo_config (at_ms 61_234) 61_234 (new bbo_config.coins 0 0)) (
      window_events bbo_config
        (at_ms 61_234)
        61_234
        all_signals
        healthy_clock
        (new bbo_config.coins 0 0))
window_events-Publishes_example =
    window_events-Publishes bbo_config (at_ms 61_234) 61_234 all_signals healthy_clock
      (new bbo_config.coins 0 0) (new_signals-is_some bbo_config) publish_interval-positive
      (new-Inv bbo_config 0 0)

-- Natural numbers of microseconds stand for the floats.
abbrev is_number : ℕ → Bool
is_number x = true

abbrev above : ℕ → ℕ → Bool
above x y = ltb y x

abbrev sample : ClockHealthSnapshot is_number above above
sample = record {
  checked_at_wall_ms = 60_000;
  source = "chrony";
  verified = true;
  synchronized = true;
  offset_ms = some 12;
  error_bound_ms = some 40;
  max_offset_ms = 5_000;
}

assess-IsTrusted_example :
    ((assess is_number above above sample 61_000).healthy ≡ true)
    ↔ IsTrusted is_number above above sample 61_000
assess-IsTrusted_example = assess-IsTrusted is_number above above sample 61_000
