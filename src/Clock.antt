-- ===== src/Clock.antt =====
-- src/clock.rs: `ClockHealthSnapshot::assess`. A snapshot holds two floats; the model takes the
-- type of floats and the tests on it as parameters, and uses no law of them.
use hyperliquid_market_bench.Prelude.{
  ℕ, ◌<◌, ◌≤◌, ◌-◌, ◌*◌, ◌≡◌, ◌↔◌, Option, none, some, Bool, true, false, not, ◌&&◌, String,
  if◌then◌else◌, ltb, leb, arith, Option-cases, inl, inr,
}
use hyperliquid_market_bench.Config.{nanos_per_second}
use hyperliquid_market_bench.Benchmark.{as_millis}

pub record ClockAssessment : Type 0 where
  pub healthy : Bool
  pub status : String
  pub age_ms : Option ℕ

abbrev pub clock_sample_max_age : ℕ
clock_sample_max_age = 30 * nanos_per_second

abbrev pub unhealthy : String → Option ℕ → ClockAssessment
unhealthy status age_ms = record { healthy = false; status = status; age_ms = age_ms }

-- The age of the sample, if its time is there and not in the future.
abbrev pub sample_age : ℕ → ℕ → Option ℕ
sample_age checked_at_wall_ms wall_now_ms =
    if ltb 0 checked_at_wall_ms && leb checked_at_wall_ms wall_now_ms
    then some (wall_now_ms - checked_at_wall_ms)
    else none

abbrev pub is_too_old : Option ℕ → Bool
is_too_old none = true
is_too_old (some age) = ltb (as_millis clock_sample_max_age) age

-- `is_finite`, `x.abs() > y` and `x > y` on f64.
module _ {F : Type 0} (is_finite : F → Bool) (abs_exceeds exceeds : F → F → Bool) where
  abbrev pub finite : Option F → Option F
  finite none = none
  finite (some x) = if is_finite x then some x else none

  abbrev pub assess_error : Option F → F → Option ℕ → ClockAssessment
  assess_error none max_offset_ms age_ms = unhealthy "clock-unverified" age_ms
  assess_error (some error_bound_ms) max_offset_ms age_ms =
      if exceeds error_bound_ms max_offset_ms
      then unhealthy "clock-error-bound-exceeded" age_ms
      else record { healthy = true; status = "healthy"; age_ms = age_ms }

  abbrev pub assess_offset : Option F → Option F → F → Option ℕ → ClockAssessment
  assess_offset none error_bound_ms max_offset_ms age_ms = unhealthy "clock-unverified" age_ms
  assess_offset (some offset_ms) error_bound_ms max_offset_ms age_ms =
      if abs_exceeds offset_ms max_offset_ms
      then unhealthy "clock-offset-exceeded" age_ms
      else assess_error (finite error_bound_ms) max_offset_ms age_ms

  pub record ClockHealthSnapshot : Type 0 where
    pub checked_at_wall_ms : ℕ
    pub source : String
    pub verified : Bool
    pub synchronized : Bool
    pub offset_ms : Option F
    pub error_bound_ms : Option F
    pub max_offset_ms : F

  unfoldable pub assess : ClockHealthSnapshot → ℕ → ClockAssessment
  assess c wall_now_ms =
      let age_ms = sample_age c.checked_at_wall_ms wall_now_ms in
      if is_too_old age_ms
      then unhealthy "clock-check-stale" age_ms
      else if not c.verified
      then unhealthy "clock-unverified" age_ms
      else if not c.synchronized
      then unhealthy "clock-unsynchronized" age_ms
      else assess_offset (finite c.offset_ms) c.error_bound_ms c.max_offset_ms age_ms

  -- What a healthy clock comes with.
  pub record IsTrusted (c : ClockHealthSnapshot) (wall_now_ms : ℕ) : Type 0 where
    pub checked : 0 < c.checked_at_wall_ms
    pub past : c.checked_at_wall_ms ≤ wall_now_ms
    pub recent : wall_now_ms - c.checked_at_wall_ms ≤ 30_000
    pub verified : c.verified ≡ true
    pub synchronized : c.synchronized ≡ true
    pub offset :
        (x : F) × (c.offset_ms ≡ some x)
        × (is_finite x ≡ true)
        × (abs_exceeds x c.max_offset_ms ≡ false)
    pub error_bound :
        (x : F) × (c.error_bound_ms ≡ some x)
        × (is_finite x ≡ true)
        × (exceeds x c.max_offset_ms ≡ false)

  trusted : (c : ClockHealthSnapshot) (now : ℕ) → (assess c now).healthy ≡ true → IsTrusted c now
  unfolding assess
  trusted c now h = record {
    checked = ground arith;
    past = ground arith;
    recent = ground arith;
    verified = ground arith;
    synchronized = ground arith;
    offset = elim (Option-cases c.offset_ms) [
      | inl e ↦ absurd (ground arith)
      | inr (x, e) ↦ (x, e, ground arith, ground arith)
    ];
    error_bound = elim (Option-cases c.error_bound_ms) [
      | inl e ↦ absurd (ground arith)
      | inr (x, e) ↦ (x, e, ground arith, ground arith)
    ];
  }

  trusted-assess :
      (c : ClockHealthSnapshot) (now : ℕ) → IsTrusted c now → (assess c now).healthy ≡ true
  unfolding assess
  trusted-assess c now t =
      ground
        (arith, t.checked, t.past, t.recent, t.verified, t.synchronized, t.offset, t.error_bound)

  -- The clock is healthy exactly for a verified and synchronized sample that was taken at most 30
  -- seconds ago and not in the future, with a finite offset and a finite error bound that do not
  -- exceed the maximum.
  pub assess-IsTrusted :
      (c : ClockHealthSnapshot) (now : ℕ) → ((assess c now).healthy ≡ true) ↔ IsTrusted c now
  assess-IsTrusted c now = (trusted c now, trusted-assess c now)
