-- ===== src/Reconnect.antt =====
-- src/streams.rs: `ReconnectBackoff`, `connection_duration` and `read_deadline_exceeded`. Durations
-- are nanoseconds.
use native.Mathlib.Numerals.{unary_clauses}
use hyperliquid_market_bench.Prelude.{
  ℕ, zero, suc, ◌+◌, ◌-◌, ◌*◌, ◌^◌, ◌≤◌, ◌≡◌, refl, sym, subst, inl, inr, Bool-cases, List, [], ◌∷◌,
  ◌||◌, if◌then◌else◌, leb, ◌==◌, min, All, arith,
}
use hyperliquid_market_bench.Signals.{StreamSignal}
use hyperliquid_market_bench.Config.{nanos_per_second}

abbrev pub nanos_per_milli : ℕ
nanos_per_milli = 1_000_000

abbrev pub initial_reconnect_backoff : ℕ
initial_reconnect_backoff = 500 * nanos_per_milli

abbrev pub max_reconnect_backoff : ℕ
max_reconnect_backoff = 15 * nanos_per_second

abbrev pub healthy_connection : ℕ
healthy_connection = 30 * nanos_per_second

-- `Duration::MAX`.
abbrev pub max_duration : ℕ
max_duration = 2 ^ 64 * nanos_per_second - 1

pub record ReconnectBackoff : Type 0 where
  pub next : ℕ

abbrev pub default_backoff : ReconnectBackoff
default_backoff = record { next = initial_reconnect_backoff }

-- The delay, and the state after it.
unfoldable pub after_connection : ℕ → ReconnectBackoff → ℕ × ReconnectBackoff
after_connection connected_for b =
    let delay =
      if leb healthy_connection connected_for then initial_reconnect_backoff else b.next in
    (delay, record { next = min (min (delay * 2) max_duration) max_reconnect_backoff })

-- `connection_duration`, of the stream's snapshot.
unfoldable pub connection_duration : StreamSignal → ℕ → ℕ → ℕ
connection_duration snapshot generation_before now_ms =
    if (snapshot.connection_generation == generation_before) || (snapshot.connected_at_wall_ms == 0)
    then 0
    else (now_ms - snapshot.connected_at_wall_ms) * nanos_per_milli

-- The delays after a sequence of connections, by how long each was up.
unfoldable pub delays : List ℕ → ReconnectBackoff → List ℕ
delays [] b = []
delays (t ∷ ts) b = (after_connection t b).0 ∷ delays ts (after_connection t b).1

-- The wait before attempt `k` of a row of connections that were not healthy.
abbrev pub doubled : ℕ → ℕ
doubled k = min (initial_reconnect_backoff * 2 ^ k) max_reconnect_backoff

-- The number of connections in a row that were not healthy, this one counted by what it was.
abbrev pub in_a_row : ℕ → ℕ → ℕ
in_a_row t k = if leb healthy_connection t then 0 else k

abbrev pub exponential : List ℕ → ℕ → List ℕ
exponential [] k = []
exponential (t ∷ ts) k = doubled (in_a_row t k) ∷ exponential ts (in_a_row t k + 1)

two-pow : (k : ℕ) → 2 ^ (k + 1) ≡ 2 ^ k * 2
two-pow k = simp unary_clauses refl

doubled-suc :
    (k : ℕ) → min (min (doubled k * 2) max_duration) max_reconnect_backoff ≡ doubled (k + 1)
doubled-suc k = omega (arith, two-pow k)

after_connection-doubled :
    (t k : ℕ) (b : ReconnectBackoff)
    → b.next ≡ doubled k
    → ((after_connection t b).0 ≡ doubled (in_a_row t k))
      × ((after_connection t b).1.next ≡ doubled (in_a_row t k + 1))
unfolding after_connection
after_connection-doubled t k b h = elim (Bool-cases (leb healthy_connection t)) [
  | inl e ↦ rw e (refl, doubled-suc 0)
  | inr e ↦ rw (e, h) (refl, doubled-suc k)
]

delays-exponential_from :
    (ts : List ℕ) (k : ℕ) (b : ReconnectBackoff)
    → b.next ≡ doubled k
    → delays ts b ≡ exponential ts k
unfolding delays
delays-exponential_from [] k b h = refl
delays-exponential_from (t ∷ ts) k b h =
    let (now, next) = after_connection-doubled t k b h in
    rw (now, delays-exponential_from ts (in_a_row t k + 1) (after_connection t b).1 next) refl

doubled-bounds :
    (k : ℕ) → (initial_reconnect_backoff ≤ doubled k) × (doubled k ≤ max_reconnect_backoff)
doubled-bounds zero = omega arith
doubled-bounds (suc k) = omega (arith, doubled-bounds k, doubled-suc k)

abbrev pub IsBounded : ℕ → Type 0
IsBounded d = (initial_reconnect_backoff ≤ d) × (d ≤ max_reconnect_backoff)

exponential-IsBounded : (ts : List ℕ) (k : ℕ) → All IsBounded (exponential ts k)
exponential-IsBounded [] k = tt
exponential-IsBounded (t ∷ ts) k =
    (doubled-bounds (in_a_row t k), exponential-IsBounded ts (in_a_row t k + 1))

-- The waits between connections double from half a second for each connection in a row that was
-- up for less than 30 seconds, up to 15 seconds, and start again after any other connection;
-- each lies between the two bounds.
pub delays-exponential :
    (ts : List ℕ)
    → (delays ts default_backoff ≡ exponential ts 0) × All IsBounded (delays ts default_backoff)
delays-exponential ts =
    let same = delays-exponential_from ts 0 default_backoff refl in
    (same, subst (All IsBounded) (sym same) (exponential-IsBounded ts 0))
