-- ===== src/Peering.antt =====
-- src/peering.rs: `Assembly`, which completes a round when its ordering record, its reference line
-- and all bundles that the line names have arrived. The clock is an argument; instants are
-- nanoseconds, and `duration_since` saturates. The parser of times is a library's.
pub mod Drain
pub mod Closes
pub mod Drained
pub mod Payload
pub mod Frames
pub mod Cuts
pub mod Stream
pub mod Resync
pub mod Boundary
pub mod Decoded
pub mod Hashes
pub mod Blocks
use hyperliquid_market_bench.Prelude.{
  ℕ, zero, suc, ◌+◌, ◌-◌, ◌*◌, ◌≤◌, ◌<◌, max, List, [], ◌∷◌, ◌++◌, Option, none, some, Bool, true,
  false, String, ◌&&◌, ◌||◌, not, if◌then◌else◌, ltb, leb, ◌==◌, map, keep, is_some, add_u64,
  length, ℕ_discrete, ◌>>=◌,
}
use hyperliquid_market_bench.Hex.{parse_hex32}
use hyperliquid_market_bench.Dict.{Map, get, insert, remove}
use hyperliquid_market_bench.Model.Provider.{Provider}
use hyperliquid_market_bench.Model.Keys.{MarketEvent}
use hyperliquid_market_bench.Model.Keys
use hyperliquid_market_bench.Config.{nanos_per_second}

abbrev pub round_window : ℕ
round_window = 5000

abbrev pub round_retain : ℕ
round_retain = 2000

abbrev pub bundle_retain : ℕ
bundle_retain = 120 * nanos_per_second

abbrev pub incomplete_deadline : ℕ
incomplete_deadline = 5 * nanos_per_second

-- A 32-byte signature value, by its bytes.
abbrev pub Sig : Type 0
Sig = List ℕ

pub Sig_discrete : Discrete Sig
Sig_discrete = hlevel ℕ_discrete

-- A bundle is its hash, its first signature's value if it has one, and the number of its actions.
pub record ReferenceLine : Type 0 where
  pub r : ℕ
  pub t : String
  pub b : List (List ℕ × Option (List ℕ) × ℕ)

pub record ReferenceRound : Type 0 where
  pub time_ms : ℕ
  pub bundle_sigs : List Sig

pub record TrackedRound : Type 0 where
  pub ordering : Option (ℕ × ℕ)
  pub reference : Option ReferenceRound
  pub first_seen : Option ℕ
  pub reported_gap : Bool

abbrev pub untracked : TrackedRound
untracked = record { ordering = none; reference = none; first_seen = none; reported_gap = false }

pub record Bundle : Type 0 where
  pub arrived : ℕ
  pub wall_ms : ℕ
  pub seen : ℕ

pub record Assembly : Type 0 where
  pub provider : Provider
  pub coin : String
  pub rounds : Map ℕ TrackedRound
  pub bundles : List (Sig × Bundle)
  pub max_ref_round : ℕ
  pub emitted_high_water : ℕ
  pub gaps_no_ordering : ℕ
  pub gaps_missing_bundle : ℕ
  pub completed : ℕ
  pub score_from_ms : ℕ

-- `entry(round).or_default()`.
abbrev pub or_default : Option TrackedRound → TrackedRound
or_default none = untracked
or_default (some tracked) = tracked

abbrev pub or_now : Option ℕ → ℕ → ℕ
or_now none now = now
or_now (some at) now = at

abbrev pub first_copy : Option (ℕ × ℕ) → ℕ → ℕ → Option (ℕ × ℕ)
first_copy none arrival wall_ms = some (arrival, wall_ms)
first_copy (some old) arrival wall_ms = some old

abbrev pub abs_diff : ℕ → ℕ → ℕ
abs_diff a b = (a - b) + (b - a)

unfoldable pub track_ordering : ℕ → ℕ → ℕ → Assembly → Assembly
track_ordering round arrival wall_ms a =
    if a.max_ref_round == 0 || ltb round_window (abs_diff round a.max_ref_round)
    then a
    else (let tracked = or_default (get ℕ_discrete round a.rounds) in
        record a {
          rounds =
              insert ℕ_discrete round
                (record tracked {
                  first_seen = some (or_now tracked.first_seen arrival);
                  ordering = first_copy tracked.ordering arrival wall_ms;
                })
                a.rounds;
        })

-- The first arrival of a bundle is kept.
unfoldable pub track_bundle : Sig → ℕ → ℕ → ℕ → Assembly → Assembly
track_bundle sig arrival wall_ms now a =
    if is_some (get Sig_discrete sig a.bundles) then a else record a {
      bundles =
          insert Sig_discrete sig (record { arrived = arrival; wall_ms = wall_ms; seen = now })
            a.bundles;
    }

-- The signatures of a line; none where a bundle has none, or none that is a value.
unfoldable pub signatures : List (List ℕ × Option (List ℕ) × ℕ) → Option (List Sig)
signatures [] = some []
signatures (bundle ∷ b) = do
  first ← bundle.1
  sig ← parse_hex32 first
  sigs ← signatures b
  some (sig ∷ sigs)

unfoldable pub track_round : ℕ → ℕ → List Sig → ℕ → Assembly → Assembly
track_round round time_ms sigs now a =
    if ltb time_ms a.score_from_ms
    then record a { rounds = remove ℕ_discrete round a.rounds }
    else (let tracked = or_default (get ℕ_discrete round a.rounds) in
        record a {
          rounds =
              insert ℕ_discrete round
                (record tracked {
                  first_seen = some (or_now tracked.first_seen now);
                  reference = some (record { time_ms = time_ms; bundle_sigs = sigs });
                })
                a.rounds;
        })

abbrev pub named : Option ℕ → Option (List Sig) → ℕ → ℕ → Assembly → Assembly
named (some time_ms) (some sigs) round now a =
    track_round round time_ms sigs now (record a { max_ref_round = max a.max_ref_round round })
named none sigs round now a = a
named (some time_ms) none round now a = a

unfoldable pub track_reference : (String → Option ℕ) → ReferenceLine → ℕ → Assembly → Assembly
track_reference parse_time line now a = named (parse_time line.t) (signatures line.b) line.r now a
