-- ===== src/Peering/Decoded.antt =====
-- src/peering.rs: `DecodedAssembly`, which joins the sentry's decoded lines with the reference feed.
-- The clock is an argument; the parser of times is a library's.
use hyperliquid_market_bench.Prelude.{
  String_discrete, ℕ, ◌-◌, max, List, [], ◌∷◌, Option, none, some, Bool, true, false, String, ◌||◌,
  not, if◌then◌else◌, ltb, leb, ◌==◌, keep, is_some, ℕ_discrete, ◌>>=◌, add_u64,
}
use hyperliquid_market_bench.Hex.{parse_hex32}
use hyperliquid_market_bench.Dict.{Map, get, insert}
use hyperliquid_market_bench.Model.Provider.{quick_node_vpc}
use hyperliquid_market_bench.Model.Keys.{MarketEvent}
use hyperliquid_market_bench.Model.Keys
use hyperliquid_market_bench.Peering.{
  Sig, ReferenceLine, or_now, abs_diff, round_window, round_retain,
}
use hyperliquid_market_bench.Peering.Drain.{overdue}

pub record DecodedLine : Type 0 where
  pub kind : String
  pub round : ℕ
  pub complete : Bool
  pub signed_action_bundles : List (List ℕ)

pub record DecodedRound : Type 0 where
  pub line : Option (ℕ × ℕ × List Sig)
  pub reference : Option (ℕ × List Sig)
  pub first_seen : Option ℕ
  pub reported : Bool

abbrev pub undecoded : DecodedRound
undecoded = record { line = none; reference = none; first_seen = none; reported = false }

pub record DecodedAssembly : Type 0 where
  pub coin : String
  pub rounds : Map ℕ DecodedRound
  pub max_ref_round : ℕ

abbrev pub new_decoded : String → DecodedAssembly
new_decoded coin = record { coin = coin; rounds = []; max_ref_round = 0 }

abbrev pub or_undecoded : Option DecodedRound → DecodedRound
or_undecoded none = undecoded
or_undecoded (some tracked) = tracked

-- The order of arrays of bytes.
unfoldable pub lex_le : Sig → Sig → Bool
lex_le [] ys = true
lex_le (x ∷ xs) [] = false
lex_le (x ∷ xs) (y ∷ ys) =
    let rest = lex_le xs ys in if ltb x y then true else if ltb y x then false else rest

-- `sort_unstable` gives the sorted list, which is unique.
unfoldable pub insert_hash : Sig → List Sig → List Sig
insert_hash x [] = x ∷ []
insert_hash x (y ∷ ys) =
    let later = insert_hash x ys in if lex_le x y then x ∷ y ∷ ys else y ∷ later

unfoldable pub sort_hashes : List Sig → List Sig
sort_hashes [] = []
sort_hashes (x ∷ xs) = insert_hash x (sort_hashes xs)

-- The values of some hashes; none where one is no value.
unfoldable pub hashes : List (List ℕ) → Option (List Sig)
hashes [] = some []
hashes (text ∷ texts) = do hash ← parse_hex32 text; rest ← hashes texts; some (hash ∷ rest)

-- The lines of other types are skipped.
abbrev pub is_block : String → Bool
is_block kind = elim (String_discrete kind "block") [
  | yes same ↦ true
  | no differ ↦ elim (String_discrete kind "block_patch") [ yes same ↦ true | no differ ↦ false ]
]

-- The entry after a line: the first complete line whose hashes are values is kept.
abbrev pub with_line : Option (List Sig) → ℕ → ℕ → DecodedRound → DecodedRound
with_line none arrival wall_ms tracked = tracked
with_line (some found) arrival wall_ms tracked = record tracked {
  line = some (arrival, wall_ms, sort_hashes found);
}

abbrev pub seen_at : ℕ → DecodedRound → DecodedRound
seen_at now tracked = record tracked { first_seen = some (or_now tracked.first_seen now) }

unfoldable pub line_entry : DecodedLine → ℕ → ℕ → DecodedRound → DecodedRound
line_entry line arrival wall_ms tracked =
    if not line.complete || is_some tracked.line
    then seen_at arrival tracked
    else with_line (hashes line.signed_action_bundles) arrival wall_ms (seen_at arrival tracked)

unfoldable pub track_line : DecodedLine → ℕ → ℕ → DecodedAssembly → DecodedAssembly
track_line line arrival wall_ms a =
    if not (is_block line.kind)
    then a
    else if a.max_ref_round == 0 || ltb round_window (abs_diff line.round a.max_ref_round)
    then a
    else record a {
      rounds =
          insert ℕ_discrete line.round
            (line_entry line arrival wall_ms (or_undecoded (get ℕ_discrete line.round a.rounds)))
            a.rounds;
    }

abbrev pub hash_texts : List (List ℕ × Option (List ℕ) × ℕ) → List (List ℕ)
hash_texts [] = []
hash_texts (bundle ∷ b) = bundle.0 ∷ hash_texts b

abbrev pub decoded_reference :
    Option ℕ → Option (List Sig) → ℕ → ℕ → DecodedAssembly → DecodedAssembly
decoded_reference none found round now a = a
decoded_reference (some time_ms) none round now a = a
decoded_reference (some time_ms) (some found) round now a = record a {
  max_ref_round = max a.max_ref_round round;
  rounds =
      insert ℕ_discrete round
        (record (seen_at now (or_undecoded (get ℕ_discrete round a.rounds))) {
          reference = some (time_ms, sort_hashes found);
        })
        a.rounds;
}

unfoldable pub track_decoded_reference :
    (String → Option ℕ) → ReferenceLine → ℕ → DecodedAssembly → DecodedAssembly
track_decoded_reference parse_time line now a =
    decoded_reference (parse_time line.t) (hashes (hash_texts line.b)) line.r now a

pub Hashes_discrete : Discrete (List Sig)
Hashes_discrete = hlevel ℕ_discrete

-- What a round comes to.
pub data Outcome : Type 0 where
  pending : Outcome
  sample : MarketEvent → Outcome
  gap : Outcome

abbrev pub decoded_event : String → ℕ → ℕ → ℕ → ℕ → MarketEvent
decoded_event coin round arrived wall time_ms = record {
  provider = quick_node_vpc;
  key = record { coin = coin; event_ms = time_ms; content = Keys.peering round };
  received = arrived;
  received_wall_ms = wall;
}

unfoldable pub unreported_outcome :
    String → ℕ → ℕ → Option (ℕ × ℕ × List Sig) → Option (ℕ × List Sig) → Option ℕ → Outcome
unreported_outcome coin now round (some line) (some reference) seen =
    elim (Hashes_discrete line.2 reference.1) [
      | yes same ↦ sample (decoded_event coin round line.0 line.1 reference.0)
      | no differ ↦ gap
    ]
unreported_outcome coin now round none reference seen = if overdue now seen then gap else pending
unreported_outcome coin now round (some line) none seen = if overdue now seen then gap else pending

unfoldable pub decoded_outcome : String → ℕ → ℕ → DecodedRound → Outcome
decoded_outcome coin now round tracked =
    if tracked.reported
    then pending
    else unreported_outcome coin now round tracked.line tracked.reference tracked.first_seen

abbrev pub outcome_of : DecodedAssembly → ℕ → ℕ × DecodedRound → Outcome
outcome_of a now entry = decoded_outcome a.coin now entry.0 entry.1

abbrev pub mark_outcome : Outcome → DecodedRound → DecodedRound
mark_outcome pending tracked = tracked
mark_outcome (sample event) tracked = record tracked { reported = true }
mark_outcome gap tracked = record tracked { reported = true }

unfoldable pub marked_outcomes : DecodedAssembly → ℕ → Map ℕ DecodedRound → Map ℕ DecodedRound
marked_outcomes a now [] = []
marked_outcomes a now (e ∷ rounds) =
    (e.0, mark_outcome (outcome_of a now e) e.1) ∷ marked_outcomes a now rounds

abbrev pub add_sample : Outcome → List MarketEvent × ℕ → List MarketEvent × ℕ
add_sample pending drained = drained
add_sample (sample event) drained = (event ∷ drained.0, drained.1)
add_sample gap drained = (drained.0, add_u64 1 drained.1)

unfoldable pub drained_outcomes : DecodedAssembly → ℕ → Map ℕ DecodedRound → List MarketEvent × ℕ
drained_outcomes a now [] = ([], 0)
drained_outcomes a now (e ∷ rounds) =
    add_sample (outcome_of a now e) (drained_outcomes a now rounds)

-- Events that are ready, in the order of the rounds, and how many rounds closed without one.
unfoldable pub drain_decoded : ℕ → DecodedAssembly → (List MarketEvent × ℕ) × DecodedAssembly
drain_decoded now a = (
  drained_outcomes a now a.rounds,
  record a {
    rounds = keep (λ e. leb (a.max_ref_round - round_retain) e.0) (marked_outcomes a now a.rounds);
  },
)
