-- ===== src/Join.antt =====
-- src/vpc_mempool.rs: `MempoolJoin`, which pairs a bundle that the sentry saw with the same bundle
-- from the endpoint. Instants are nanoseconds, and `duration_since` saturates.
pub mod Legs
pub mod Offered
pub mod Once
pub mod Expiry
use hyperliquid_market_bench.Prelude.{
  ℕ, zero, suc, ◌+◌, ◌-◌, ◌*◌, List, [], ◌∷◌, ◌++◌, Option, none, some, Bool, true, false, ◌&&◌,
  String, String_discrete, to_ascii_lowercase, if◌then◌else◌, leb, ltb, min, keep, map, is_some,
}
use hyperliquid_market_bench.Dict.{Map, get, contains_key, insert, remove}
use hyperliquid_market_bench.Model.Provider.{Provider, quick_node_grpc, quick_node_vpc}
use hyperliquid_market_bench.Model.Keys.{EventKey, MarketEvent}
use hyperliquid_market_bench.Model.Keys
use hyperliquid_market_bench.Config.{nanos_per_second}

-- `Bundle` is the sentry's line, with the box's receipt time; `Grpc` the endpoint's message. Both
-- carry the transaction hash, the instant and the wall clock of the receipt.
pub data JoinInput : Type 0 where
  bundle : (tx_hash : String) (first_recv_ms received received_wall_ms : ℕ) → JoinInput
  grpc : (tx_hash : String) (received received_wall_ms : ℕ) → JoinInput

pub record Entry : Type 0 where
  pub first_recv_ms : Option ℕ
  pub vpc : Option (ℕ × ℕ)
  pub grpc : Option (ℕ × ℕ)
  pub first_seen : Option ℕ

abbrev pub empty_entry : Entry
empty_entry = record { first_recv_ms = none; vpc = none; grpc = none; first_seen = none }

abbrev pub complete : Entry → Bool
complete entry = is_some entry.vpc && is_some entry.grpc

abbrev pub least_of : Option ℕ → Option ℕ → Option ℕ
least_of none b = b
least_of (some a) none = some a
least_of (some a) (some b) = some (min a b)

abbrev pub wall_of : Option (ℕ × ℕ) → Option ℕ
wall_of none = none
wall_of (some leg) = some leg.1

-- `unwrap_or(0)`.
abbrev pub or_zero : Option ℕ → ℕ
or_zero none = 0
or_zero (some a) = a

unfoldable pub reference_ms : Entry → ℕ
reference_ms entry =
    or_zero (least_of entry.first_recv_ms (least_of (wall_of entry.vpc) (wall_of entry.grpc)))

abbrev pub leg_event : Provider → EventKey → Option (ℕ × ℕ) → List MarketEvent
leg_event provider key none = []
leg_event provider key (some leg) =
    record { provider = provider; key = key; received = leg.0; received_wall_ms = leg.1 } ∷ []

abbrev pub join_key : String → String → Entry → EventKey
join_key coin tx_hash entry = record {
  coin = coin;
  event_ms = reference_ms entry;
  content = Keys.mempool tx_hash;
}

unfoldable pub events : String → String → Entry → List MarketEvent
events coin tx_hash entry =
    leg_event quick_node_grpc (join_key coin tx_hash entry) entry.grpc
    ++ leg_event quick_node_vpc (join_key coin tx_hash entry) entry.vpc

pub record MempoolJoin : Type 0 where
  pub coin : String
  pub opened : Map String Entry
  pub done : Map String ℕ

abbrev pub new_join : String → MempoolJoin
new_join coin = record { coin = coin; opened = []; done = [] }

abbrev pub join_deadline : ℕ
join_deadline = 5 * nanos_per_second

abbrev pub done_retain : ℕ
done_retain = 120 * nanos_per_second

unfoldable pub hash_of : JoinInput → String
hash_of (bundle tx_hash first received wall) = to_ascii_lowercase tx_hash
hash_of (grpc tx_hash received wall) = to_ascii_lowercase tx_hash

abbrev pub get_or_insert : Option ℕ → ℕ → ℕ
get_or_insert none now = now
get_or_insert (some at) now = at

abbrev pub first_leg : Option (ℕ × ℕ) → ℕ → ℕ → Option (ℕ × ℕ)
first_leg none received wall = some (received, wall)
first_leg (some leg) received wall = some leg

abbrev pub first_recv_of : Entry → ℕ → Option ℕ
first_recv_of entry first = if is_some entry.vpc then entry.first_recv_ms else some first

-- The input's leg is recorded unless there is one; the first copy wins.
unfoldable pub add_leg : JoinInput → Entry → Entry
add_leg (bundle tx_hash first received wall) entry = record entry {
  vpc = first_leg entry.vpc received wall;
  first_recv_ms = first_recv_of entry first;
}
add_leg (grpc tx_hash received wall) entry = record entry {
  grpc = first_leg entry.grpc received wall;
}

abbrev pub entry_or_default : Option Entry → ℕ → Entry
entry_or_default none now = record empty_entry { first_seen = some now }
entry_or_default (some entry) now = record entry {
  first_seen = some (get_or_insert entry.first_seen now);
}

abbrev pub next_entry : JoinInput → ℕ → MempoolJoin → Entry
next_entry input now j =
    add_leg input (entry_or_default (get String_discrete (hash_of input) j.opened) now)

unfoldable pub offer : JoinInput → ℕ → MempoolJoin → List MarketEvent × MempoolJoin
offer input now j =
    let hash = hash_of input in
    let entry = next_entry input now j in
    if contains_key String_discrete hash j.done
    then ([], j)
    else if complete entry
    then (
      events j.coin hash entry,
      record j {
        opened = remove String_discrete hash j.opened;
        done = insert String_discrete hash now j.done;
      },
    )
    else ([], record j { opened = insert String_discrete hash entry j.opened })

abbrev pub is_overdue : ℕ → String × Entry → Bool
is_overdue now e = elim e.1.first_seen [ none ↦ false | some seen ↦ leb join_deadline (now - seen) ]

-- One round of the loop over the overdue hashes: the events, the gaps and the join.
unfoldable pub expire_hash :
    ℕ → String → List MarketEvent × ℕ × MempoolJoin → List MarketEvent × ℕ × MempoolJoin
expire_hash now hash (out, gaps, j) = elim (get String_discrete hash j.opened) [
  | none ↦ (out, gaps, j)
  | some entry ↦ (
    out ++ events j.coin hash entry,
    if is_some entry.vpc then gaps else gaps + 1,
    record j {
      opened = remove String_discrete hash j.opened;
      done = insert String_discrete hash now j.done;
    },
  )
]

unfoldable pub expire_all :
    ℕ
    → List (String × Entry)
    → List MarketEvent × ℕ × MempoolJoin
    → List MarketEvent × ℕ × MempoolJoin
expire_all now [] s = s
expire_all now (e ∷ es) s = expire_all now es (expire_hash now e.0 s)

unfoldable pub expire : ℕ → MempoolJoin → List MarketEvent × ℕ × MempoolJoin
expire now j =
    let (out, gaps, j) = expire_all now (keep (is_overdue now) j.opened) ([], 0, j) in
    (out, gaps, record j { done = keep (λ e. ltb (now - e.1) done_retain) j.done })
