-- ===== src/Join/Offered.antt =====
-- src/vpc_mempool.rs: what a leg that is offered completes, or leaves held.
use hyperliquid_market_bench.Prelude.{
  ℕ, ◌≡◌, refl, List, [], true, false, String, String_discrete, inl, inr, arith, is_some, ◌&&◌, ◌⊎◌,
  Option, none, some, ◌∷◌, min,
}
use hyperliquid_market_bench.Dict.{Map, get, insert, remove}
use hyperliquid_market_bench.Dict.Laws.{get-insert, get-remove}
use hyperliquid_market_bench.Model.Keys.{EventKey, MarketEvent}
use hyperliquid_market_bench.Model.Keys
use hyperliquid_market_bench.Model.Provider.{quick_node_grpc, quick_node_vpc}
use hyperliquid_market_bench.Join
use hyperliquid_market_bench.Join.{
  entry_or_default, JoinInput, bundle, grpc, reference_ms, Entry, MempoolJoin, complete, events,
  hash_of, next_entry, add_leg, offer,
}

-- The least of a time that may be there and of another.
abbrev pub min_with : Option ℕ → ℕ → ℕ
min_with none m = m
min_with (some a) m = min a m

-- The legs that an input completes: its own receipt, and the other leg that waits under its hash;
-- and the time of the event, the least of their wall clocks and of the sentry's first receipt.
abbrev pub Completes : JoinInput → Option Entry → ℕ × ℕ → ℕ × ℕ → ℕ → Type 0
Completes (bundle tx_hash first received wall) waiting g v time =
    (e : Entry) × (waiting ≡ some e)
    × (e.grpc ≡ some g)
    × (v ≡ (received, wall))
    × (time ≡ min first (min wall g.1))
Completes (grpc tx_hash received wall) waiting g v time =
    (e : Entry) × (waiting ≡ some e)
    × (e.vpc ≡ some v)
    × (g ≡ (received, wall))
    × (time ≡ min_with e.first_recv_ms (min v.1 wall))

-- One event of each provider, with the same key.
abbrev pub both_events : String → String → ℕ × ℕ → ℕ × ℕ → ℕ → List MarketEvent
both_events coin hash g v time =
    let key : EventKey = record { coin = coin; event_ms = time; content = Keys.mempool hash } in
    record { provider = quick_node_grpc; key = key; received = g.0; received_wall_ms = g.1 }
    ∷ record { provider = quick_node_vpc; key = key; received = v.0; received_wall_ms = v.1 }
    ∷ []

-- What is known of a hash before a leg of it is offered.
abbrev pub vpc_of : Option Entry → Option (ℕ × ℕ)
vpc_of none = none
vpc_of (some e) = e.vpc

abbrev pub grpc_of : Option Entry → Option (ℕ × ℕ)
grpc_of none = none
grpc_of (some e) = e.grpc

abbrev pub recv_of : Option Entry → Option ℕ
recv_of none = none
recv_of (some e) = e.first_recv_ms

-- The instant that a hash is seen first: the one that is known, or now.
abbrev pub seen_of : Option Entry → ℕ → ℕ
seen_of none now = now
seen_of (some e) now = elim e.first_seen [ none ↦ now | some at ↦ at ]

-- The first copy of a leg is held, with the sentry's first receipt where the leg is the sentry's.
abbrev pub Holds : JoinInput → Option Entry → Entry → Type 0
Holds (bundle tx_hash first received wall) waiting e =
    (e.grpc ≡ grpc_of waiting)
    × (((v : ℕ × ℕ) × (vpc_of waiting ≡ some v)
          × (e.vpc ≡ some v)
          × (e.first_recv_ms ≡ recv_of waiting))
        ⊎ ((vpc_of waiting ≡ none)
            × (e.vpc ≡ some (received, wall))
            × (e.first_recv_ms ≡ some first)))
Holds (grpc tx_hash received wall) waiting e =
    (e.vpc ≡ vpc_of waiting)
    × (e.first_recv_ms ≡ recv_of waiting)
    × (((g : ℕ × ℕ) × (grpc_of waiting ≡ some g) × (e.grpc ≡ some g))
        ⊎ ((grpc_of waiting ≡ none) × (e.grpc ≡ some (received, wall))))

held_vpc :
    (tx_hash : String) (first received wall now : ℕ) (recv : Option ℕ) (vpc other : Option (ℕ × ℕ))
    (seen : Option ℕ)
    → (let w : Option Entry =
          some (record { first_recv_ms = recv; vpc = vpc; grpc = other; first_seen = seen }) in
        let input = bundle tx_hash first received wall in
        Holds input w (add_leg input (entry_or_default w now)))
unfolding add_leg
held_vpc tx_hash first received wall now recv none other seen = (refl, inr (refl, refl, refl))
held_vpc tx_hash first received wall now recv (some v) other seen =
    (refl, inl (v, refl, refl, refl))

held_grpc :
    (tx_hash : String) (received wall now : ℕ) (recv : Option ℕ) (vpc other : Option (ℕ × ℕ))
    (seen : Option ℕ)
    → (let w : Option Entry =
          some (record { first_recv_ms = recv; vpc = vpc; grpc = other; first_seen = seen }) in
        let input = Join.grpc tx_hash received wall in
        Holds input w (add_leg input (entry_or_default w now)))
unfolding add_leg
held_grpc tx_hash received wall now recv vpc none seen = (refl, refl, inr (refl, refl))
held_grpc tx_hash received wall now recv vpc (some g) seen = (refl, refl, inl (g, refl, refl))

pub leg-Holds :
    (input : JoinInput) (now : ℕ) (waiting : Option Entry)
    → Holds input waiting (add_leg input (entry_or_default waiting now))
unfolding add_leg
leg-Holds (bundle tx_hash first received wall) now none = (refl, inr (refl, refl, refl))
leg-Holds (grpc tx_hash received wall) now none = (refl, refl, inr (refl, refl))
leg-Holds (bundle tx_hash first received wall) now (some e) =
    held_vpc tx_hash first received wall now e.first_recv_ms e.vpc e.grpc e.first_seen
leg-Holds (grpc tx_hash received wall) now (some e) =
    held_grpc tx_hash received wall now e.first_recv_ms e.vpc e.grpc e.first_seen

pub first_seen-seen_of :
    (input : JoinInput) (now : ℕ) (waiting : Option Entry)
    → (add_leg input (entry_or_default waiting now)).first_seen ≡ some (seen_of waiting now)
unfolding add_leg
first_seen-seen_of input now waiting = ground arith

module _ {V : Type 0} (hash : String) (v : V) (m : Map String V) where
  pub get-inserted : get String_discrete hash (insert String_discrete hash v m) ≡ some v
  get-inserted = rw (get-insert String_discrete hash hash v m) (ground arith)

  pub get-insert_other :
      (h : String)
      → ¬ (hash ≡ h)
      → get String_discrete h (insert String_discrete hash v m) ≡ get String_discrete h m
  get-insert_other h n = elim (String_discrete hash h) [
    | yes e ↦ absurd (n e)
    | no e ↦ ground (arith, get-insert String_discrete hash h v m)
  ]

pub get-remove_other :
    {V : Type 0} (hash : String) (m : Map String V) (h : String)
    → ¬ (hash ≡ h)
    → get String_discrete h (remove String_discrete hash m) ≡ get String_discrete h m
get-remove_other hash m h n = elim (String_discrete hash h) [
  | yes e ↦ absurd (n e)
  | no e ↦ ground (arith, get-remove String_discrete hash h m)
]

-- A leg that completes an entry.
abbrev pub Completed : JoinInput → ℕ → String → Option Entry → Type 0
Completed input now coin waiting =
    let entry = add_leg input (entry_or_default waiting now) in
    complete entry ≡ true
    → (g : ℕ × ℕ) × (v : ℕ × ℕ) × (time : ℕ) × Completes input waiting g v time
      × (events coin (hash_of input) entry ≡ both_events coin (hash_of input) g v time)

bundle-Completed :
    (tx_hash coin : String) (first received wall now : ℕ) (recv : Option ℕ)
    (vpc other : Option (ℕ × ℕ)) (seen : Option ℕ)
    → (is_some vpc && is_some other) ≡ false
    → Completed
        (bundle tx_hash first received wall)
        now
        coin
        (some (record { first_recv_ms = recv; vpc = vpc; grpc = other; first_seen = seen }))
unfolding events reference_ms add_leg
bundle-Completed tx_hash coin first received wall now recv none none seen w h =
    absurd (ground arith)
bundle-Completed tx_hash coin first received wall now recv (some v) none seen w h =
    absurd (ground arith)
bundle-Completed tx_hash coin first received wall now recv (some v) (some g) seen w h =
    absurd (ground arith)
bundle-Completed tx_hash coin first received wall now recv none (some g) seen w h =
    (g, (received, wall), min first (min wall g.1), (_, refl, refl, refl, refl), refl)

grpc-Completed :
    (tx_hash coin : String) (received wall now : ℕ) (recv : Option ℕ) (vpc other : Option (ℕ × ℕ))
    (seen : Option ℕ)
    → (is_some vpc && is_some other) ≡ false
    → Completed
        (Join.grpc tx_hash received wall)
        now
        coin
        (some (record { first_recv_ms = recv; vpc = vpc; grpc = other; first_seen = seen }))
unfolding events reference_ms add_leg
grpc-Completed tx_hash coin received wall now recv none none seen w h = absurd (ground arith)
grpc-Completed tx_hash coin received wall now recv none (some g) seen w h = absurd (ground arith)
grpc-Completed tx_hash coin received wall now recv (some v) (some g) seen w h =
    absurd (ground arith)
grpc-Completed tx_hash coin received wall now none (some v) none seen w h =
    ((received, wall), v, min v.1 wall, (_, refl, refl, refl, refl), refl)
grpc-Completed tx_hash coin received wall now (some first) (some v) none seen w h =
    ((received, wall), v, min first (min v.1 wall), (_, refl, refl, refl, refl), refl)

pub leg-Completed :
    (input : JoinInput) (now : ℕ) (coin : String) (waiting : Option Entry)
    → ((e : Entry) → waiting ≡ some e → complete e ≡ false)
    → Completed input now coin waiting
unfolding add_leg
leg-Completed (bundle tx_hash first received wall) now coin none w h = absurd (ground arith)
leg-Completed (grpc tx_hash received wall) now coin none w h = absurd (ground arith)
leg-Completed (bundle tx_hash first received wall) now coin (some e) w h =
    bundle-Completed tx_hash coin first received wall now e.first_recv_ms e.vpc e.grpc e.first_seen
      (w e refl) h
leg-Completed (grpc tx_hash received wall) now coin (some e) w h =
    grpc-Completed tx_hash coin received wall now e.first_recv_ms e.vpc e.grpc e.first_seen
      (w e refl) h
