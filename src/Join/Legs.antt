-- ===== src/Join/Legs.antt =====
-- src/vpc_mempool.rs: no event that the join emits is received before its reference.
use hyperliquid_market_bench.Prelude.{
  ℕ, ◌≤◌, List, [], ◌∷◌, String, String_discrete, All, All-append, Option-cases, Bool-cases, inl,
  inr, arith, keep,
}
use hyperliquid_market_bench.Dict.{get, contains_key}
use hyperliquid_market_bench.Model.Keys.{MarketEvent}
use hyperliquid_market_bench.Join.{
  JoinInput, Entry, MempoolJoin, complete, reference_ms, events, hash_of, next_entry, offer,
  is_overdue, expire_hash, expire_all, expire,
}

-- An event's time is not after its receipt, and it is about the hash and the coin.
abbrev pub NotEarly : MarketEvent → Type 0
NotEarly e = e.key.event_ms ≤ e.received_wall_ms

events-NotEarly : (coin hash : String) (entry : Entry) → All NotEarly (events coin hash entry)
unfolding events reference_ms
events-NotEarly coin hash entry = ground arith

offer-NotEarly :
    (input : JoinInput) (now : ℕ) (j : MempoolJoin) → All NotEarly (offer input now j).0
unfolding offer
offer-NotEarly input now j =
    elim (Bool-cases (contains_key String_discrete (hash_of input) j.done)) [
      | inl d ↦ rw d tt
      | inr d ↦ rw d (elim (Bool-cases (complete (next_entry input now j))) [
        | inl e ↦ rw e (events-NotEarly j.coin (hash_of input) (next_entry input now j))
        | inr e ↦ rw e tt
      ])
    ]

expire_hash-NotEarly :
    (now : ℕ) (hash : String) (s : List MarketEvent × ℕ × MempoolJoin)
    → All NotEarly s.0
    → All NotEarly (expire_hash now hash s).0
unfolding expire_hash
expire_hash-NotEarly now hash (out, gaps, j) a =
    elim (Option-cases (get String_discrete hash j.opened)) [
      | inl e ↦ rw (e, expire_hash) a
      | inr (entry, e) ↦
          rw (e, expire_hash)
            (All-append NotEarly out (events j.coin hash entry) a
              (events-NotEarly j.coin hash entry))
    ]

expire_all-NotEarly :
    (now : ℕ) (es : List (String × Entry)) (s : List MarketEvent × ℕ × MempoolJoin)
    → All NotEarly s.0
    → All NotEarly (expire_all now es s).0
unfolding expire_all
expire_all-NotEarly now [] s a = a
expire_all-NotEarly now (e ∷ es) s a =
    expire_all-NotEarly now es (expire_hash now e.0 s) (expire_hash-NotEarly now e.0 s a)

-- Every event that an offered leg or an expiry emits has a time that is not after its own receipt,
-- so that no latency of the join is negative.
pub emitted-NotEarly :
    (input : JoinInput) (now : ℕ) (j : MempoolJoin)
    → All NotEarly (offer input now j).0 × All NotEarly (expire now j).0
unfolding expire
emitted-NotEarly input now j = (
  offer-NotEarly input now j,
  expire_all-NotEarly now (keep (is_overdue now) j.opened) ([], 0, j) tt,
)
