-- ===== src/Benchmark/Sealed.antt =====
-- src/benchmark.rs: `insert_settled_base` keeps the cap on settled bases, and seals its key.
use hyperliquid_market_bench.Prelude.{
  ℕ, ◌+◌, ◌≤◌, ◌≡◌, refl, ap, sym, subst, ◌⊎◌, inl, inr, max, some, true, false, length, Ensures,
  Ensures->>=, Ensures-mono, Option-cases, Bool-cases, arith, leb,
}
use hyperliquid_market_bench.Dict.{Map, contains_key, insert, remove, min_by_key}
use hyperliquid_market_bench.Dict.Laws.{
  get-insert, get-remove, length-insert-le, length-remove-lt, length-remove-le, All-insert,
  All-remove, All-min_by_key, contains_key-min_by_key, min_by_key-eq-none,
}
use hyperliquid_market_bench.Model.Keys.{BaseKey, BaseKey_discrete}
use hyperliquid_market_bench.Config.{BenchmarkConfig}
use hyperliquid_market_bench.Benchmark.{Benchmark, with_window}
use hyperliquid_market_bench.Benchmark.Windows.{evict_state}
use hyperliquid_market_bench.Benchmark.Rings.{evict_state-IsRing}
use hyperliquid_market_bench.Benchmark.Invariant.{IsCoin, Inv}
use hyperliquid_market_bench.Benchmark.Keeps.{Frame, with_window-Frame}
use hyperliquid_market_bench.Benchmark.Tombstones.{insert_settled_base, bases_room}

abbrev pub IsIn : {V : Type 0} → BaseKey → Map BaseKey V → Type 0
IsIn key m = contains_key BaseKey_discrete key m ≡ true

IsIn-remove :
    {V : Type 0} (k j : BaseKey) (m : Map BaseKey V)
    → IsIn j (remove BaseKey_discrete k m)
    → IsIn j m
IsIn-remove k j m h = ground (arith, get-remove BaseKey_discrete k j m)

IsIn-insert :
    {V : Type 0} (k j : BaseKey) (v : V) (m : Map BaseKey V)
    → IsIn j (insert BaseKey_discrete k v m)
    → (k ≡ j) ⊎ IsIn j m
IsIn-insert k j v m h = elim (BaseKey_discrete k j) [
  | yes e ↦ inl e
  | no n ↦ inr (ground (arith, get-insert BaseKey_discrete k j v m))
]

IsIn-insert_self :
    {V : Type 0} (k : BaseKey) (v : V) (m : Map BaseKey V) → IsIn k (insert BaseKey_discrete k v m)
IsIn-insert_self k v m = ground (arith, get-insert BaseKey_discrete k k v m)

abbrev timestamp : ℕ → ℕ
timestamp at = at

module _ (config : BenchmarkConfig) where
  abbrev BaseKnown : BaseKey × ℕ → Type 0
  BaseKnown e = IsCoin config e.0.coin

  record HasRoom (b0 b : Benchmark) : Type 0 where
    inv : Inv config b
    pending_same : b.pending ≡ b0.pending
    bases_within : (j : BaseKey) → IsIn j b.settled_bases → IsIn j b0.settled_bases
    room : length b.settled_bases + 1 ≤ max 1 config.max_settled

  -- The base is settled, no other base is newly so, and the pending bases are the same.
  pub record Seals (key : BaseKey) (b0 b : Benchmark) : Type 0 where
    pub inv : Inv config b
    pub pending_same : b.pending ≡ b0.pending
    pub closed : IsIn key b.settled_bases
    pub bases_within : (j : BaseKey) → IsIn j b.settled_bases → (key ≡ j) ⊎ IsIn j b0.settled_bases

  Inv-bases-remove :
      (b : Benchmark) (key : BaseKey)
      → Inv config b
      → Inv config (record b { settled_bases = remove BaseKey_discrete key b.settled_bases })
  Inv-bases-remove b key v = record {
    counters_known = v.counters_known;
    windows_known = v.windows_known;
    pending_valid = v.pending_valid;
    pending_cap = v.pending_cap;
    bases_known = All-remove BaseKey_discrete BaseKnown key b.settled_bases v.bases_known;
    bases_cap = omega (arith, length-remove-le BaseKey_discrete key b.settled_bases, v.bases_cap);
    settled_known = v.settled_known;
    settled_cap = v.settled_cap;
    rings = v.rings;
    sealed = λ j h. v.sealed j (IsIn-remove key j b.settled_bases h);
  }

  Inv-bases-insert :
      (b : Benchmark) (key : BaseKey) (now : ℕ)
      → IsCoin config key.coin
      → length b.settled_bases + 1 ≤ max 1 config.max_settled
      → contains_key BaseKey_discrete key b.pending ≡ false
      → Inv config b
      → Inv config (record b { settled_bases = insert BaseKey_discrete key now b.settled_bases })
  Inv-bases-insert b key now known room out v = record {
    counters_known = v.counters_known;
    windows_known = v.windows_known;
    pending_valid = v.pending_valid;
    pending_cap = v.pending_cap;
    bases_known = All-insert BaseKey_discrete BaseKnown key now b.settled_bases known v.bases_known;
    bases_cap = omega (arith, length-insert-le BaseKey_discrete key now b.settled_bases, room);
    settled_known = v.settled_known;
    settled_cap = v.settled_cap;
    rings = v.rings;
    sealed = λ j h. elim (IsIn-insert key j now b.settled_bases h) [
      | inl e ↦ subst (λ k. contains_key BaseKey_discrete k b.pending ≡ false) e out
      | inr q ↦ v.sealed j q
    ];
  }

  evict_oldest :
      (b : Benchmark) (oldest : BaseKey × ℕ) (now : ℕ)
      → min_by_key timestamp b.settled_bases ≡ some oldest
      → Inv config b
      → Ensures (HasRoom b) (
          with_window oldest.0.coin
            (evict_state now)
            (record b { settled_bases = remove BaseKey_discrete oldest.0 b.settled_bases }))
  evict_oldest b oldest now e v =
      let bases = remove BaseKey_discrete oldest.0 b.settled_bases in
      let b1 : Benchmark = record b { settled_bases = bases } in
      let found = contains_key-min_by_key BaseKey_discrete timestamp b.settled_bases e in
      let known = All-min_by_key BaseKnown timestamp b.settled_bases v.bases_known e in
      Ensures-mono (Frame config b1) (HasRoom b) _
        (with_window-Frame config oldest.0.coin (evict_state now) b1 known
          (λ w r. evict_state-IsRing config.max_rolling_cohorts now w r)
          (Inv-bases-remove b oldest.0 v))
        (λ c l. record {
          inv = l.keeps.inv;
          pending_same = l.keeps.pending_same;
          bases_within =
              λ j h. IsIn-remove oldest.0 j b.settled_bases (subst (IsIn j) l.keeps.bases_same h);
          room = omega (
            arith,
            ap length l.keeps.bases_same,
            length-remove-lt BaseKey_discrete oldest.0 b.settled_bases found,
            v.bases_cap,
          );
        })

  bases_room-HasRoom :
      (now : ℕ) (b : Benchmark) → Inv config b → Ensures (HasRoom b) (bases_room config now b)
  unfolding bases_room
  bases_room-HasRoom now b v = elim (Bool-cases (leb config.max_settled (length b.settled_bases))) [
    | inr e ↦
        rw e (record { inv = v; pending_same = refl; bases_within = λ j h. h; room = ground arith })
    | inl e ↦ rw e (elim (Option-cases (min_by_key timestamp b.settled_bases)) [
      | inl q ↦ rw q (record {
        inv = v;
        pending_same = refl;
        bases_within = λ j h. h;
        room = omega (arith, min_by_key-eq-none timestamp b.settled_bases q);
      })
      | inr (oldest, q) ↦ rw q (evict_oldest b oldest now q v)
    ])
  ]

  pub insert_settled_base-Seals :
      (key : BaseKey) (now : ℕ) (b : Benchmark)
      → IsCoin config key.coin
      → contains_key BaseKey_discrete key b.pending ≡ false
      → Inv config b
      → Ensures (Seals key b) (insert_settled_base config key now b)
  unfolding insert_settled_base
  insert_settled_base-Seals key now b known out v =
      Ensures->>= (HasRoom b) (Seals key b) (bases_room config now b) _ (bases_room-HasRoom now b v)
        (λ c r. record {
          inv =
              Inv-bases-insert c key now known r.room
                (subst (λ m. contains_key BaseKey_discrete key m ≡ false) (sym r.pending_same) out)
                r.inv;
          pending_same = r.pending_same;
          closed = IsIn-insert_self key now c.settled_bases;
          bases_within = λ j h. elim (IsIn-insert key j now c.settled_bases h) [
            | inl e ↦ inl e
            | inr q ↦ inr (r.bases_within j q)
          ];
        })
