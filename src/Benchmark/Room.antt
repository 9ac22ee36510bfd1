-- ===== src/Benchmark/Room.antt =====
-- src/benchmark.rs: the room that `record` makes for a base, before it stores the base.
use hyperliquid_market_bench.Prelude.{
  ℕ, ◌+◌, ◌≤◌, ◌≡◌, sym, ap, subst, ◌⊎◌, inl, inr, max, Bool, true, false, length, Ensures,
  Ensures-mono, Option-cases, Bool-cases, arith,
}
use hyperliquid_market_bench.Dict.{Map, contains_key, min_by_key}
use hyperliquid_market_bench.Dict.Laws.{
  get-insert, All-insert, length-insert-le, length-insert_present, length-remove-lt,
  contains_key-min_by_key, min_by_key-eq-none,
}
use hyperliquid_market_bench.Model.Keys.{BaseKey, BaseKey_discrete, base, MarketEvent}
use hyperliquid_market_bench.Config.{BenchmarkConfig}
use hyperliquid_market_bench.Benchmark.{Benchmark, PendingBase, max_signatures_per_base}
use hyperliquid_market_bench.Benchmark.Record.{is_full, make_room, store_base}
use hyperliquid_market_bench.Benchmark.Invariant.{IsCoin, IsPending, Inv}
use hyperliquid_market_bench.Benchmark.Sealed.{IsIn}
use hyperliquid_market_bench.Benchmark.Settling.{Settles, settle-Settles}

abbrev first_observed : PendingBase → ℕ
first_observed p = p.first_observed

not-IsIn :
    {V : Type 0} (k : BaseKey) (m : Map BaseKey V)
    → (IsIn k m → ⊥)
    → contains_key BaseKey_discrete k m ≡ false
not-IsIn k m h = elim (Bool-cases (contains_key BaseKey_discrete k m)) [
  | inl e ↦ absurd (h e)
  | inr e ↦ e
]

module _ (config : BenchmarkConfig) (event : MarketEvent)
    (known : IsCoin config event.key.coin) where
  -- The event's base is open, and there is room for it among the pending ones.
  pub record HasRoom (b : Benchmark) : Type 0 where
    pub inv : Inv config b
    open_base : contains_key BaseKey_discrete (base event.key) b.settled_bases ≡ false
    room : IsIn (base event.key) b.pending ⊎ (length b.pending + 1 ≤ max 1 config.max_pending)

  is_full-absent :
      (b : Benchmark) → is_full config event b ≡ true → IsIn (base event.key) b.pending → ⊥
  is_full-absent b e i = ground arith

  pub make_room-HasRoom :
      (b : Benchmark)
      → Inv config b
      → contains_key BaseKey_discrete (base event.key) b.settled_bases ≡ false
      → Ensures HasRoom (make_room config event b)
  unfolding make_room
  make_room-HasRoom b v o = elim (Bool-cases (is_full config event b)) [
    | inr e ↦ rw e (record { inv = v; open_base = o; room = ground arith })
    | inl e ↦ rw e (elim (Option-cases (min_by_key first_observed b.pending)) [
      | inl q ↦ rw q (record {
        inv = v;
        open_base = o;
        room = ground (arith, min_by_key-eq-none first_observed b.pending q);
      })
      | inr (oldest, q) ↦ rw q (
          let found = contains_key-min_by_key BaseKey_discrete first_observed b.pending q in
          Ensures-mono (Settles config oldest.0 b) HasRoom _
            (settle-Settles config oldest.0 event.received true b v)
            λ c s. record {
              inv = s.inv;
              open_base = not-IsIn (base event.key) c.settled_bases λ i.
                  elim (s.bases_within (base event.key) i) [
                    | inl same ↦
                        absurd (is_full-absent b e (subst (λ k. IsIn k b.pending) same found))
                    | inr old ↦ absurd (ground arith)
                  ];
              room = inr (
                  omega (
                    arith,
                    ap length s.pending_removed,
                    length-remove-lt BaseKey_discrete oldest.0 b.pending found,
                    v.pending_cap,
                  ));
            })
    ])
  ]

  pub store_base-Inv :
      (b : Benchmark) (cohort : PendingBase)
      → HasRoom b
      → length cohort.candidates ≤ max_signatures_per_base
      → Inv config (store_base event cohort b)
  unfolding base
  store_base-Inv b cohort r n =
      let key = base event.key in
      let v = r.inv in
      let entry = λ (e : BaseKey × PendingBase). IsPending config e.0 e.1 in
      record {
        counters_known = v.counters_known;
        windows_known = v.windows_known;
        pending_valid =
            All-insert BaseKey_discrete entry key cohort b.pending
              (record { known = BaseKnown; signatures = n }) v.pending_valid;
        pending_cap = ground (
          arith,
          length-insert_present BaseKey_discrete key cohort b.pending,
          length-insert-le BaseKey_discrete key cohort b.pending,
          r.room,
        );
        bases_known = v.bases_known;
        bases_cap = v.bases_cap;
        settled_known = v.settled_known;
        settled_cap = v.settled_cap;
        rings = v.rings;
        sealed = λ j h. elim (BaseKey_discrete key j) [
          | yes e ↦ absurd (closed_open (subst (λ k. IsIn k b.settled_bases) (sym e) h) r.open_base)
          | no n ↦ ground (arith, get-insert BaseKey_discrete key j cohort b.pending, v.sealed j h)
        ];
      }
    where
      BaseKnown : IsCoin config (base event.key).coin
      BaseKnown = known

      closed_open : {x : Bool} → x ≡ true → x ≡ false → ⊥
      closed_open p q = cc
