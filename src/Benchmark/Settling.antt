-- ===== src/Benchmark/Settling.antt =====
-- src/benchmark.rs: `settle` never panics, and keeps the invariant.
use hyperliquid_market_bench.Prelude.{
  ℕ, ◌≡◌, sym, ◌∙◌, subst, ◌⊎◌, inl, inr, [], some, Bool, false, Ensures, Ensures->>=, Ensures-mono,
  for_each-Ensures, Option-cases, Bool-cases, arith, if◌then◌else◌,
}
use hyperliquid_market_bench.Dict.{Map, get, contains_key, remove}
use hyperliquid_market_bench.Dict.Laws.{
  get-remove, All-get, All-remove, length-remove-le, remove_absent,
}
use hyperliquid_market_bench.Model.Keys.{BaseKey, BaseKey_discrete}
use hyperliquid_market_bench.Config.{BenchmarkConfig}
use hyperliquid_market_bench.Benchmark.{Benchmark, PendingBase, with_window}
use hyperliquid_market_bench.Benchmark.Windows.{evict_state}
use hyperliquid_market_bench.Benchmark.Rings.{evict_state-IsRing}
use hyperliquid_market_bench.Benchmark.Settle.{
  drop_late_candidate, orphan_candidate, orphan_loop, finalize_canonical, settle_pending, settle,
}
use hyperliquid_market_bench.Benchmark.Invariant.{IsCoin, IsPending, Inv}
use hyperliquid_market_bench.Benchmark.Keeps.{Keeps, Keeps-refl, with_window-Keeps}
use hyperliquid_market_bench.Benchmark.Sealed.{IsIn, Seals, insert_settled_base-Seals}
use hyperliquid_market_bench.Benchmark.Rounds.{
  With, drop_late_candidate-Keeps, orphan_candidate-Keeps,
}
use hyperliquid_market_bench.Benchmark.Finalizing.{finalize_canonical-Keeps}

module _ (config : BenchmarkConfig) where
  -- The base leaves the pending ones and, if it was one of them, joins the settled ones; the other
  -- bases stay as they are, except that a full map of settled bases forgets its oldest.
  pub record Settles (key : BaseKey) (b0 b : Benchmark) : Type 0 where
    pub inv : Inv config b
    pub pending_removed : b.pending ≡ remove BaseKey_discrete key b0.pending
    pub closed : IsIn key b0.pending → IsIn key b.settled_bases
    pub bases_within : (j : BaseKey) → IsIn j b.settled_bases → (key ≡ j) ⊎ IsIn j b0.settled_bases

  Inv-pending-remove :
      (b : Benchmark) (key : BaseKey)
      → Inv config b
      → Inv config (record b { pending = remove BaseKey_discrete key b.pending })
  Inv-pending-remove b key v = record {
    counters_known = v.counters_known;
    windows_known = v.windows_known;
    pending_valid =
        All-remove BaseKey_discrete (λ (e : BaseKey × PendingBase). IsPending config e.0 e.1) key
          b.pending v.pending_valid;
    pending_cap = omega (arith, length-remove-le BaseKey_discrete key b.pending, v.pending_cap);
    bases_known = v.bases_known;
    bases_cap = v.bases_cap;
    settled_known = v.settled_known;
    settled_cap = v.settled_cap;
    rings = v.rings;
    sealed = λ j h. ground (arith, get-remove BaseKey_discrete key j b.pending, v.sealed j h);
  }

  absent-remove :
      (key : BaseKey) (m : Map BaseKey PendingBase)
      → contains_key BaseKey_discrete key (remove BaseKey_discrete key m) ≡ false
  absent-remove key m = ground (arith, get-remove BaseKey_discrete key key m)

  settle_pending-Settles :
      (key : BaseKey) (pending : PendingBase) (now : ℕ) (evicted : Bool) (b : Benchmark)
      → IsCoin config key.coin
      → Inv config b
      → Ensures (Settles key b) (settle_pending config key pending now evicted b)
  unfolding settle_pending orphan_loop
  settle_pending-Settles key pending now evicted b known v =
      let b1 : Benchmark = record b { pending = remove BaseKey_discrete key b.pending } in
      Ensures->>= (Seals config key b1) (Settles key b) _ _
        (insert_settled_base-Seals config key now b1 known (absent-remove key b.pending)
          (Inv-pending-remove b key v))
        λ b2 s.
          let K = Keeps config b2 in
          Ensures-mono K (Settles key b) _
            (Ensures->>= K K
              (if evicted then with_window key.coin (evict_state now) b2 else some b2) _
              (evicted_window b2 s.inv)
              λ b3 k3.
                Ensures->>= (With config key.coin known b2) K _ _
                  (for_each-Ensures (With config key.coin known b2)
                    (drop_late_candidate config key.coin pending.first_observed)
                    (drop_late_candidate-Keeps config key.coin known b2 pending.first_observed)
                    pending.candidates ([], b3) k3)
                  λ c4 k4.
                    Ensures->>= (With config key.coin known b2) K _ _
                      (for_each-Ensures (With config key.coin known b2)
                        (orphan_candidate config key.coin)
                        (orphan_candidate-Keeps config key.coin known b2) c4.0 (λ _. false, c4.1)
                        k4)
                      λ c5 k5.
                        for_each-Ensures K (finalize_canonical config key now c5.0)
                          (λ e b. finalize_canonical-Keeps config b2 key now c5.0 e b known) c4.0
                          c5.1 k5)
            λ c k. record {
              inv = k.inv;
              pending_removed = k.pending_same ∙ s.pending_same;
              closed = λ _. subst (IsIn key) (sym k.bases_same) s.closed;
              bases_within = λ j h. s.bases_within j (subst (IsIn j) k.bases_same h);
            }
    where
      evicted_window :
          (b2 : Benchmark)
          → Inv config b2
          → Ensures
              (Keeps config b2)
              (if evicted then with_window key.coin (evict_state now) b2 else some b2)
      evicted_window b2 w = elim (Bool-cases evicted) [
        | inl e ↦ rw e (
            with_window-Keeps config key.coin (evict_state now) b2 b2 known
              (λ x r. evict_state-IsRing config.max_rolling_cohorts now x r)
              (Keeps-refl config b2 w))
        | inr e ↦ rw e (Keeps-refl config b2 w)
      ]

  -- From a state that satisfies the invariant, settling a base does not panic, whichever base is
  -- named, and keeps the invariant. The base leaves the pending ones, the others stay; if it was
  -- pending it is among the settled ones afterwards; and no other base becomes settled.
  pub settle-Settles :
      (key : BaseKey) (now : ℕ) (evicted : Bool) (b : Benchmark)
      → Inv config b
      → Ensures (Settles key b) (settle config key now evicted b)
  unfolding settle
  settle-Settles key now evicted b v = elim (Option-cases (get BaseKey_discrete key b.pending)) [
    | inl e ↦
        rw (e, settle)
          (record {
            inv = v;
            pending_removed = sym (remove_absent BaseKey_discrete key b.pending e);
            closed = λ h. absurd (ground arith);
            bases_within = λ j h. inr h;
          })
    | inr (p, e) ↦
        rw (e, settle)
          (settle_pending-Settles key p now evicted b
            (All-get BaseKey_discrete (λ (x : BaseKey × PendingBase). IsPending config x.0 x.1) key
              p b.pending v.pending_valid e).known
            v)
  ]
