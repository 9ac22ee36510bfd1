-- ===== src/Benchmark/Keeps.antt =====
-- src/benchmark.rs: the operations that leave the pending bases alone keep the invariant, and do
-- not panic on a registered coin.
use hyperliquid_market_bench.Prelude.{
  ◌≡◌, refl, ◌∙◌, inl, inr, true, String, String_discrete, All, Ensures, Ensures-mono, ◌>>=◌,
  Option-cases, arith,
}
use hyperliquid_market_bench.Dict.{Map, get, contains_key, insert}
use hyperliquid_market_bench.Dict.Laws.{get-insert, All-insert, All-get}
use hyperliquid_market_bench.Model.Provider.{Provider, Row}
use hyperliquid_market_bench.Config.{BenchmarkConfig}
use hyperliquid_market_bench.Benchmark.{
  Benchmark, ProviderCounters, CoinWindow, with_counters, with_window,
}
use hyperliquid_market_bench.Benchmark.Rings.{IsRing}
use hyperliquid_market_bench.Benchmark.Invariant.{IsCoin, Inv}

-- A key that was there is still there after an insertion.
contains_key-insert :
    {V : Type 0} (k j : String) (v : V) (m : Map String V)
    → contains_key String_discrete j m ≡ true
    → contains_key String_discrete j (insert String_discrete k v m) ≡ true
contains_key-insert k j v m h = rw (get-insert String_discrete k j v m) (ground arith)

module _ (config : BenchmarkConfig) where
  -- The invariant holds, and the pending and settled bases are those of `b0`.
  pub record Keeps (b0 b : Benchmark) : Type 0 where
    pub inv : Inv config b
    pub pending_same : b.pending ≡ b0.pending
    pub bases_same : b.settled_bases ≡ b0.settled_bases

  pub Keeps-refl : (b : Benchmark) → Inv config b → Keeps b b
  Keeps-refl b v = record { inv = v; pending_same = refl; bases_same = refl }

  -- Besides, the settled keys are the same.
  pub record Frame (b0 b : Benchmark) : Type 0 where
    pub keeps : Keeps b0 b
    pub settled_same : b.settled ≡ b0.settled

  pub Keeps-trans : (b0 b1 b2 : Benchmark) → Keeps b0 b1 → Keeps b1 b2 → Keeps b0 b2
  Keeps-trans b0 b1 b2 k l = record {
    inv = l.inv;
    pending_same = l.pending_same ∙ k.pending_same;
    bases_same = l.bases_same ∙ k.bases_same;
  }

  Inv-counters :
      (b : Benchmark) (m : Map String (Row ProviderCounters))
      → Inv config b
      → ((coin : String) → IsCoin config coin → contains_key String_discrete coin m ≡ true)
      → Inv config (record b { counters = m })
  Inv-counters b m v h = record {
    counters_known = h;
    windows_known = v.windows_known;
    pending_valid = v.pending_valid;
    pending_cap = v.pending_cap;
    bases_known = v.bases_known;
    bases_cap = v.bases_cap;
    settled_known = v.settled_known;
    settled_cap = v.settled_cap;
    rings = v.rings;
    sealed = v.sealed;
  }

  Inv-windows :
      (b : Benchmark) (m : Map String CoinWindow)
      → Inv config b
      → ((coin : String) → IsCoin config coin → contains_key String_discrete coin m ≡ true)
      → All (λ e. IsRing config.max_rolling_cohorts e.1) m
      → Inv config (record b { windows = m })
  Inv-windows b m v h r = record {
    counters_known = v.counters_known;
    windows_known = h;
    pending_valid = v.pending_valid;
    pending_cap = v.pending_cap;
    bases_known = v.bases_known;
    bases_cap = v.bases_cap;
    settled_known = v.settled_known;
    settled_cap = v.settled_cap;
    rings = r;
    sealed = v.sealed;
  }

  pub with_counters-Frame :
      (p : Provider) (coin : String) (f : ProviderCounters → ProviderCounters) (b : Benchmark)
      → IsCoin config coin
      → Inv config b
      → Ensures (Frame b) (with_counters p coin f b)
  unfolding with_counters
  with_counters-Frame p coin f b known v =
      elim (Option-cases (get String_discrete coin b.counters)) [
        | inl e ↦ absurd (ground (arith, v.counters_known coin known))
        | inr (row, e) ↦
            rw (e, ◌>>=◌)
              (record {
                keeps = record {
                  inv =
                      Inv-counters b _ v
                        (λ c q. contains_key-insert coin c _ b.counters (v.counters_known c q));
                  pending_same = refl;
                  bases_same = refl;
                };
                settled_same = refl;
              })
      ]

  -- An update of a window that keeps its rings in order.
  abbrev pub KeepsRing : (CoinWindow → CoinWindow) → Type 0
  KeepsRing f =
      (w : CoinWindow)
      → IsRing config.max_rolling_cohorts w
      → IsRing config.max_rolling_cohorts (f w)

  abbrev RingEntry : String × CoinWindow → Type 0
  RingEntry d = IsRing config.max_rolling_cohorts d.1

  pub with_window-Frame :
      (coin : String) (f : CoinWindow → CoinWindow) (b : Benchmark)
      → IsCoin config coin
      → KeepsRing f
      → Inv config b
      → Ensures (Frame b) (with_window coin f b)
  unfolding with_window
  with_window-Frame coin f b known ring v =
      elim (Option-cases (get String_discrete coin b.windows)) [
        | inl e ↦ absurd (ground (arith, v.windows_known coin known))
        | inr (w, e) ↦
            let old = All-get String_discrete RingEntry coin w b.windows v.rings e in
            rw (e, ◌>>=◌)
              (record {
                keeps = record {
                  inv =
                      Inv-windows b _ v
                        (λ c q. contains_key-insert coin c _ b.windows (v.windows_known c q))
                        (All-insert String_discrete RingEntry coin (f w) b.windows (ring w old)
                          v.rings);
                  pending_same = refl;
                  bases_same = refl;
                };
                settled_same = refl;
              })
      ]

  pub with_counters-Keeps :
      (p : Provider) (coin : String) (f : ProviderCounters → ProviderCounters) (b0 b : Benchmark)
      → IsCoin config coin
      → Keeps b0 b
      → Ensures (Keeps b0) (with_counters p coin f b)
  with_counters-Keeps p coin f b0 b known k =
      Ensures-mono (Frame b) (Keeps b0) _ (with_counters-Frame p coin f b known k.inv)
        (λ c l. Keeps-trans b0 b c k l.keeps)

  pub with_window-Keeps :
      (coin : String) (f : CoinWindow → CoinWindow) (b0 b : Benchmark)
      → IsCoin config coin
      → KeepsRing f
      → Keeps b0 b
      → Ensures (Keeps b0) (with_window coin f b)
  with_window-Keeps coin f b0 b known ring k =
      Ensures-mono (Frame b) (Keeps b0) _ (with_window-Frame coin f b known ring k.inv)
        (λ c l. Keeps-trans b0 b c k l.keeps)
