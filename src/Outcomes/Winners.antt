-- ===== src/Outcomes/Winners.antt =====
-- src/benchmark.rs: `unreported_outcomes` gives a cohort to the one provider that was strictly the
-- fastest, and else counts a tie.
use hyperliquid_market_bench.Prelude.{
  ℕ, ◌+◌, ◌≡◌, refl, List, [], ◌∷◌, some, Bool, true, not, ◌&&◌, ◌||◌, arith, leb, ltb, ◌==◌,
  if◌then◌else◌, all, any, is_some,
}
use hyperliquid_market_bench.Model.Provider.{
  Provider, Row, same, contains, index, foundation_ws, hydromancer_ws, quick_node_grpc,
  quick_node_peering_tcp, hydromancer_peering_tcp, quick_node_vpc,
}
use hyperliquid_market_bench.Config.{BenchmarkConfig, providers, choices}
use hyperliquid_market_bench.Outcomes.{
  OutcomeCounts, fastest_latency, fastest_providers, bump, bump_all, add_outcome,
}

-- A provider's latency is below that of each other provider.
abbrev pub is_strict_winner : Row ℕ → List Provider → Provider → Bool
unfolding index
is_strict_winner row ps p = contains ps p && all (λ q. same q p || ltb (row p) (row q)) ps

abbrev pub strict_total : OutcomeCounts → ℕ
strict_total o =
    o.strict_fastest foundation_ws
    + o.strict_fastest hydromancer_ws
    + o.strict_fastest quick_node_grpc
    + o.strict_fastest quick_node_peering_tcp
    + o.strict_fastest hydromancer_peering_tcp
    + o.strict_fastest quick_node_vpc

abbrev pub Conserved : OutcomeCounts → Type 0
Conserved o = strict_total o + o.ties ≡ o.complete

strict_total-bump :
    (p : Provider) (o : OutcomeCounts)
    → strict_total (record o { strict_fastest = bump p o.strict_fastest }) ≡ strict_total o + 1
unfolding index
strict_total-bump p o = ground arith

pub add_outcome-total :
    (ps : List Provider) (o : OutcomeCounts)
    → (strict_total (add_outcome ps o) + (add_outcome ps o).ties ≡ strict_total o + o.ties + 1)
      × ((add_outcome ps o).complete ≡ o.complete)
unfolding add_outcome
add_outcome-total [] o = omega arith
add_outcome-total (p ∷ []) o = (omega (arith, strict_total-bump p o), refl)
add_outcome-total (p ∷ q ∷ ps) o = omega arith

-- A provider's latency is the lowest, and another provider has the same.
abbrev pub is_tied_winner : Row ℕ → List Provider → Provider → Bool
unfolding index
is_tied_winner row ps p =
    contains ps p
    && all (λ q. leb (row p) (row q)) ps
    && any (λ q. not (same q p) && (row q == row p)) ps

pub providers-fastest :
    (config : BenchmarkConfig) (row : Row ℕ)
    → is_some (fastest_latency row (providers config)) ≡ true
unfolding choices fastest_latency
providers-fastest config row = ground arith

module _ (config : BenchmarkConfig) (row : Row ℕ) (m : ℕ) where
  pub strict_fastest-add_outcome :
      (p : Provider) (o : OutcomeCounts)
      → fastest_latency row (providers config) ≡ some m
      → (add_outcome (fastest_providers row m (providers config)) o).strict_fastest p
        ≡ o.strict_fastest p + (if is_strict_winner row (providers config) p then 1 else 0)
  unfolding choices fastest_latency add_outcome index
  strict_fastest-add_outcome p o h = ground arith

  pub tied_fastest-add_outcome :
      (p : Provider) (o : OutcomeCounts)
      → fastest_latency row (providers config) ≡ some m
      → (add_outcome (fastest_providers row m (providers config)) o).tied_fastest p
        ≡ o.tied_fastest p + (if is_tied_winner row (providers config) p then 1 else 0)
  unfolding choices fastest_latency add_outcome index bump_all
  tied_fastest-add_outcome p o h = ground arith
