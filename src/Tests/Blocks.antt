-- ===== src/Tests/Blocks.antt =====
-- Runs of the assembly of decoded lines at a concrete round.
use hyperliquid_market_bench.Prelude.{ℕ, List, [], ◌∷◌, Option, none, some, String}
use hyperliquid_market_bench.Peering.{Sig}
use hyperliquid_market_bench.Peering.Decoded.{DecodedAssembly}

abbrev parse_time : String → Option ℕ
parse_time t = some 1000

-- The bundles of round 7, as the chain names them and as the sentry does.
abbrev chain_bundles : List (List ℕ × Option (List ℕ) × ℕ)
chain_bundles = ((b'1' ∷ []), none, 2) ∷ ((b'2' ∷ []), none, 1) ∷ []

abbrev block_texts : List (List ℕ)
block_texts = (b'2' ∷ []) ∷ (b'1' ∷ []) ∷ []

abbrev value : ℕ → Sig
value n =
    0 ∷ 0 ∷ 0 ∷ 0 ∷ 0 ∷ 0 ∷ 0 ∷ 0 ∷ 0 ∷ 0 ∷ 0 ∷ 0 ∷ 0 ∷ 0 ∷ 0 ∷ 0 ∷ 0 ∷ 0 ∷ 0 ∷ 0 ∷ 0 ∷ 0 ∷ 0 ∷ 0
    ∷ 0 ∷ 0 ∷ 0 ∷ 0 ∷ 0 ∷ 0 ∷ 0 ∷ n ∷ []

abbrev started : DecodedAssembly
started = record { coin = "BTC"; rounds = []; max_ref_round = 6 }
