-- ===== src/Model/Dataset.antt =====
-- src/model.rs: `Dataset`, and what each data set names.
use hyperliquid_market_bench.Prelude.{List, [], ◌∷◌, String, Bool, true, false}
use hyperliquid_market_bench.Model.Provider.{
  Provider, foundation_ws, quick_node_grpc, quick_node_peering_tcp, book_providers, fills_providers,
  mempool_providers,
}

pub data Dataset : Type 0 where
  bbo l2book fills mempool peering : Dataset

unfoldable pub channel : Dataset → String
channel bbo = "bbo"
channel l2book = "l2Book"
channel fills = "trades"
channel mempool = "mempool_txs"
channel peering = "gossip_blocks"

unfoldable pub label : Dataset → String
label bbo = "bbo"
label l2book = "l2book"
label fills = "fills"
label mempool = "mempool"
label peering = "peering"

unfoldable pub providers : Dataset → List Provider
providers bbo = book_providers
providers l2book = book_providers
providers fills = fills_providers
providers mempool = mempool_providers
providers peering = quick_node_peering_tcp ∷ []

unfoldable pub schema : Dataset → String
schema bbo = "hyperliquid-market-benchmark-v1"
schema l2book = "hyperliquid-market-benchmark-v1"
schema fills = "hyperliquid-market-benchmark-v2"
schema mempool = "hyperliquid-market-benchmark-v3"
schema peering = "hyperliquid-market-benchmark-v4"

unfoldable pub metric_kind : Dataset → String
metric_kind bbo = "event_to_canonical_book_ready"
metric_kind l2book = "event_to_canonical_book_ready"
metric_kind fills = "event_to_canonical_trade_ready"
metric_kind mempool = "mempool_first_seen_to_bundle_ready"
metric_kind peering = "block_time_to_block_ready"

unfoldable pub measurement_version : Dataset → String
measurement_version bbo = "canonical-book-ready-v1"
measurement_version l2book = "canonical-book-ready-v1"
measurement_version fills = "canonical-trade-ready-v1"
measurement_version mempool = "mempool-bundle-ready-v1"
measurement_version peering = "peering-block-ready-v1"

unfoldable pub cohort : Dataset → String
cohort bbo = "hyperliquid-ws+hydromancer-ws+quicknode-grpc"
cohort l2book = "hyperliquid-ws+hydromancer-ws+quicknode-grpc"
cohort fills = "hyperliquid-ws+quicknode-grpc"
cohort mempool = "quicknode-grpc"
cohort peering = "quicknode-peering-tcp"

unfoldable pub reference_provider : Dataset → Provider
reference_provider bbo = foundation_ws
reference_provider l2book = foundation_ws
reference_provider fills = foundation_ws
reference_provider mempool = quick_node_grpc
reference_provider peering = quick_node_peering_tcp

unfoldable pub has_provider_comparison : Dataset → Bool
has_provider_comparison bbo = true
has_provider_comparison l2book = true
has_provider_comparison fills = true
has_provider_comparison mempool = false
has_provider_comparison peering = false
