-- ===== src/Model/Mode.antt =====
-- src/model.rs: `PeeringMode`, the peering services that one process dials.
use hyperliquid_market_bench.Prelude.{List, [], ◌∷◌, String, Bool, true, false}
use hyperliquid_market_bench.Model.Provider.{
  Provider, quick_node_peering_tcp, hydromancer_peering_tcp, quick_node_vpc,
}

pub data PeeringMode : Type 0 where
  quicknode hydromancer comparison : PeeringMode

unfoldable pub providers : PeeringMode → List Provider
providers quicknode = quick_node_peering_tcp ∷ []
providers hydromancer = hydromancer_peering_tcp ∷ []
providers comparison = quick_node_peering_tcp ∷ hydromancer_peering_tcp ∷ []

unfoldable pub cohort : PeeringMode → String
cohort quicknode = "quicknode-peering-tcp"
cohort hydromancer = "hydromancer-peering-tcp"
cohort comparison = "quicknode-peering-tcp+hydromancer-peering-tcp"

unfoldable pub vpc_providers : PeeringMode → List Provider
vpc_providers quicknode = quick_node_peering_tcp ∷ quick_node_vpc ∷ []
vpc_providers hydromancer = hydromancer_peering_tcp ∷ quick_node_vpc ∷ []
vpc_providers comparison = quick_node_peering_tcp ∷ hydromancer_peering_tcp ∷ quick_node_vpc ∷ []

unfoldable pub vpc_cohort : PeeringMode → String
vpc_cohort quicknode = "quicknode-peering-tcp+quicknode-vpc"
vpc_cohort hydromancer = "hydromancer-peering-tcp+quicknode-vpc"
vpc_cohort comparison = "quicknode-peering-tcp+hydromancer-peering-tcp+quicknode-vpc"

unfoldable pub reference_provider : PeeringMode → Provider
reference_provider quicknode = quick_node_peering_tcp
reference_provider comparison = quick_node_peering_tcp
reference_provider hydromancer = hydromancer_peering_tcp

unfoldable pub has_provider_comparison : PeeringMode → Bool
has_provider_comparison comparison = true
has_provider_comparison _ = false
