-- ===== src/Model/Provider.antt =====
-- src/model.rs: `Provider`, its names, the provider sets, and arrays indexed by a provider.
use hyperliquid_market_bench.Prelude.{
  ℕ, ◌≡◌, List, [], ◌∷◌, String, Bool, true, arith, if◌then◌else◌, ◌==◌, any,
}

pub data Provider : Type 0 where
  foundation_ws hydromancer_ws quick_node_grpc quick_node_peering_tcp : Provider
  hydromancer_peering_tcp quick_node_vpc : Provider

unfoldable pub index : Provider → ℕ
index foundation_ws = 0
index hydromancer_ws = 1
index quick_node_grpc = 2
index quick_node_peering_tcp = 3
index hydromancer_peering_tcp = 4
index quick_node_vpc = 5

unfoldable pub name : Provider → String
name foundation_ws = "foundation-ws"
name hydromancer_ws = "hydromancer-ws"
name quick_node_grpc = "quicknode-grpc"
name quick_node_peering_tcp = "quicknode-peering"
name hydromancer_peering_tcp = "hydromancer-peering"
name quick_node_vpc = "quicknode-vpc"

unfoldable pub transport : Provider → String
transport foundation_ws = "ws"
transport hydromancer_ws = "ws"
transport quick_node_grpc = "grpc"
transport quick_node_peering_tcp = "tcp"
transport hydromancer_peering_tcp = "tcp"
transport quick_node_vpc = "local"

-- `public_provider`, `public_source` and `event_id_provider` of src/benchmark.rs.
unfoldable pub public_provider : Provider → String
public_provider foundation_ws = "hyperliquid"
public_provider hydromancer_ws = "hydromancer"
public_provider quick_node_grpc = "quicknode"
public_provider quick_node_peering_tcp = "quicknode"
public_provider hydromancer_peering_tcp = "hydromancer"
public_provider quick_node_vpc = "quicknode"

unfoldable pub public_source : Provider → String
public_source foundation_ws = "hyperliquid-ws"
public_source hydromancer_ws = "hydromancer-ws"
public_source quick_node_grpc = "quicknode-grpc"
public_source quick_node_peering_tcp = "quicknode-peering"
public_source hydromancer_peering_tcp = "hydromancer-peering"
public_source quick_node_vpc = "quicknode-vpc"

unfoldable pub event_id_provider : Provider → String
unfolding public_provider public_source
event_id_provider quick_node_vpc = public_source quick_node_vpc
event_id_provider other = public_provider other

abbrev pub all_providers : List Provider
all_providers =
    foundation_ws ∷ hydromancer_ws ∷ quick_node_grpc ∷ quick_node_peering_tcp
    ∷ hydromancer_peering_tcp ∷ quick_node_vpc ∷ []

abbrev pub book_providers : List Provider
book_providers = foundation_ws ∷ hydromancer_ws ∷ quick_node_grpc ∷ []

abbrev pub fills_providers : List Provider
fills_providers = foundation_ws ∷ quick_node_grpc ∷ []

abbrev pub mempool_providers : List Provider
mempool_providers = quick_node_grpc ∷ []

-- The books and the fills on the VPC box have this one source.
abbrev pub vpc_only_providers : List Provider
vpc_only_providers = quick_node_vpc ∷ []

abbrev pub mempool_vpc_providers : List Provider
mempool_vpc_providers = quick_node_grpc ∷ quick_node_vpc ∷ []

-- Equality of providers, by the index that the arrays use.
abbrev pub same : Provider → Provider → Bool
unfolding index
same p q = index p == index q

pub same→eq : (p q : Provider) → same p q ≡ true → p ≡ q
unfolding index
same→eq p q h = ground arith

pub same_refl : (p : Provider) → same p p ≡ true
unfolding index
same_refl p = ground arith

-- `[A; PROVIDERS.len()]`, indexed by `Provider::index`.
abbrev pub Row {ℓ} : Type ℓ → Type ℓ
Row A = Provider → A

abbrev pub set {ℓ} : {A : Type ℓ} → Row A → Provider → A → Row A
set row p v q = if same p q then v else row q

abbrev pub contains : List Provider → Provider → Bool
contains ps p = any (λ q. same q p) ps
