-- ===== src/Config.antt =====
-- src/benchmark.rs: `BenchmarkConfig`, and what its dataset, mode and place select.
-- Durations and instants are in nanoseconds, wall clocks in milliseconds.
pub mod Choices
use hyperliquid_market_bench.Prelude.{ℕ, ◌*◌, ◌/◌, max, List, String, Bool, true, false, length}
use hyperliquid_market_bench.Model.Provider.{
  Provider, quick_node_vpc, vpc_only_providers, mempool_vpc_providers,
}
use hyperliquid_market_bench.Model.Mode
use hyperliquid_market_bench.Model.Mode.{PeeringMode, quicknode}
use hyperliquid_market_bench.Model.Dataset
use hyperliquid_market_bench.Model.Dataset.{Dataset, bbo, l2book, fills, mempool, peering}

pub record BenchmarkConfig : Type 0 where
  pub dataset : Dataset
  pub coins : List String
  pub cloud : String
  pub region : String
  pub metro : String
  pub runner : String
  pub run_id : String
  pub artifact_sha256 : String
  pub rolling_window : ℕ
  pub publish_interval : ℕ
  pub cohort_timeout : ℕ
  pub stale_after : ℕ
  pub max_pending : ℕ
  pub max_settled : ℕ
  pub max_rolling_cohorts : ℕ
  pub peering_mode : PeeringMode
  pub vpc_local : Bool

abbrev pub default_max_pending : ℕ
default_max_pending = 5_000

abbrev pub default_max_settled : ℕ
default_max_settled = 20_000

abbrev pub default_max_rolling_cohorts : ℕ
default_max_rolling_cohorts = 25_000

abbrev pub fills_design_cohorts_per_second : ℕ
fills_design_cohorts_per_second = 1_000

abbrev pub fills_pending_burst_seconds : ℕ
fills_pending_burst_seconds = 25

abbrev pub fills_max_pending : ℕ
fills_max_pending = fills_design_cohorts_per_second * fills_pending_burst_seconds

abbrev pub fills_max_settled : ℕ
fills_max_settled = 400_000

abbrev pub fills_max_rolling_cohorts_per_process : ℕ
fills_max_rolling_cohorts_per_process = fills_design_cohorts_per_second * 300

abbrev pub mempool_design_bundles_per_second : ℕ
mempool_design_bundles_per_second = 200

abbrev pub mempool_max_settled : ℕ
mempool_max_settled = 80_000

abbrev pub mempool_max_rolling_cohorts_per_process : ℕ
mempool_max_rolling_cohorts_per_process = mempool_design_bundles_per_second * 300 * 5 / 4

-- The caps on pending bases, on settled keys and on a coin's rolling cohorts.
unfoldable pub production_state_capacity : Dataset → ℕ → ℕ × ℕ × ℕ
production_state_capacity bbo n =
    (default_max_pending, default_max_settled, default_max_rolling_cohorts)
production_state_capacity l2book n =
    (default_max_pending, default_max_settled, default_max_rolling_cohorts)
production_state_capacity fills n =
    (fills_max_pending, fills_max_settled, fills_max_rolling_cohorts_per_process / max n 1)
production_state_capacity mempool n =
    (default_max_pending, mempool_max_settled, mempool_max_rolling_cohorts_per_process / max n 1)
production_state_capacity peering n =
    (default_max_pending, mempool_max_settled, mempool_max_rolling_cohorts_per_process / max n 1)

abbrev pub nanos_per_second : ℕ
nanos_per_second = 1_000_000_000

unfoldable pub production :
    Dataset → List String → String → String → String → String → String → BenchmarkConfig
unfolding production_state_capacity
production dataset coins cloud region metro runner run_id =
    let (max_pending, max_settled, max_rolling_cohorts) =
      production_state_capacity dataset (length coins) in
    record {
      dataset = dataset;
      coins = coins;
      cloud = cloud;
      region = region;
      metro = metro;
      runner = runner;
      run_id = run_id;
      artifact_sha256 = "unavailable";
      rolling_window = 300 * nanos_per_second;
      publish_interval = 30 * nanos_per_second;
      cohort_timeout = 5 * nanos_per_second;
      stale_after = 60 * nanos_per_second;
      max_pending = max_pending;
      max_settled = max_settled;
      max_rolling_cohorts = max_rolling_cohorts;
      peering_mode = quicknode;
      vpc_local = false;
    }

-- A `match self.dataset` whose arms may carry the guard `if self.vpc_local`.
choose_providers : Dataset → PeeringMode → Bool → List Provider
choose_providers peering mode true = Mode.vpc_providers mode
choose_providers peering mode false = Mode.providers mode
choose_providers fills mode true = vpc_only_providers
choose_providers bbo mode true = vpc_only_providers
choose_providers l2book mode true = vpc_only_providers
choose_providers mempool mode true = mempool_vpc_providers
choose_providers dataset mode vpc_local = Dataset.providers dataset

unfoldable pub providers : BenchmarkConfig → List Provider
unfolding choose_providers Mode.vpc_providers Mode.providers Dataset.providers
providers c = choose_providers c.dataset c.peering_mode c.vpc_local

choose_metric_kind : Dataset → Bool → String
choose_metric_kind mempool true = "box_first_seen_to_bundle_ready"
choose_metric_kind dataset vpc_local = Dataset.metric_kind dataset

unfoldable pub metric_kind : BenchmarkConfig → String
unfolding choose_metric_kind Dataset.metric_kind
metric_kind c = choose_metric_kind c.dataset c.vpc_local

choose_measurement_version : Dataset → Bool → String
choose_measurement_version mempool true = "mempool-box-first-seen-v1"
choose_measurement_version fills true = "fills-vpc-node-v1"
choose_measurement_version bbo true = "bbo-vpc-grpc-v1"
choose_measurement_version l2book true = "l2book-vpc-grpc-v1"
choose_measurement_version dataset vpc_local = Dataset.measurement_version dataset

unfoldable pub measurement_version : BenchmarkConfig → String
unfolding choose_measurement_version Dataset.measurement_version
measurement_version c = choose_measurement_version c.dataset c.vpc_local

choose_cohort : Dataset → PeeringMode → Bool → String
choose_cohort peering mode true = Mode.vpc_cohort mode
choose_cohort peering mode false = Mode.cohort mode
choose_cohort fills mode true = "quicknode-vpc"
choose_cohort bbo mode true = "quicknode-vpc"
choose_cohort l2book mode true = "quicknode-vpc"
choose_cohort mempool mode true = "quicknode-grpc+quicknode-vpc"
choose_cohort dataset mode vpc_local = Dataset.cohort dataset

unfoldable pub cohort : BenchmarkConfig → String
unfolding choose_cohort Mode.vpc_cohort Mode.cohort Dataset.cohort
cohort c = choose_cohort c.dataset c.peering_mode c.vpc_local

choose_reference_provider : Dataset → PeeringMode → Bool → Provider
choose_reference_provider peering mode vpc_local = Mode.reference_provider mode
choose_reference_provider fills mode true = quick_node_vpc
choose_reference_provider bbo mode true = quick_node_vpc
choose_reference_provider l2book mode true = quick_node_vpc
choose_reference_provider dataset mode vpc_local = Dataset.reference_provider dataset

unfoldable pub reference_provider : BenchmarkConfig → Provider
unfolding choose_reference_provider Mode.reference_provider Dataset.reference_provider
reference_provider c = choose_reference_provider c.dataset c.peering_mode c.vpc_local

choose_comparison : Dataset → PeeringMode → Bool → Bool
choose_comparison peering mode true = true
choose_comparison mempool mode true = true
choose_comparison fills mode true = false
choose_comparison bbo mode true = false
choose_comparison l2book mode true = false
choose_comparison peering mode false = Mode.has_provider_comparison mode
choose_comparison dataset mode vpc_local = Dataset.has_provider_comparison dataset

unfoldable pub has_provider_comparison : BenchmarkConfig → Bool
unfolding choose_comparison Mode.has_provider_comparison Dataset.has_provider_comparison
has_provider_comparison c = choose_comparison c.dataset c.peering_mode c.vpc_local

choose_any_arrival : Dataset → Bool → Bool
choose_any_arrival peering vpc_local = true
choose_any_arrival mempool vpc_local = vpc_local
choose_any_arrival dataset vpc_local = false

unfoldable pub canonical_by_any_arrival : BenchmarkConfig → Bool
unfolding choose_any_arrival
canonical_by_any_arrival c = choose_any_arrival c.dataset c.vpc_local

-- A choice computes from the three fields that it reads.
unfoldable pub choices : Unit {0}
unfolding providers cohort reference_provider has_provider_comparison canonical_by_any_arrival
choices = tt
