-- ===== src/Model/Keys.antt =====
-- src/model.rs: the keys of events and of the cohorts that they form, and the probe's events.
use hyperliquid_market_bench.Prelude.{
  ℕ, List, Option, none, some, String, String_discrete, ℕ_discrete, Bool,
}
use hyperliquid_market_bench.Model.Provider.{Provider}

pub record LevelKey : Type 0 where
  pub px : String
  pub sz : String
  pub n : ℕ

pub data ContentKey : Type 0 where
  bbo : Option LevelKey → Option LevelKey → ContentKey
  l2 : List LevelKey → List LevelKey → ContentKey
  -- tid, side, px, sz, hash, buyer, seller
  trade : ℕ → String → String → String → String → String → String → ContentKey
  mempool : String → ContentKey
  peering : ℕ → ContentKey

pub record EventKey : Type 0 where
  pub coin : String
  pub event_ms : ℕ
  pub content : ContentKey

pub record BaseKey : Type 0 where
  pub coin : String
  pub event_ms : ℕ
  pub trade_id : Option ℕ
  pub mempool_tx_hash : Option String
  pub peering_round : Option ℕ

unfoldable pub trade_id : ContentKey → Option ℕ
trade_id (trade tid side px sz hash buyer seller) = some tid
trade_id _ = none

unfoldable pub mempool_tx_hash : ContentKey → Option String
mempool_tx_hash (mempool tx_hash) = some tx_hash
mempool_tx_hash _ = none

unfoldable pub peering_round : ContentKey → Option ℕ
peering_round (peering round) = some round
peering_round _ = none

unfoldable pub base : EventKey → BaseKey
unfolding trade_id mempool_tx_hash peering_round
base key = record {
  coin = key.coin;
  event_ms = key.event_ms;
  trade_id = trade_id key.content;
  mempool_tx_hash = mempool_tx_hash key.content;
  peering_round = peering_round key.content;
}

-- The derived `Eq` of the keys.
unfoldable pub LevelKey_discrete : Discrete LevelKey
unfolding String_discrete
LevelKey_discrete = hlevel (String_discrete, ℕ_discrete)

unfoldable pub ContentKey_discrete : Discrete ContentKey
unfolding LevelKey_discrete
ContentKey_discrete = hlevel (LevelKey_discrete, String_discrete, ℕ_discrete)

unfoldable pub EventKey_discrete : Discrete EventKey
unfolding ContentKey_discrete
EventKey_discrete = hlevel (ContentKey_discrete, String_discrete, ℕ_discrete)

unfoldable pub BaseKey_discrete : Discrete BaseKey
unfolding String_discrete
BaseKey_discrete = hlevel (String_discrete, ℕ_discrete)

pub record MarketEvent : Type 0 where
  pub provider : Provider
  pub key : EventKey
  pub received : ℕ
  pub received_wall_ms : ℕ

pub data ProbeEvent : Type 0 where
  market : MarketEvent → ProbeEvent
  reconnect : Provider → String → ProbeEvent
  sequence_gap : Provider → String → ℕ → ProbeEvent
  replay : Provider → String → ℕ → Bool → ProbeEvent

-- The coin that an event is about.
abbrev pub coin_of : ProbeEvent → String
coin_of (market event) = event.key.coin
coin_of (reconnect p coin) = coin
coin_of (sequence_gap p coin n) = coin
coin_of (replay p coin n gap) = coin
