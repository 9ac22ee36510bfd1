-- ===== src/Signals/Registration.antt =====
-- src/model.rs: `RuntimeSignals::new` registers a stream for each provider of each coin.
use hyperliquid_market_bench.Prelude.{
  ◌≡◌, ◌⊎◌, inl, inr, List, [], ◌∷◌, true, String, String_discrete, is_some, arith,
}
use hyperliquid_market_bench.Dict.{Map, contains_key, insert}
use hyperliquid_market_bench.Dict.Laws.{get-insert}
use hyperliquid_market_bench.Model.Provider.{Provider}
use hyperliquid_market_bench.Config.{BenchmarkConfig}
use hyperliquid_market_bench.Benchmark.Invariant.{is_coin, IsCoin}
use hyperliquid_market_bench.Signals.{
  StreamSignal, quiet_signal, register_streams, new_signals, stream,
}

register_streams-contains :
    (coins : List String) (m : Map String StreamSignal) (c : String)
    → (is_coin coins c ≡ true) ⊎ (contains_key String_discrete c m ≡ true)
    → contains_key String_discrete c (register_streams coins m) ≡ true
unfolding register_streams
register_streams-contains [] m c (inl h) = absurd (ground arith)
register_streams-contains [] m c (inr h) = h
register_streams-contains (coin ∷ coins) m c h =
    register_streams-contains coins (insert String_discrete coin quiet_signal m) c
      (elim (String_discrete coin c) [
        | yes e ↦ inr (ground (arith, get-insert String_discrete coin c quiet_signal m))
        | no n ↦ elim h [
          | inl k ↦ inl (ground arith)
          | inr k ↦ inr (ground (arith, get-insert String_discrete coin c quiet_signal m))
        ]
      ])

-- The signals that are made for the coins of a process have a stream for each provider of each.
pub new_signals-is_some :
    (config : BenchmarkConfig) (p : Provider) (coin : String)
    → IsCoin config coin
    → is_some (stream p coin (new_signals config.coins)) ≡ true
unfolding new_signals stream
new_signals-is_some config p coin known = register_streams-contains config.coins [] coin (inl known)
