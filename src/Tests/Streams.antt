-- ===== src/Tests/Streams.antt =====
-- The results on the mempool join, the stream signals and the reconnects, applied.
use hyperliquid_market_bench.Prelude.{
  ℕ, List, ◌++◌, length, leb, if◌then◌else◌, ◌≡◌, refl, [], ◌∷◌, some, true, String_discrete, All,
  Ensures, add_u64,
}
use hyperliquid_market_bench.Dict.{get, insert}
use hyperliquid_market_bench.Model.Provider.{quick_node_grpc}
use hyperliquid_market_bench.Model.Keys.{ProbeEvent, market}
use hyperliquid_market_bench.Join.{JoinInput, bundle, grpc, MempoolJoin, new_join, offer, expire}
use hyperliquid_market_bench.Join.Legs.{NotEarly, emitted-NotEarly}
use hyperliquid_market_bench.Join.Once.{JoinInv, Offers, offer-Offers}
use hyperliquid_market_bench.Signals.{
  TrySend, sent, full, quiet_signal, Sender, register_streams, new_signals, connected, drop_guard,
  send,
}
use hyperliquid_market_bench.Signals.Delivery.{
  signal_at, Touches, connected-Touches, Sends, send-Sends,
}
use hyperliquid_market_bench.Reconnect.{
  delays, default_backoff, exponential, IsBounded, delays-exponential,
}
use hyperliquid_market_bench.Tests.Scenario.{at_ms, book}

-- The endpoint's copy of a bundle, and then the sentry's line.
abbrev endpoint_leg : JoinInput
endpoint_leg = grpc "0xAB" (at_ms 20) 1_020

abbrev sentry_leg : JoinInput
sentry_leg = bundle "0xab" 1_010 (at_ms 30) 1_030

abbrev half_open : MempoolJoin
half_open = (offer endpoint_leg (at_ms 20) (new_join "BTC")).1

half_open-JoinInv : JoinInv half_open
unfolding get
half_open-JoinInv =
    (offer-Offers endpoint_leg (at_ms 20) (new_join "BTC")
      (record { apart = λ h d. refl; waiting = tt })).inv

emitted-NotEarly_example :
    All NotEarly (offer sentry_leg (at_ms 30) half_open).0
    × All NotEarly (expire (at_ms 30) half_open).0
emitted-NotEarly_example = emitted-NotEarly sentry_leg (at_ms 30) half_open

offer-Offers_example :
    Offers sentry_leg (at_ms 30) half_open (offer sentry_leg (at_ms 30) half_open)
offer-Offers_example = offer-Offers sentry_leg (at_ms 30) half_open half_open-JoinInv

-- A queue of at most two events stands for the channel.
abbrev try_send_two : ProbeEvent → List ProbeEvent → TrySend (List ProbeEvent)
try_send_two event queue = if leb 2 (length queue) then full else sent (queue ++ event ∷ [])

abbrev sender : Sender (List ProbeEvent)
sender = record { channel = []; signals = new_signals ("BTC" ∷ []) }

sender-quiet : signal_at quick_node_grpc "BTC" sender ≡ some quiet_signal
unfolding new_signals register_streams get insert String_discrete
sender-quiet = refl

connected-Touches_example :
    Ensures
      (Touches quick_node_grpc "BTC"
        (record {
          connection_up = true;
          last_message_wall_ms = 0;
          queue_dropped = 0;
          last_queue_drop_wall_ms = 0;
          connection_generation = add_u64 0 1;
          connected_at_wall_ms = 7;
        })
        sender)
      (connected quick_node_grpc "BTC" 7 sender)
    × Ensures
        (Touches quick_node_grpc "BTC" quiet_signal sender)
        (drop_guard quick_node_grpc "BTC" sender)
connected-Touches_example =
    connected-Touches quick_node_grpc "BTC" 7 sender quiet_signal sender-quiet

send-Sends_example :
    Ensures
      (Sends try_send_two (market (book quick_node_grpc "9" 30)) 1_040 quiet_signal sender)
      (send try_send_two (market (book quick_node_grpc "9" 30)) 1_040 sender)
send-Sends_example =
    send-Sends try_send_two (market (book quick_node_grpc "9" 30)) 1_040 sender quiet_signal
      sender-quiet

-- Two connections that failed at once, and one that was up for a minute.
abbrev uptimes : List ℕ
uptimes = 0 ∷ at_ms 200 ∷ at_ms 60_000 ∷ []

delays-exponential_example :
    (delays uptimes default_backoff ≡ exponential uptimes 0)
    × All IsBounded (delays uptimes default_backoff)
delays-exponential_example = delays-exponential uptimes
