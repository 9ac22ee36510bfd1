-- ===== src/Signals.antt =====
-- src/model.rs: `StreamSignal`, `RuntimeSignals`, `ConnectionGuard` and `ProbeSender`. The atomic
-- fields are written one at a time; a call here is the sequence of its writes. The channel is
-- tokio's, and its `try_send` is a parameter.
pub mod Delivery
pub mod Registration
use hyperliquid_market_bench.Prelude.{
  ℕ, List, [], ◌∷◌, ◌++◌, Option, none, some, Bool, true, false, String, String_discrete,
  if◌then◌else◌, leb, length, add_u64, ◌>>=◌,
}
use hyperliquid_market_bench.Dict.{Map, get, insert}
use hyperliquid_market_bench.Model.Provider.{Provider, Row, set}
use hyperliquid_market_bench.Model.Keys.{
  MarketEvent, ProbeEvent, market, reconnect, sequence_gap, replay,
}

pub record StreamSignal : Type 0 where
  pub connection_up : Bool
  pub last_message_wall_ms : ℕ
  pub queue_dropped : ℕ
  pub last_queue_drop_wall_ms : ℕ
  pub connection_generation : ℕ
  pub connected_at_wall_ms : ℕ

abbrev pub quiet_signal : StreamSignal
quiet_signal = record {
  connection_up = false;
  last_message_wall_ms = 0;
  queue_dropped = 0;
  last_queue_drop_wall_ms = 0;
  connection_generation = 0;
  connected_at_wall_ms = 0;
}

-- The streams of each provider by coin.
abbrev pub RuntimeSignals : Type 0
RuntimeSignals = Row (Map String StreamSignal)

unfoldable pub register_streams : List String → Map String StreamSignal → Map String StreamSignal
register_streams [] streams = streams
register_streams (coin ∷ coins) streams =
    register_streams coins (insert String_discrete coin quiet_signal streams)

unfoldable pub new_signals : List String → RuntimeSignals
new_signals coins provider = register_streams coins []

-- `RuntimeSignals::stream` and `snapshot`; a stream that is not registered panics.
unfoldable pub stream : Provider → String → RuntimeSignals → Option StreamSignal
stream provider coin signals = get String_discrete coin (signals provider)

-- A sender with the state `C` of the channel that it shares with the receiver.
pub record Sender (C : Type 0) : Type 0 where
  pub channel : C
  pub signals : RuntimeSignals

-- A write through the shared signal of a stream.
unfoldable pub with_stream :
    {C : Type 0} → Provider → String → (StreamSignal → StreamSignal) → Sender C → Option (Sender C)
with_stream provider coin f s = do
  signal ← get String_discrete coin (s.signals provider)
  some (record s {
    signals = set s.signals provider (insert String_discrete coin (f signal) (s.signals provider));
  })

abbrev pub connect : ℕ → StreamSignal → StreamSignal
connect now_ms signal = record signal {
  last_message_wall_ms = 0;
  connected_at_wall_ms = now_ms;
  connection_generation = add_u64 signal.connection_generation 1;
  connection_up = true;
}

-- `ProbeSender::connected`, at the wall clock `now_ms`.
unfoldable pub connected : {C : Type 0} → Provider → String → ℕ → Sender C → Option (Sender C)
connected provider coin now_ms = with_stream provider coin (connect now_ms)

abbrev pub disconnect : StreamSignal → StreamSignal
disconnect signal = record signal { connection_up = false; last_message_wall_ms = 0 }

-- `ConnectionGuard::drop`.
unfoldable pub drop_guard : {C : Type 0} → Provider → String → Sender C → Option (Sender C)
drop_guard provider coin = with_stream provider coin disconnect

abbrev pub drop_at : ℕ → StreamSignal → StreamSignal
drop_at wall_ms signal = record signal {
  queue_dropped = add_u64 signal.queue_dropped 1;
  last_queue_drop_wall_ms = wall_ms;
}

-- What `mpsc::Sender::try_send` answers: the channel with the event in it, or that it is full, or
-- that its receiver is gone.
pub data TrySend (C : Type 0) : Type 0 where
  sent : C → TrySend C
  full closed : TrySend C

abbrev pub hear : ℕ → StreamSignal → StreamSignal
hear wall_ms signal = record signal { last_message_wall_ms = wall_ms }

module _ {C : Type 0} (try_send : ProbeEvent → C → TrySend C) where
  -- The answer and the state after an attempt; a full queue counts a drop at `wall_ms`.
  unfoldable pub deliver : ProbeEvent → Provider → String → ℕ → Sender C → Option (Bool × Sender C)
  deliver event provider coin wall_ms s = elim (try_send event s.channel) [
    | sent channel ↦ some (true, record s { channel = channel })
    | full ↦ (do s ← with_stream provider coin (drop_at wall_ms) s; some (true, s))
    | closed ↦ some (false, s)
  ]

  -- `ProbeSender::send`, at the wall clock `now_ms`. A control event looks its stream up, too.
  unfoldable pub send : ProbeEvent → ℕ → Sender C → Option (Bool × Sender C)
  send (market event) now_ms s = do
    s ← with_stream event.provider event.key.coin (hear event.received_wall_ms) s
    deliver (market event) event.provider event.key.coin event.received_wall_ms s
  send (reconnect provider coin) now_ms s = do
    signal ← get String_discrete coin (s.signals provider)
    deliver (reconnect provider coin) provider coin now_ms s
  send (sequence_gap provider coin missing) now_ms s = do
    signal ← get String_discrete coin (s.signals provider)
    deliver (sequence_gap provider coin missing) provider coin now_ms s
  send (replay provider coin messages has_gap) now_ms s = do
    signal ← get String_discrete coin (s.signals provider)
    deliver (replay provider coin messages has_gap) provider coin now_ms s
