-- ===== src/Signals/Delivery.antt =====
-- src/model.rs: what a connection and a send do to the signals and to the channel.
use hyperliquid_market_bench.Prelude.{
  ℕ, ◌+◌, ◌%◌, ◌^◌, ◌≡◌, ◌⊎◌, refl, ◌∙◌, ap, Option, some, Bool, true, false, String,
  String_discrete, add_u64, ◌>>=◌, Ensures, Ensures->>=, Ensures-mono, Bool-cases, inl, inr, arith,
}
use mathlib.Core.Logic.{ite}
use hyperliquid_market_bench.Dict.{Map, get, insert}
use hyperliquid_market_bench.Dict.Laws.{get-insert}
use hyperliquid_market_bench.Model.Provider.{Provider, Row, set, same, same_refl, same→eq}
use hyperliquid_market_bench.Model.Keys.{
  coin_of, ProbeEvent, market, reconnect, sequence_gap, replay,
}
use hyperliquid_market_bench.Signals.{
  TrySend, sent, full, closed, StreamSignal, Sender, with_stream, connect, connected, disconnect,
  drop_guard, drop_at, deliver, hear, send,
}

abbrev pub signal_at : {C : Type 0} → Provider → String → Sender C → Option StreamSignal
signal_at p coin s = get String_discrete coin (s.signals p)

-- The stream's signal is updated, and nothing else changes.
pub record Touches {C : Type 0} (p : Provider) (coin : String) (signal : StreamSignal)
    (s c : Sender C) : Type 0 where
  pub own : signal_at p coin c ≡ some signal
  pub others :
      (q : Provider) (d : String) → ((p ≡ q) → (coin ≡ d) → ⊥) → signal_at q d c ≡ signal_at q d s
  pub channel : c.channel ≡ s.channel

get-set_own :
    (p : Provider) (coin : String) (signal : StreamSignal) (row : Row (Map String StreamSignal))
    → get String_discrete coin (set row p (insert String_discrete coin signal (row p)) p)
      ≡ some signal
get-set_own p coin signal row =
    rw (same_refl p) (ground (arith, get-insert String_discrete coin coin signal (row p)))

get-set_other :
    (p q : Provider) (coin d : String) (signal : StreamSignal) (row : Row (Map String StreamSignal))
    → ((p ≡ q) → (coin ≡ d) → ⊥)
    → get String_discrete d (set row p (insert String_discrete coin signal (row p)) q)
      ≡ get String_discrete d (row q)
get-set_other p q coin d signal row n = elim (Bool-cases (same p q)) [
  | inr e ↦ rw e refl
  | inl e ↦ rw e (
      get-insert String_discrete coin d signal (row p)
      ∙ (elim (String_discrete coin d)
          as (λ x.
            ite x (some signal) (get String_discrete d (row p)) ≡ get String_discrete d (row q)) [
              | yes y ↦ absurd (n (same→eq p q e) y)
              | no _ ↦ ap (λ r. get String_discrete d (row r)) (same→eq p q e)
            ]))
]

with_stream-Touches :
    {C : Type 0} (p : Provider) (coin : String) (f : StreamSignal → StreamSignal) (s : Sender C)
    (signal : StreamSignal)
    → signal_at p coin s ≡ some signal
    → Ensures (Touches p coin (f signal) s) (with_stream p coin f s)
unfolding with_stream
with_stream-Touches p coin f s signal h =
    rw (h, ◌>>=◌)
      (record {
        own = get-set_own p coin (f signal) s.signals;
        others = λ q d n. get-set_other p q coin d (f signal) s.signals n;
        channel = refl;
      })

-- Connecting and dropping the guard do not panic on a registered stream. Connecting raises the
-- stream with a new generation and with no message heard, and dropping the guard takes it down
-- with no message heard; the drops that were counted stay, and so do the other streams and the
-- channel.
pub connected-Touches :
    {C : Type 0} (p : Provider) (coin : String) (now_ms : ℕ) (s : Sender C) (signal : StreamSignal)
    → signal_at p coin s ≡ some signal
    → Ensures
        (Touches p coin
          (record {
            connection_up = true;
            last_message_wall_ms = 0;
            queue_dropped = signal.queue_dropped;
            last_queue_drop_wall_ms = signal.last_queue_drop_wall_ms;
            connection_generation = add_u64 signal.connection_generation 1;
            connected_at_wall_ms = now_ms;
          })
          s)
        (connected p coin now_ms s)
      × Ensures
          (Touches p coin
            (record {
              connection_up = false;
              last_message_wall_ms = 0;
              queue_dropped = signal.queue_dropped;
              last_queue_drop_wall_ms = signal.last_queue_drop_wall_ms;
              connection_generation = signal.connection_generation;
              connected_at_wall_ms = signal.connected_at_wall_ms;
            })
            s)
          (drop_guard p coin s)
unfolding connected drop_guard
connected-Touches p coin now_ms s signal h = (
  with_stream-Touches p coin (connect now_ms) s signal h,
  with_stream-Touches p coin disconnect s signal h,
)

-- What an attempt does to a stream whose signal is `signal`, by the channel's answer: the event has
-- joined the channel, and the signals are the same; or the channel is full, and one drop is counted
-- on the stream; or the receiver is gone, and nothing changes.
abbrev pub Attempts :
    {C : Type 0}
    → TrySend C
    → Provider
    → String
    → ℕ
    → StreamSignal
    → Sender C
    → Bool × Sender C
    → Type 0
Attempts (sent channel) p coin wall_ms signal s r =
    (r.0 ≡ true) × (r.1.channel ≡ channel) × (r.1.signals ≡ s.signals)
Attempts full p coin wall_ms signal s r =
    (r.0 ≡ true)
    × Touches p coin
        (record {
          connection_up = signal.connection_up;
          last_message_wall_ms = signal.last_message_wall_ms;
          queue_dropped = (signal.queue_dropped + 1) % 2 ^ 64;
          last_queue_drop_wall_ms = wall_ms;
          connection_generation = signal.connection_generation;
          connected_at_wall_ms = signal.connected_at_wall_ms;
        })
        s r.1
Attempts closed p coin wall_ms signal s r = (r.0 ≡ false) × (r.1 ≡ s)

-- The stream that an event belongs to.
abbrev pub provider_of : ProbeEvent → Provider
provider_of (market event) = event.provider
provider_of (reconnect p coin) = p
provider_of (sequence_gap p coin missing) = p
provider_of (replay p coin messages has_gap) = p

-- The answer is split on by an equation, since the goal mentions it twice.
TrySend-cases :
    {C : Type 0} (t : TrySend C) → ((c : C) × (t ≡ sent c)) ⊎ ((t ≡ full) ⊎ (t ≡ closed))
TrySend-cases (sent c) = inl (c, refl)
TrySend-cases full = inr (inl refl)
TrySend-cases closed = inr (inr refl)

module _ {C : Type 0} (try_send : ProbeEvent → C → TrySend C) where
  deliver-Attempts :
      (event : ProbeEvent) (p : Provider) (coin : String) (wall_ms : ℕ) (s : Sender C)
      (signal : StreamSignal)
      → signal_at p coin s ≡ some signal
      → Ensures
          (Attempts (try_send event s.channel) p coin wall_ms signal s)
          (deliver try_send event p coin wall_ms s)
  unfolding deliver add_u64
  deliver-Attempts event p coin wall_ms s signal h =
      elim (TrySend-cases (try_send event s.channel)) [
        | inl (c, e) ↦ rw (e, deliver) (refl, refl, refl)
        | inr (inl e) ↦
            rw (e, deliver)
              (Ensures->>= (Touches p coin (drop_at wall_ms signal) s)
                (λ r. (r.0 ≡ true) × Touches p coin (drop_at wall_ms signal) s r.1) _ _
                (with_stream-Touches p coin (drop_at wall_ms) s signal h) (λ d t. (refl, t)))
        | inr (inr e) ↦ rw (e, deliver) (refl, refl)
      ]

  -- The stream's last message is dated, and nothing else of its signal changes.
  abbrev pub heard_at : ℕ → StreamSignal → StreamSignal
  heard_at wall_ms signal = record {
    connection_up = signal.connection_up;
    last_message_wall_ms = wall_ms;
    queue_dropped = signal.queue_dropped;
    last_queue_drop_wall_ms = signal.last_queue_drop_wall_ms;
    connection_generation = signal.connection_generation;
    connected_at_wall_ms = signal.connected_at_wall_ms;
  }

  -- A market event is heard on its stream before it is tried, and a drop of it is dated by its own
  -- receipt; a control event is only tried, and a drop of it is dated by the clock.
  abbrev pub Sends : ProbeEvent → ℕ → StreamSignal → Sender C → Bool × Sender C → Type 0
  Sends (market event) now_ms signal s r =
      (heard : Sender C) × Touches event.provider event.key.coin
        (heard_at event.received_wall_ms signal) s heard
      × Attempts (try_send (market event) heard.channel) event.provider event.key.coin
          event.received_wall_ms (heard_at event.received_wall_ms signal) heard r
  Sends event now_ms signal s r =
      Attempts (try_send event s.channel) (provider_of event) (coin_of event) now_ms signal s r

  -- Whatever the channel answers, sending on a registered stream does not panic. It answers `false`
  -- exactly where the receiver is gone; a full channel counts one drop on the event's own stream,
  -- modulo 2 ^ 64, dates it, and keeps all else of the signal and the other streams; and an event
  -- that the channel takes changes no drop counter. A market event is heard on its stream first.
  pub send-Sends :
      (event : ProbeEvent) (now_ms : ℕ) (s : Sender C) (signal : StreamSignal)
      → signal_at (provider_of event) (coin_of event) s ≡ some signal
      → Ensures (Sends event now_ms signal s) (send try_send event now_ms s)
  unfolding send
  send-Sends (market event) now_ms s signal h =
      let heard = hear event.received_wall_ms in
      Ensures->>= (Touches event.provider event.key.coin (heard signal) s)
        (Sends (market event) now_ms signal s) _ _
        (with_stream-Touches event.provider event.key.coin heard s signal h)
        (λ c t.
          Ensures-mono
            (Attempts (try_send (market event) c.channel) event.provider event.key.coin
              event.received_wall_ms (heard signal) c)
            (Sends (market event) now_ms signal s) _
            (deliver-Attempts (market event) event.provider event.key.coin event.received_wall_ms c
              (heard signal) t.own)
            (λ r a. (c, t, a)))
  send-Sends (reconnect p coin) now_ms s signal h =
      rw (h, ◌>>=◌) (deliver-Attempts (reconnect p coin) p coin now_ms s signal h)
  send-Sends (sequence_gap p coin missing) now_ms s signal h =
      rw (h, ◌>>=◌) (deliver-Attempts (sequence_gap p coin missing) p coin now_ms s signal h)
  send-Sends (replay p coin messages has_gap) now_ms s signal h =
      rw (h, ◌>>=◌) (deliver-Attempts (replay p coin messages has_gap) p coin now_ms s signal h)
