-- ===== src/Tests/Packets.antt =====
-- Runs of the reassembler and the packet parser of src/tap.rs at concrete segments.
use hyperliquid_market_bench.Prelude.{ℕ, ◌≡◌, ◌↔◌, refl, List, [], ◌∷◌, some, Ensures, arith, All}
use hyperliquid_market_bench.Bytes.{be_from, slice}
use hyperliquid_market_bench.Tap.{
  Segment, bytes, cleared, take_at, take_ready, hold, or_insert, pull_due, pull_found, pull_loop,
  pull_held,
}
use hyperliquid_market_bench.Tap.Push.{
  push, tick, push_payload, expire, expire_pending, oldest, is_waiting,
}
use hyperliquid_market_bench.Tap.Packet.{parse_ipv4_tcp, parse_tcp, tcp_segment}
use hyperliquid_market_bench.Tap.Parses.{IsPacket}
use hyperliquid_market_bench.Tap.Exact.{parse_ipv4_tcp-exact}
use hyperliquid_market_bench.Tap.Takes.{Taken}
use hyperliquid_market_bench.Tap.Pushes.{
  Call, feeds, ticks, run, called, IsPartOrTick, run-Delivers,
}
use hyperliquid_market_bench.Tap.Orderly.{handed, clear_at, run-InOrder}

abbrev sent : List ℕ
sent = 1 ∷ 2 ∷ 3 ∷ 4 ∷ 5 ∷ []

abbrev segment : ℕ → ℕ → List ℕ → Segment
segment seq flags payload = record {
  dst_port = 4000;
  seq = seq;
  flags = flags;
  payload = payload;
  wall_ns = seq;
}

-- The end of the stream is captured first, and again with what was missing.
abbrev calls : List Call
calls =
    feeds (segment 103 0x10 (3 ∷ 4 ∷ 5 ∷ [])) 20 20
    ∷ ticks 25 25
    ∷ feeds (segment 101 0x18 (1 ∷ 2 ∷ 3 ∷ [])) 30 30
    ∷ []

abbrev opening : Segment
opening = segment 100 2 []

abbrev parts : All (IsPartOrTick sent 101) calls
parts = (
  (2, (refl, refl, omega arith), refl, (refl, (refl, (refl, tt)))),
  (tt, ((0, (refl, refl, omega arith), refl, (refl, (refl, (refl, tt)))), tt)),
)

run-Delivers_example : Taken sent 101 0 (run (feeds opening 10 10 ∷ calls) cleared)
run-Delivers_example = run-Delivers sent opening 10 10 calls cleared (omega arith) (refl, tt) parts

all_delivered :
    (run (feeds opening 10 10 ∷ calls) cleared).0 ≡ bytes (1 ∷ 2 ∷ 3 ∷ 4 ∷ 5 ∷ []) 103 ∷ []
unfolding run called push tick push_payload take_at take_ready hold or_insert pull_due pull_found
    pull_loop pull_held expire expire_pending oldest is_waiting
all_delivered = refl

abbrev orderly : List Call
orderly =
    feeds (segment 4294967295 0x10 (3 ∷ 4 ∷ 5 ∷ [])) 20 20
    ∷ ticks 25 25
    ∷ feeds (segment 2 0x18 (1 ∷ 2 ∷ [])) 30 30
    ∷ []

run-InOrder_example : (run orderly (clear_at 4294967295 0)).0 ≡ handed orderly
run-InOrder_example =
    run-InOrder orderly 4294967295 0 (omega arith)
      ((refl, refl, omega arith), refl, ((refl, refl, omega arith), refl, tt))

-- From 10.0.0.1, port 4001, to port 4000: two bytes of data at 100.
abbrev packet : List ℕ
packet =
    0x45 ∷ 0 ∷ 0 ∷ 42 ∷ 0 ∷ 0 ∷ 0x40 ∷ 0 ∷ 64 ∷ 6 ∷ 0 ∷ 0 ∷ 10 ∷ 0 ∷ 0 ∷ 1 ∷ 10 ∷ 0 ∷ 0 ∷ 2 ∷ 15
    ∷ 161 ∷ 15 ∷ 160 ∷ 0 ∷ 0 ∷ 0 ∷ 100 ∷ 0 ∷ 0 ∷ 0 ∷ 0 ∷ 0x50 ∷ 0x18 ∷ 0 ∷ 0 ∷ 0 ∷ 0 ∷ 0 ∷ 0 ∷ 7 ∷ 8
    ∷ []

packet_parsed :
    parse_ipv4_tcp packet 0x0a000001 4001 100 ≡ some (some (segment 100 0x18 (7 ∷ 8 ∷ [])))
unfolding parse_ipv4_tcp parse_tcp tcp_segment be_from slice
packet_parsed = refl

parse_ipv4_tcp-exact_example :
    Ensures
      (λ answer. (seg : Segment) → (answer ≡ some seg) ↔ IsPacket packet 0x0a000001 4001 100 seg)
      (parse_ipv4_tcp packet 0x0a000001 4001 100)
parse_ipv4_tcp-exact_example = parse_ipv4_tcp-exact packet 0x0a000001 4001 100
