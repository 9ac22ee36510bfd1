-- ===== src/Tap/Packet.antt =====
-- src/tap.rs: `parse_ipv4_tcp` and the kernel's filter. An IPv4 address is its four bytes in one
-- number, as `u32::from` has it; `packet[i]` panics where `get_elem?` is none.
use hyperliquid_market_bench.Prelude.{
  ℕ, ◌+◌, ◌*◌, ◌/◌, ◌%◌, ◌^◌, List, [], ◌∷◌, Option, none, some, ◌&&◌, ◌||◌, not, if◌then◌else◌,
  ltb, leb, ◌==◌, length, get_elem?, ◌>>=◌,
}
use hyperliquid_market_bench.Bytes.{be_at, slice}
use hyperliquid_market_bench.Tap.{Segment}

-- The answer of the parser where it does not panic.
abbrev pub Parsed : Type 0
Parsed = Option (Option Segment)

unfoldable pub tcp_segment : List ℕ → ℕ → ℕ → Parsed
tcp_segment tcp wall_ns data_offset =
    if ltb data_offset 20 || ltb (length tcp) data_offset then some none else (do
      dst_port ← be_at 2 tcp 2
      seq ← be_at 4 tcp 4
      flags ← get_elem? tcp 13
      payload ← slice tcp data_offset (length tcp)
      some (
          some (record {
            dst_port = dst_port;
            seq = seq;
            flags = flags;
            payload = payload;
            wall_ns = wall_ns;
          })))

unfoldable pub parse_tcp : ℕ → ℕ → Option (List ℕ) → Parsed
parse_tcp src_port wall_ns none = some none
parse_tcp src_port wall_ns (some tcp) = if ltb (length tcp) 20 then some none else (do
  port ← be_at 2 tcp 0
  high ← get_elem? tcp 12
  if not (port == src_port) then some none else tcp_segment tcp wall_ns (high / 16 * 4))

abbrev pub packet_end : List ℕ → ℕ → ℕ → ℕ
packet_end packet ihl total =
    if leb (ihl + 20) total && leb total (length packet) then total else length packet

unfoldable pub parse_ipv4_tcp : List ℕ → ℕ → ℕ → ℕ → Parsed
parse_ipv4_tcp packet src src_port wall_ns = if ltb (length packet) 20 then some none else (do
  head ← get_elem? packet 0
  total ← be_at 2 packet 2
  frag ← be_at 2 packet 6
  protocol ← get_elem? packet 9
  address ← be_at 4 packet 12
  let ihl = head % 16 * 4 in
      if not (head / 16 == 4)
      then some none
      else if ltb ihl 20 || not (protocol == 6) || not (frag % 2 ^ 14 == 0)
      then some none
      else if not (address == src)
      then some none
      else parse_tcp src_port wall_ns (slice packet ihl (packet_end packet ihl total)))

-- An instruction of the classic filter: code, jumps where the test holds and fails, operand.
pub record Instruction : Type 0 where
  pub code : ℕ
  pub jt : ℕ
  pub jf : ℕ
  pub k : ℕ

abbrev pub instruction : ℕ → ℕ → ℕ → ℕ → Instruction
instruction code jt jf k = record { code = code; jt = jt; jf = jf; k = k }

abbrev pub bpf_program : ℕ → ℕ → List Instruction
bpf_program src src_port =
    instruction 0x20 0 0 12
    ∷ instruction 0x15 0 6 src
    ∷ instruction 0x30 0 0 9
    ∷ instruction 0x15 0 4 6
    ∷ instruction 0xb1 0 0 0
    ∷ instruction 0x48 0 0 0
    ∷ instruction 0x15 0 1 src_port
    ∷ instruction 0x06 0 0 0x00040000
    ∷ instruction 0x06 0 0 0
    ∷ []
