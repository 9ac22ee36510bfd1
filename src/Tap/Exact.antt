-- ===== src/Tap/Exact.antt =====
-- src/tap.rs: the packets of which `parse_ipv4_tcp` returns a segment.
use hyperliquid_market_bench.Prelude.{
  ◌+◌, ◌∙◌, inl, inr, Bool-cases, leb, ℕ, ◌*◌, ◌/◌, ◌%◌, ◌^◌, ◌≡◌, List, Option, some, ◌||◌, not,
  ltb, ◌==◌, length, get_elem?, ◌>>=◌, Ensures, if_elim, arith, ap, sym, subst, ◌↔◌, Ensures-some,
}
use hyperliquid_market_bench.Bytes.{be_at, slice}
use hyperliquid_market_bench.Tap.{Segment}
use hyperliquid_market_bench.Tap.Packet.{packet_end, tcp_segment, parse_tcp, parse_ipv4_tcp, Parsed}
use hyperliquid_market_bench.Tap.Parses.{
  packet_end_captured, IsSegment, IsPacket, Answers, parse_ipv4_tcp-Answers,
}

pub bind-some {ℓ κ μ} :
    {A : Type ℓ} {B : Type κ} (Q : Option B → Type μ) (o : Option A) (x : A) (f : A → Option B)
    → o ≡ some x
    → Q (f x)
    → Q (o >>= f)
bind-some Q o x f e q = subst (λ r. Q (r >>= f)) (sym e) q

pub tcp_segment-IsSegment :
    (src_port wall_ns : ℕ) (tcp : List ℕ) (seg : Segment) (s : IsSegment src_port tcp seg)
    → seg.wall_ns ≡ wall_ns
    → tcp_segment tcp wall_ns (s.high / 16 * 4) ≡ some (some seg)
unfolding tcp_segment
tcp_segment-IsSegment src_port wall_ns tcp seg s w =
    let offset = s.high / 16 * 4 in
    let a = s.past_header in
    let b = s.in_bounds in
    let Q : Parsed → Type 0 = λ r. r ≡ some (some seg) in
    if_elim Q (ltb offset 20 || ltb (length tcp) offset) _ _ (λ t. absurd (ground arith))
      λ t. bind-some Q (be_at 2 tcp 2) _ _ s.to_port (
        bind-some Q (be_at 4 tcp 4) _ _ s.at_seq (
          bind-some Q (get_elem? tcp 13) _ _ s.with_flags (
            bind-some Q (slice tcp offset (length tcp)) _ _ s.behind
              (ap (λ at. some (some (record seg { wall_ns = at }))) (sym w)))))

packet_end-end :
    (packet : List ℕ) (src src_port wall_ns : ℕ) (seg : Segment)
    → (p : IsPacket packet src src_port wall_ns seg)
    → packet_end packet (p.head % 16 * 4) p.total ≡ p.end
packet_end-end packet src src_port wall_ns seg p =
    elim (Bool-cases (leb (p.head % 16 * 4 + 20) p.total)) [
      | inr e ↦
          packet_end_captured packet (p.head % 16 * 4) p.total (inl (ground arith))
          ∙ sym (p.captured (inl (ground arith)))
      | inl e ↦ elim (Bool-cases (leb p.total (length packet))) [
        | inl f ↦ (let same = p.trimmed (ground arith) (ground arith) in ground arith)
        | inr f ↦
            packet_end_captured packet (p.head % 16 * 4) p.total (inr (ground arith))
            ∙ sym (p.captured (inr (ground arith)))
      ]
    ]

pub parse_ipv4_tcp-IsPacket :
    (packet : List ℕ) (src src_port wall_ns : ℕ) (seg : Segment)
    → IsPacket packet src src_port wall_ns seg
    → parse_ipv4_tcp packet src src_port wall_ns ≡ some (some seg)
unfolding parse_ipv4_tcp parse_tcp
parse_ipv4_tcp-IsPacket packet src src_port wall_ns seg p =
    let s = p.segment in
    let same_end = packet_end-end packet src src_port wall_ns seg p in
    let tcp = p.tcp in
    let ihl = p.head % 16 * 4 in
    let Q : Parsed → Type 0 = λ r. r ≡ some (some seg) in
    let a = p.long in
    let b = p.version in
    let c = p.whole in
    let d = p.unfragmented in
    let l = s.long in
    if_elim Q (ltb (length packet) 20) _ _ (λ t. absurd (ground arith))
      λ t. bind-some Q (get_elem? packet 0) _ _ p.first (
        bind-some Q (be_at 2 packet 2) _ _ p.size (
          bind-some Q (be_at 2 packet 6) _ _ p.fragment (
            bind-some Q (get_elem? packet 9) _ _ p.protocol (
              bind-some Q (be_at 4 packet 12) _ _ p.address (
                if_elim Q (not (p.head / 16 == 4)) _ _ (λ t. absurd (ground arith))
                  λ t.
                    if_elim Q (ltb ihl 20 || not (6 == 6) || not (p.frag % 2 ^ 14 == 0)) _ _
                      (λ t. absurd (ground arith))
                      λ t.
                        if_elim Q (not (src == src)) _ _ (λ t. absurd (ground arith))
                          λ t.
                            subst (λ r. Q (parse_tcp src_port wall_ns r))
                              (sym (ap (slice packet ihl) same_end ∙ p.header))
                              (if_elim Q (ltb (length tcp) 20) _ _ (λ t. absurd (ground arith))
                                λ t. bind-some Q (be_at 2 tcp 0) _ _ s.from_port (
                                  bind-some Q (get_elem? tcp 12) _ _ s.offset (
                                    if_elim Q (not (src_port == src_port)) _ _
                                      (λ t. absurd (ground arith))
                                      λ t.
                                        tcp_segment-IsSegment src_port wall_ns tcp seg s
                                          p.at_wall))))))))

-- The parser does not panic on any packet. It returns a segment exactly where the packet is of
-- IPv4, no fragment, with TCP as its protocol and the peer's address, and a complete TCP header
-- from the peer's port behind the IP header. The segment's port, number and flags are that header's
-- fields, its time is the given one, and its payload is what stands behind the header up to the
-- packet's total length, without padding, or up to the end of the capture where the total length
-- leaves no room for a TCP header or is more than was captured.
pub parse_ipv4_tcp-exact :
    (packet : List ℕ) (src src_port wall_ns : ℕ)
    → Ensures
        (λ answer. (seg : Segment) → (answer ≡ some seg) ↔ IsPacket packet src src_port wall_ns seg)
        (parse_ipv4_tcp packet src src_port wall_ns)
parse_ipv4_tcp-exact packet src src_port wall_ns =
    let given = Ensures-some _ _ (parse_ipv4_tcp-Answers packet src src_port wall_ns) in
    subst
      (Ensures (λ answer.
        (seg : Segment) → (answer ≡ some seg) ↔ IsPacket packet src src_port wall_ns seg))
      (sym given.1)
      (λ seg. (
        λ e. subst (Answers (IsPacket packet src src_port wall_ns)) e given.2,
        λ p.
            let e = parse_ipv4_tcp-IsPacket packet src src_port wall_ns seg p in
            let f = given.1 in cc,
      ))
