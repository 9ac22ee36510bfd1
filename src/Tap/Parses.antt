-- ===== src/Tap/Parses.antt =====
-- src/tap.rs: what `parse_ipv4_tcp` reads of a packet.
use hyperliquid_market_bench.Prelude.{
  ◌+◌, inl, inr, ◌⊎◌, ◌<◌, bind-Ensures, ℕ, ◌*◌, ◌/◌, ◌%◌, ◌^◌, ◌≤◌, ◌≡◌, refl, List, Option, none,
  some, ◌||◌, not, ltb, ◌==◌, length, get_elem?, Ensures, if_elim, arith, Ensures-mono, ◌∙◌, ap,
}
use hyperliquid_market_bench.Bytes.{be_at, slice}
use hyperliquid_market_bench.Bytes.Laws.{be_from-Ensures, index-Ensures, slice-length}
use hyperliquid_market_bench.Tap.{Segment}
use hyperliquid_market_bench.Tap.Packet.{tcp_segment, parse_tcp, parse_ipv4_tcp, packet_end}

-- The fields that a TCP header gives, and the bytes behind it.
pub record IsSegment (src_port : ℕ) (tcp : List ℕ) (seg : Segment) : Type 0 where
  pub high : ℕ
  pub long : 20 ≤ length tcp
  pub past_header : 20 ≤ high / 16 * 4
  pub in_bounds : high / 16 * 4 ≤ length tcp
  pub from_port : be_at 2 tcp 0 ≡ some src_port
  pub to_port : be_at 2 tcp 2 ≡ some seg.dst_port
  pub at_seq : be_at 4 tcp 4 ≡ some seg.seq
  pub offset : get_elem? tcp 12 ≡ some high
  pub with_flags : get_elem? tcp 13 ≡ some seg.flags
  pub behind : slice tcp (high / 16 * 4) (length tcp) ≡ some seg.payload

-- What a packet of the tapped peer gives. Its TCP segment ends with the packet's total length, or
-- with the capture where that length leaves no room for a TCP header or is more than was captured.
pub record IsPacket (packet : List ℕ) (src src_port wall_ns : ℕ) (seg : Segment) : Type 0 where
  pub head : ℕ
  pub total : ℕ
  pub tcp : List ℕ
  pub frag : ℕ
  pub long : 20 ≤ length packet
  pub whole : 20 ≤ head % 16 * 4
  pub fragment : be_at 2 packet 6 ≡ some frag
  pub unfragmented : frag % 2 ^ 14 ≡ 0
  pub first : get_elem? packet 0 ≡ some head
  pub version : head / 16 ≡ 4
  pub size : be_at 2 packet 2 ≡ some total
  pub protocol : get_elem? packet 9 ≡ some 6
  pub address : be_at 4 packet 12 ≡ some src
  pub end : ℕ
  pub trimmed : head % 16 * 4 + 20 ≤ total → total ≤ length packet → end ≡ total
  pub captured : (total < head % 16 * 4 + 20) ⊎ (length packet < total) → end ≡ length packet
  pub header : slice packet (head % 16 * 4) end ≡ some tcp
  pub segment : IsSegment src_port tcp seg
  pub at_wall : seg.wall_ns ≡ wall_ns

abbrev pub Answers : (Segment → Type 0) → Option Segment → Type 0
Answers Q none = Unit {0}
Answers Q (some seg) = Q seg

pub Answers-mono :
    (P Q : Segment → Type 0)
    → ((seg : Segment) → P seg → Q seg)
    → (answer : Option Segment) → Answers P answer
    → Answers Q answer
Answers-mono P Q f none a = tt
Answers-mono P Q f (some seg) a = f seg a

pub tcp_segment-Answers :
    (src_port wall_ns high : ℕ) (tcp : List ℕ)
    → 20 ≤ length tcp
    → be_at 2 tcp 0 ≡ some src_port
    → get_elem? tcp 12 ≡ some high
    → Ensures
        (Answers (λ seg. IsSegment src_port tcp seg × (seg.wall_ns ≡ wall_ns)))
        (tcp_segment tcp wall_ns (high / 16 * 4))
unfolding tcp_segment
tcp_segment-Answers src_port wall_ns high tcp l from at_high =
    let Q = Answers (λ seg. IsSegment src_port tcp seg × (seg.wall_ns ≡ wall_ns)) in
    let offset = high / 16 * 4 in
    if_elim (Ensures Q) (ltb offset 20 || ltb (length tcp) offset) _ _ (λ t. tt)
      λ t.
        bind-Ensures _ Q (be_at 2 tcp 2) _ (be_from-Ensures 2 0 tcp 2 (omega arith)) λ dst_port e u.
          bind-Ensures _ Q (be_at 4 tcp 4) _ (be_from-Ensures 4 0 tcp 4 (omega arith)) λ seq f v.
            bind-Ensures _ Q (get_elem? tcp 13) _ (index-Ensures tcp 13 (omega arith)) λ flags g w.
              bind-Ensures _ Q (slice tcp offset (length tcp)) _
                (slice-length tcp offset (length tcp) (ground arith) (omega arith))
                λ payload k x. (
                  record {
                    high = high;
                    long = l;
                    past_header = ground arith;
                    in_bounds = ground arith;
                    from_port = from;
                    to_port = e;
                    at_seq = f;
                    offset = at_high;
                    with_flags = g;
                    behind = k;
                  },
                  refl,
                )

pub parse_tcp-Answers :
    (src_port wall_ns : ℕ) (tcp : Option (List ℕ))
    → Ensures
        (Answers (λ seg.
          (bytes : List ℕ) × (tcp ≡ some bytes)
          × IsSegment src_port bytes seg
          × (seg.wall_ns ≡ wall_ns)))
        (parse_tcp src_port wall_ns tcp)
unfolding parse_tcp
parse_tcp-Answers src_port wall_ns none = tt
parse_tcp-Answers src_port wall_ns (some tcp) =
    let Q = Answers (λ seg.
      (bytes : List ℕ) × (some tcp ≡ some bytes)
      × IsSegment src_port bytes seg
      × (seg.wall_ns ≡ wall_ns)) in
    if_elim (Ensures Q) (ltb (length tcp) 20) _ _ (λ t. tt)
      λ t. bind-Ensures _ Q (be_at 2 tcp 0) _ (be_from-Ensures 2 0 tcp 0 (ground arith)) λ port e u.
        bind-Ensures _ Q (get_elem? tcp 12) _ (index-Ensures tcp 12 (ground arith)) λ high f v.
          if_elim (Ensures Q) (not (port == src_port)) _ _ (λ w. tt)
            λ w.
              let same : port ≡ src_port = ground arith in
              Ensures-mono _ Q _
                (tcp_segment-Answers src_port wall_ns high tcp (ground arith) (e ∙ ap some same) f)
                (Answers-mono _ _ (λ seg q. (tcp, refl, q.0, q.1)))

pub packet_end_captured :
    (packet : List ℕ) (ihl total : ℕ)
    → (total < ihl + 20) ⊎ (length packet < total)
    → packet_end packet ihl total ≡ length packet
packet_end_captured packet ihl total (inl h) = ground arith
packet_end_captured packet ihl total (inr h) = ground arith

pub parse_ipv4_tcp-Answers :
    (packet : List ℕ) (src src_port wall_ns : ℕ)
    → Ensures
        (Answers (IsPacket packet src src_port wall_ns))
        (parse_ipv4_tcp packet src src_port wall_ns)
unfolding parse_ipv4_tcp
parse_ipv4_tcp-Answers packet src src_port wall_ns =
    let Q = Answers (IsPacket packet src src_port wall_ns) in
    if_elim (Ensures Q) (ltb (length packet) 20) _ _ (λ t. tt)
      λ t.
        let l : 20 ≤ length packet = ground arith in
        bind-Ensures _ Q (get_elem? packet 0) _ (index-Ensures packet 0 (omega arith)) λ head e0 u0.
          bind-Ensures _ Q (be_at 2 packet 2) _ (be_from-Ensures 2 0 packet 2 (omega arith))
            λ total e1 u1.
              bind-Ensures _ Q (be_at 2 packet 6) _ (be_from-Ensures 2 0 packet 6 (omega arith))
                λ frag e2 u2.
                  bind-Ensures _ Q (get_elem? packet 9) _ (index-Ensures packet 9 (omega arith))
                    λ protocol e3 u3.
                      bind-Ensures _ Q (be_at 4 packet 12) _
                        (be_from-Ensures 4 0 packet 12 (omega arith))
                        λ address e4 u4.
                          if_elim (Ensures Q) (not (head / 16 == 4)) _ _ (λ v. tt)
                            λ v.
                              if_elim (Ensures Q)
                                (ltb (head % 16 * 4) 20
                                  || not (protocol == 6)
                                  || not (frag % 2 ^ 14 == 0))
                                _ _ (λ w. tt)
                                λ w.
                                  if_elim (Ensures Q) (not (address == src)) _ _ (λ x. tt)
                                    λ x.
                                      let is_tcp : protocol ≡ 6 = ground arith in
                                      let is_src : address ≡ src = ground arith in
                                      Ensures-mono _ Q _
                                        (parse_tcp-Answers src_port wall_ns (
                                          slice packet (head % 16 * 4)
                                            (packet_end packet (head % 16 * 4) total)))
                                        (Answers-mono _ _ (λ seg q. record {
                                          head = head;
                                          frag = frag;
                                          long = l;
                                          whole = ground arith;
                                          fragment = e2;
                                          unfragmented = ground arith;
                                          total = total;
                                          tcp = q.0;
                                          first = e0;
                                          version = ground arith;
                                          size = e1;
                                          protocol = e3 ∙ ap some is_tcp;
                                          address = e4 ∙ ap some is_src;
                                          end = packet_end packet (head % 16 * 4) total;
                                          trimmed = λ m n. ground arith;
                                          captured =
                                              packet_end_captured packet (head % 16 * 4) total;
                                          header = q.1;
                                          segment = q.2;
                                          at_wall = q.3;
                                        }))
