-- ===== src/Tap/Pushes.antt =====
-- src/tap.rs: `push` and `tick`, from the start of a connection on.
use hyperliquid_market_bench.Prelude.{
  ℕ, ◌+◌, ◌^◌, ◌≤◌, ◌≡◌, refl, ap, List, [], ◌∷◌, ◌++◌, some, true, false, String, length, All,
  ◌==◌, arith, if_elim, is_some,
}
use hyperliquid_market_bench.Bytes.{At}
use hyperliquid_market_bench.Tap.{Delivery, Reassembler, Segment, has_syn, has_rst, wrapping_add}
use hyperliquid_market_bench.Tap.Push.{push, push_payload, tick, or_seq, resets}
use hyperliquid_market_bench.Tap.Follows.{
  word, Follows, Delivers, Delivers-append, At-bound, At-bound_inside, Delivers-bound,
}
use hyperliquid_market_bench.Tap.Takes.{Taken, IsNear, take_segment-Taken}
use hyperliquid_market_bench.Tap.Waits.{expire-Taken}

-- A segment with data that neither opens nor resets the connection.
abbrev pub IsData : Segment → Type 0
IsData seg = (has_syn seg.flags ≡ false) × (has_rst seg.flags ≡ false) × (1 ≤ length seg.payload)

pub push-data {ℓ} :
    (Q : List Delivery × Reassembler → Type ℓ) (seg : Segment) (now clock : ℕ) (r : Reassembler)
    → IsData seg
    → Q (push_payload seg now clock r)
    → Q (push seg now clock r)
unfolding push
push-data Q seg now clock r d q =
    if_elim Q (has_syn seg.flags) _ _ (λ t. absurd (let e = d.0 in cc))
      (λ t.
        if_elim Q (has_rst seg.flags) _ _ (λ u. absurd (let e = d.1 in cc))
          (λ u.
            if_elim Q (length seg.payload == 0) _ _ (λ v. absurd (let e = d.2 in ground arith))
              (λ v. q)))

module _ (stream : List ℕ) (first : ℕ) where
  -- A segment of the stream, near to what was handed on, keeps the state.
  pub push-Taken :
      (n o now clock : ℕ) (seg : Segment) (r : Reassembler)
      → Follows stream first n r
      → IsData seg
      → seg.seq ≡ word stream first o
      → IsNear stream first n o seg.payload
      → n ≤ length stream
      → Taken stream first n (push seg now clock r)
  unfolding push_payload
  push-Taken n o now clock seg r f d e p b = push-data (Taken stream first n) seg now clock r d (
      expire-Taken stream first n now clock _ (
        take_segment-Taken stream first n n o seg.seq seg.payload seg.wall_ns clock _ []
          (ap (λ x. some (or_seq x seg.seq)) f.0, f.1) refl e p))

  pub tick-Taken :
      (n now clock : ℕ) (r : Reassembler)
      → Follows stream first n r
      → Taken stream first n (tick now clock r)
  unfolding tick
  tick-Taken n now clock r f = expire-Taken stream first n now clock ([], r) (n, f, refl)

-- What the capture calls on one connection, in order.
pub data Call : Type 0 where
  feeds : Segment → ℕ → ℕ → Call
  ticks : ℕ → ℕ → Call

unfoldable pub called : Call → Reassembler → List Delivery × Reassembler
called (feeds seg now clock) r = push seg now clock r
called (ticks now clock) r = tick now clock r

abbrev pub and_then :
    (Reassembler → List Delivery × Reassembler)
    → List Delivery × Reassembler
    → List Delivery × Reassembler
and_then f (out, r) = let next = f r in (out ++ next.0, next.1)

unfoldable pub run : List Call → Reassembler → List Delivery × Reassembler
run [] r = ([], r)
run (call ∷ calls) r = and_then (run calls) (called call r)

module _ (stream : List ℕ) (first : ℕ) where
  -- A segment that carries a part of the stream.
  abbrev pub IsPart : Segment → Type 0
  IsPart seg = (o : ℕ) × IsData seg × (seg.seq ≡ word stream first o) × At stream o seg.payload

  abbrev pub IsPartOrTick : Call → Type 0
  IsPartOrTick (feeds seg now clock) = IsPart seg
  IsPartOrTick (ticks now clock) = Unit {0}

  pub called-Taken :
      (n : ℕ) (call : Call) (r : Reassembler)
      → length stream ≤ 2 ^ 31
      → n ≤ length stream
      → Follows stream first n r
      → IsPartOrTick call
      → Taken stream first n (called call r)
  unfolding called
  called-Taken n (ticks now clock) r l b f c = tick-Taken stream first n now clock r f
  called-Taken n (feeds seg now clock) r l b f c =
      let inside = At-bound_inside stream c.0 seg.payload c.1.2 c.3 in
      push-Taken stream first n c.0 now clock seg r f c.1 c.2 (omega arith, c.1.2, omega arith, c.3)
        b

  pub and_then-Taken :
      (n : ℕ) (f : Reassembler → List Delivery × Reassembler) (at : List Delivery × Reassembler)
      → n ≤ length stream
      → ((k : ℕ) (r : Reassembler)
          → k ≤ length stream
          → Follows stream first k r
          → Taken stream first k (f r))
      → Taken stream first n at
      → Taken stream first n (and_then f at)
  and_then-Taken n f (out, r) b ih t =
      let rest = ih t.0 r (Delivers-bound stream first n t.0 out b t.2) t.1 in
      (rest.0, rest.1, Delivers-append stream first n t.0 rest.0 out (f r).0 t.2 rest.2)

  pub run-Taken :
      (n : ℕ) (calls : List Call) (r : Reassembler)
      → length stream ≤ 2 ^ 31
      → n ≤ length stream
      → Follows stream first n r
      → All IsPartOrTick calls
      → Taken stream first n (run calls r)
  unfolding run
  run-Taken n [] r l b f c = (n, f, refl)
  run-Taken n (call ∷ calls) r l b f c =
      and_then-Taken n (run calls) (called call r) b
        (λ k q bound g. run-Taken k calls q l bound g c.1) (called-Taken n call r l b f c.0)

-- The segment that opens the connection, with the first bytes of the stream, if any.
abbrev pub IsOpening : List ℕ → Segment → Type 0
IsOpening stream seg = (has_syn seg.flags ≡ true) × At stream 0 seg.payload

pub resets-Delivers :
    (stream : List ℕ) (first : ℕ) (reason : String) (r : Reassembler)
    → Delivers stream first 0 (resets reason r) 0
resets-Delivers stream first reason r =
    if_elim (λ out. Delivers stream first 0 out 0) (is_some r.next) _ _
      (λ t. (0, omega arith, omega arith, refl)) (λ t. refl)

pub push-opens :
    (stream : List ℕ) (seg : Segment) (now clock : ℕ) (r : Reassembler)
    → length stream ≤ 2 ^ 31
    → IsOpening stream seg
    → Taken stream (seg.seq + 1) 0 (push seg now clock r)
unfolding push
push-opens stream seg now clock r l o =
    let first = seg.seq + 1 in
    let start : some (wrapping_add seg.seq 1) ≡ some (word stream first 0) =
      ap some (omega arith) in
    let out = resets-Delivers stream first "new connection (SYN)" r in
    let size = At-bound stream 0 seg.payload (omega arith) o.1 in
    if_elim (Taken stream first 0) (has_syn seg.flags) _ _
      (λ t.
        if_elim (Taken stream first 0) (length seg.payload == 0) _ _ (λ u. (0, (start, tt), out))
          (λ u.
            take_segment-Taken stream first 0 0 0 (wrapping_add seg.seq 1) seg.payload seg.wall_ns
              clock _ _ (start, tt) out (omega arith)
              (omega arith, ground arith, omega arith, o.1)))
      (λ t. absurd (let e = o.0 in cc))

-- From the segment that opens a connection on, whatever was held before it, with segments that carry
-- parts of one stream of up to 2 GiB in any order, repeated and overlapping, and ticks at any times:
-- what is delivered between two resets is the stream's bytes, each once and in order, and the state
-- at the end follows the stream from the last byte delivered.
pub run-Delivers :
    (stream : List ℕ) (seg : Segment) (now clock : ℕ) (calls : List Call) (r : Reassembler)
    → length stream ≤ 2 ^ 31
    → IsOpening stream seg
    → All (IsPartOrTick stream (seg.seq + 1)) calls
    → Taken stream (seg.seq + 1) 0 (run (feeds seg now clock ∷ calls) r)
unfolding run called
run-Delivers stream seg now clock calls r l o c =
    and_then-Taken stream (seg.seq + 1) 0 (run calls) (push seg now clock r) (omega arith)
      (λ k q bound g. run-Taken stream (seg.seq + 1) k calls q l bound g c)
      (push-opens stream seg now clock r l o)
