-- ===== src/Tap/Push.antt =====
-- src/tap.rs: `expire`, `push` and `tick`.
use hyperliquid_market_bench.Prelude.{
  ℕ, ◌-◌, min, List, [], ◌∷◌, ◌++◌, Option, none, some, Bool, true, String, ◌&&◌, if◌then◌else◌,
  ltb, leb, ◌==◌, length, is_some,
}
use hyperliquid_market_bench.Tap.{
  cleared, reset, seq_diff, by_order, take_at, take_segment, wrapping_add, Segment, Held, Delivery,
  Reassembler, reorder_wait, has_fin, has_syn, has_rst,
}

-- `values().map(..).min()`.
unfoldable pub oldest : List (ℕ × Held) → Option ℕ
oldest [] = none
oldest (e ∷ pending) = elim (oldest pending) [
  | none ↦ some e.1.seen
  | some seen ↦ some (min e.1.seen seen)
]

-- `keys().min_by_key(..)`, and the other segments.
unfoldable pub earliest : ℕ → (ℕ × Held) → List (ℕ × Held) → (ℕ × Held) × List (ℕ × Held)
earliest next e [] = (e, [])
earliest next e (f ∷ pending) =
    let first = earliest next f pending in
    if leb (by_order (seq_diff e.0 next)) (by_order (seq_diff first.0.0 next))
    then (e, f ∷ pending)
    else (first.0, e ∷ first.1)

unfoldable pub jump :
    ℕ → Reassembler → List Delivery → (ℕ × Held) × List (ℕ × Held) → List Delivery × Reassembler
jump clock r out (first, others) =
    take_at first.0 first.1.payload first.1.wall_ns clock (some first.0)
      (record {
        next = some first.0;
        pending = others;
        pending_bytes = r.pending_bytes - length first.1.payload;
      })
      (out ++ (reset "sequence hole not filled (capture loss)" ∷ []))

abbrev pub or_own : Option ℕ → ℕ → ℕ
or_own none s = s
or_own (some next) s = next

unfoldable pub expire_pending :
    ℕ → Reassembler → List (ℕ × Held) → List Delivery → List Delivery × Reassembler
expire_pending clock r [] out = (out, r)
expire_pending clock r (e ∷ pending) out = jump clock r out (earliest (or_own r.next e.0) e pending)

unfoldable pub is_waiting : ℕ → Option ℕ → Bool
is_waiting now none = true
is_waiting now (some seen) = ltb (now - seen) reorder_wait

unfoldable pub expire : ℕ → ℕ → List Delivery × Reassembler → List Delivery × Reassembler
expire now clock (out, r) =
    if is_waiting now (oldest r.pending) then (out, r) else expire_pending clock r r.pending out

abbrev pub resets : String → Reassembler → List Delivery
resets reason r = if is_some r.next then reset reason ∷ [] else []

abbrev pub or_seq : Option ℕ → ℕ → ℕ
or_seq none seq = seq
or_seq (some next) seq = next

unfoldable pub push_payload : Segment → ℕ → ℕ → Reassembler → List Delivery × Reassembler
push_payload seg now clock r = expire now clock (
    take_segment seg.seq seg.payload seg.wall_ns clock
      (record r { next = some (or_seq r.next seg.seq) }) [])

unfoldable pub push : Segment → ℕ → ℕ → Reassembler → List Delivery × Reassembler
push seg now clock r =
    if has_syn seg.flags
    then (let start = wrapping_add seg.seq 1 in
        let fresh = record cleared { next = some start } in
        let out = resets "new connection (SYN)" r in
        if length seg.payload == 0
        then (out, fresh)
        else take_segment start seg.payload seg.wall_ns clock fresh out)
    else if has_rst seg.flags
    then (resets "connection reset (RST)" r, cleared)
    else if length seg.payload == 0
    then if has_fin seg.flags && is_some r.next
      then (reset "connection closed (FIN)" ∷ [], cleared)
      else ([], r)
    else push_payload seg now clock r

unfoldable pub tick : ℕ → ℕ → Reassembler → List Delivery × Reassembler
tick now clock r = expire now clock ([], r)
