-- ===== src/Tap/Orderly.antt =====
-- src/tap.rs: a connection whose segments are captured in order.
use hyperliquid_market_bench.Prelude.{
  ℕ, ◌^◌, ◌<◌, ◌≡◌, refl, sym, ap, subst, List, [], ◌∷◌, some, length, ltb, arith, if_elim, ◌∙◌,
}
use hyperliquid_market_bench.Tap.{
  Delivery, Reassembler, Segment, bytes, wrapping_add, take_at, take_ready, pull_loop, seq_diff,
  is_negative,
}
use hyperliquid_market_bench.Tap.Push.{push, push_payload, tick, expire, oldest, is_waiting}
use hyperliquid_market_bench.Tap.Pushes.{
  IsData, push-data, Call, feeds, ticks, called, run, and_then,
}

-- Each segment starts where the last one ended.
abbrev pub InOrder : ℕ → List Call → Type 0
InOrder next [] = Unit {0}
InOrder next (feeds seg now clock ∷ calls) =
    IsData seg × (seg.seq ≡ next) × InOrder (wrapping_add next (length seg.payload)) calls
InOrder next (ticks now clock ∷ calls) = InOrder next calls

abbrev pub handed : List Call → List Delivery
handed [] = []
handed (feeds seg now clock ∷ calls) = bytes seg.payload seg.wall_ns ∷ handed calls
handed (ticks now clock ∷ calls) = handed calls

abbrev pub clear_at : ℕ → ℕ → Reassembler
clear_at next held = record { next = some next; pending = []; pending_bytes = held }

pub take_at-next :
    (next wall_ns clock held : ℕ) (payload : List ℕ)
    → next < 2 ^ 32
    → take_at next payload wall_ns clock (some next) (clear_at next held) []
      ≡ (bytes payload wall_ns ∷ [], clear_at (wrapping_add next (length payload)) held)
unfolding take_at take_ready pull_loop
take_at-next next wall_ns clock held payload h =
    let e : seq_diff next next ≡ 0 = omega arith in
    if_elim
      (λ q. q ≡ (bytes payload wall_ns ∷ [], clear_at (wrapping_add next (length payload)) held))
      (is_negative (seq_diff next next)) _ _ (λ t. absurd (ground arith))
      (λ t.
        if_elim
          (λ q.
            q ≡ (bytes payload wall_ns ∷ [], clear_at (wrapping_add next (length payload)) held))
          (ltb 0 (seq_diff next next)) _ _ (λ u. absurd (ground arith)) (λ u. refl))

pub push-next :
    (next now clock held : ℕ) (seg : Segment)
    → next < 2 ^ 32
    → IsData seg
    → seg.seq ≡ next
    → push seg now clock (clear_at next held)
      ≡ (bytes seg.payload seg.wall_ns ∷ [], clear_at (wrapping_add next (length seg.payload)) held)
unfolding push_payload expire oldest is_waiting
push-next next now clock held seg h d e =
    push-data
      (λ q. q ≡ (
        bytes seg.payload seg.wall_ns ∷ [],
        clear_at (wrapping_add next (length seg.payload)) held,
      ))
      seg now clock (clear_at next held) d
      (ap (expire now clock) (
        subst
          (λ s. take_at s seg.payload seg.wall_ns clock (some next) (clear_at next held) [] ≡ (
            bytes seg.payload seg.wall_ns ∷ [],
            clear_at (wrapping_add next (length seg.payload)) held,
          ))
          (sym e) (take_at-next next seg.wall_ns clock held seg.payload h)))

-- From a state that holds nothing back, segments each of which starts where the last one ended are
-- delivered as they come, with no reset, whatever the ticks between them.
pub run-InOrder :
    (calls : List Call) (next held : ℕ)
    → next < 2 ^ 32
    → InOrder next calls
    → (run calls (clear_at next held)).0 ≡ handed calls
unfolding run called tick expire oldest is_waiting
run-InOrder [] next held h o = refl
run-InOrder (ticks now clock ∷ calls) next held h o = run-InOrder calls next held h o
run-InOrder (feeds seg now clock ∷ calls) next held h o =
    ap (λ q. (and_then (run calls) q).0) (push-next next now clock held seg h o.0 o.1)
    ∙ ap (λ out. bytes seg.payload seg.wall_ns ∷ out)
        (run-InOrder calls (wrapping_add next (length seg.payload)) held (omega arith) o.2)
