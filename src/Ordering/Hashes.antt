-- ===== src/Ordering/Hashes.antt =====
-- src/ordering.rs: hashes are copied without a panic, and have their lengths.
use hyperliquid_market_bench.Prelude.{
  ℕ, zero, suc, ◌+◌, ◌-◌, ◌*◌, ◌^◌, ◌≤◌, ◌≡◌, refl, ap, List, none, length, All, ltb, leb, ◌==◌,
  Ensures, Ensures->>=, Ensures-mono, Yields, Yields->>=, Yields-of_Ensures, Yields-if, Yields-any,
  get_elem?, arith,
}
use hyperliquid_market_bench.Bytes.{slice, le_at, checked_add}
use hyperliquid_market_bench.Bytes.Laws.{slice-length, slice-Yields}
use hyperliquid_market_bench.Ordering.{
  BlockHeader, Slot, copy_hashes, read_hashes, legacy_slot, tailed_slot, parse_slot,
  max_bundle_hashes, read_varint, parse_tail, slot_start,
}

abbrev pub HasHashes : ℕ → List (List ℕ) → Type 0
HasHashes count hashes = (length hashes ≡ count) × All (λ h. length h ≡ 32) hashes

pub copy_hashes-HasHashes :
    (count : ℕ) (payload : List ℕ) (k : ℕ)
    → k + count * 32 ≤ length payload
    → Ensures (HasHashes count) (copy_hashes count payload k)
unfolding copy_hashes
copy_hashes-HasHashes zero payload k h = (refl, tt)
copy_hashes-HasHashes (suc count) payload k h =
    Ensures->>= (λ s. length s ≡ k + 32 - k) (HasHashes (suc count)) (slice payload k (k + 32)) _
      (slice-length payload k (k + 32) (omega arith) (omega arith))
      λ hash e.
        Ensures->>= (HasHashes count) (HasHashes (suc count)) (copy_hashes count payload (k + 32)) _
          (copy_hashes-HasHashes count payload (k + 32) (omega arith))
          (λ rest r. (ap suc r.0, (omega (arith, e), r.1)))

-- Hashes that are read are as many as the count, which is at most 1024.
pub read_hashes-Yields :
    (payload : List ℕ) (k count : ℕ)
    → Yields (λ hs. HasHashes count hs × (count ≤ max_bundle_hashes)) (read_hashes payload k count)
unfolding read_hashes
read_hashes-Yields payload k count =
    let Q = λ (hs : List (List ℕ)). HasHashes count hs × (count ≤ max_bundle_hashes) in
    Yields-if Q (leb count max_bundle_hashes) _ none
      (λ few.
        Yields->>= (λ end. end ≡ k + count * 32) Q (checked_add k (count * 32)) _
          (Yields-if (λ (end : ℕ). end ≡ k + count * 32) (ltb (k + count * 32) (2 ^ 64)) _ none
            (λ e. refl) (λ e. tt))
          λ end e.
            Yields-if Q (leb end (length payload)) _ none
              (λ fits. Yields-of_Ensures Q (copy_hashes count payload k) (
                Ensures-mono (HasHashes count) Q _
                  (copy_hashes-HasHashes count payload k (ground arith))
                  (λ hs h. (h, ground arith))))
              (λ e. tt))
      (λ e. tt)

-- What every parsed slot satisfies.
abbrev pub IsHeader : BlockHeader → Type 0
IsHeader h =
    (length h.proposer ≡ 20)
    × (length h.tx_hashes ≤ max_bundle_hashes)
    × All (λ (x : List ℕ). length x ≡ 32) h.tx_hashes

HasHashes-IsHeader :
    (proposer : List ℕ) (round count : ℕ) (hashes : List (List ℕ))
    → length proposer ≡ 20
    → HasHashes count hashes × (count ≤ max_bundle_hashes)
    → IsHeader (record { proposer = proposer; round = round; tx_hashes = hashes })
HasHashes-IsHeader proposer round count hashes p h = (p, omega (arith, h.0.0, h.1), h.0.1)

legacy_slot-Yields :
    (payload proposer : List ℕ) (at : ℕ)
    → length proposer ≡ 20
    → Yields (λ s. IsHeader s.header) (legacy_slot payload proposer at)
unfolding legacy_slot
legacy_slot-Yields payload proposer at p =
    let Q = λ (s : Slot). IsHeader s.header in
    Yields->>= (λ x. Unit {0}) Q (le_at 4 payload (at + 1)) _ (Yields-any _)
      λ round r.
        Yields->>= (λ x. Unit {0}) Q (read_varint payload (at + 5)) _ (Yields-any _)
          λ v q.
            Yields->>= (λ hs. HasHashes v.0 hs × (v.0 ≤ max_bundle_hashes)) Q
              (read_hashes payload v.1 v.0) _ (read_hashes-Yields payload v.1 v.0)
              λ hashes h. HasHashes-IsHeader proposer round v.0 hashes p h

tailed_slot-Yields :
    (payload proposer : List ℕ) (at : ℕ)
    → length proposer ≡ 20
    → Yields (λ s. IsHeader s.header) (tailed_slot payload proposer at)
unfolding tailed_slot
tailed_slot-Yields payload proposer at p =
    let Q = λ (s : Slot). IsHeader s.header in
    Yields->>= (λ x. Unit {0}) Q (read_varint payload at) _ (Yields-any _)
      λ v q.
        Yields->>= (λ hs. HasHashes v.0 hs × (v.0 ≤ max_bundle_hashes)) Q
          (read_hashes payload v.1 v.0) _ (read_hashes-Yields payload v.1 v.0)
          λ hashes h.
            Yields->>= (λ x. Unit {0}) Q (parse_tail payload (v.1 + length hashes * 32)) _
              (Yields-any _) λ tail t. HasHashes-IsHeader proposer tail.round v.0 hashes p h

pub parse_slot-Yields : (payload : List ℕ) → Yields (λ s. IsHeader s.header) (parse_slot payload)
unfolding parse_slot
parse_slot-Yields payload =
    let Q = λ (s : Slot). IsHeader s.header in
    Yields->>= (λ x. Unit {0}) Q (slot_start payload) _ (Yields-any _)
      λ p r.
        Yields->>= (λ end. end ≡ p + 20) Q (checked_add p 20) _
          (Yields-if (λ (end : ℕ). end ≡ p + 20) (ltb (p + 20) (2 ^ 64)) _ none (λ e. refl)
            (λ e. tt))
          λ end e.
            Yields->>= (λ s. length s ≡ end - p) Q (slice payload p end) _
              (slice-Yields payload p end)
              λ proposer n.
                Yields->>= (λ x. Unit {0}) Q (get_elem? payload end) _ (Yields-any _)
                  λ marker m.
                    Yields-if Q (marker == 0xfc) _ _
                      (λ x. legacy_slot-Yields payload proposer end (omega (arith, n, e)))
                      (λ x. tailed_slot-Yields payload proposer end (omega (arith, n, e)))
