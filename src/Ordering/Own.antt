-- ===== src/Ordering/Own.antt =====
-- src/ordering.rs: the frame's own record, and all records of a payload.
use hyperliquid_market_bench.Prelude.{
  ℕ, zero, suc, ◌+◌, ◌-◌, ◌*◌, ◌≤◌, ◌<◌, ◌≡◌, refl, List, [], ◌∷◌, some, length, All, Bool, true,
  false, if◌then◌else◌, ltb, leb, ◌==◌, Bool-cases, Option-cases, inl, inr, Ensures, Ensures->>=,
  Yields, Ensures-if, get_elem?, subst, arith, ◌&&◌, All-append, for_each-Ensures,
  for_each-Ensures_All,
}
use hyperliquid_market_bench.Bytes.{slice, le_at}
use hyperliquid_market_bench.Bytes.Laws.{slice-length, index-Ensures, le_at-Ensures}
use hyperliquid_market_bench.Ordering.{Slot, read_hashes, parse_slot, max_bundle_hashes}
use hyperliquid_market_bench.Ordering.Hashes.{
  HasHashes, IsHeader, read_hashes-Yields, parse_slot-Yields,
}
use hyperliquid_market_bench.Ordering.Records.{
  Found, nothing, at, ambiguous, tail_ends, ends_at, note_index, try_index, try_tail, find_count,
  own_record, parent_record, tailed_records, in_window, find_block_records,
}
use hyperliquid_market_bench.Ordering.Sound.{IsBlock, Blocks, scan_block_records-Ensures}

module _ (payload : List ℕ) where
  -- The indices behind the tails lie in the payload.
  abbrev Ends : List ℕ → Type 0
  Ends = All (λ end. end ≤ length payload)

  tail_ends-Ensures :
      (slot : Slot) (rounds j : ℕ)
      → length payload < j + rounds + 10
      → Ensures Ends (tail_ends rounds payload slot j)
  unfolding tail_ends ends_at
  tail_ends-Ensures slot zero j h = ground arith
  tail_ends-Ensures slot (suc rounds) j h =
      Ensures-if Ends (leb (j + 10) (length payload)) _ (some [])
        (λ fits.
          Ensures->>= (λ x. Unit {0}) Ends (ends_at payload slot j) _ (looked (ground arith))
            λ found t.
              Ensures->>= Ends Ends (tail_ends rounds payload slot (j + 1)) _
                (tail_ends-Ensures slot rounds (j + 1) (omega arith))
                λ ends e. noted found ends (ground arith) e)
        (λ x. tt)
    where
      looked : j + 10 ≤ length payload → Ensures (λ x. Unit {0}) (ends_at payload slot j)
      looked k =
          let any = λ (b : Bool). Unit {0} in
          Ensures->>= (λ x. Unit {0}) any (get_elem? payload j) _
            (index-Ensures payload j (omega arith))
            λ first t.
              Ensures->>= (λ x. Unit {0}) any (le_at 4 payload (j + 1)) _
                (le_at-Ensures 4 payload (j + 1) (omega arith))
                λ activation t.
                  Ensures->>= (λ x. Unit {0}) any (get_elem? payload (j + 5)) _
                    (index-Ensures payload (j + 5) (omega arith))
                    λ second t.
                      Ensures-if any
                        (first == 0xfc && activation == slot.activation && second == 0xfc) _
                        (some false)
                        (λ x.
                          Ensures->>= (λ x. Unit {0}) any (le_at 4 payload (j + 6)) _
                            (le_at-Ensures 4 payload (j + 6) (omega arith)) (λ parent t. tt))
                        (λ x. tt)

      noted :
          (found : Bool) (ends : List ℕ)
          → j + 10 ≤ length payload
          → Ends ends
          → Ends (if found then (j + 10) ∷ ends else ends)
      noted true ends k e = (k, e)
      noted false ends k e = e

  -- An index that the search notes has its proposer before it and lies in the payload.
  abbrev IsFound : Found → Type 0
  IsFound nothing = Unit {0}
  IsFound (at idx) = (30 ≤ idx) × (idx < length payload)
  IsFound ambiguous = Unit {0}

  note_index-IsFound :
      (idx : ℕ) (found : Found)
      → 30 ≤ idx
      → idx < length payload
      → IsFound found
      → IsFound (note_index idx found)
  unfolding note_index
  note_index-IsFound idx nothing h k f = (h, k)
  note_index-IsFound idx (at i) h k f = elim (Bool-cases (i == idx)) [
    | inl e ↦ rw e (h, k)
    | inr e ↦ rw e tt
  ]
  note_index-IsFound idx ambiguous h k f = tt

  try_index-IsFound :
      (slot : Slot) (end c hashes_end idx : ℕ) (found : Found)
      → idx < length payload
      → IsFound found
      → Ensures IsFound (try_index payload slot end c hashes_end idx found)
  unfolding try_index
  try_index-IsFound slot end c hashes_end idx found k f =
      Ensures-if IsFound (ltb idx 30) (some found) _ (λ x. f)
        λ far.
          Ensures->>= (λ x. Unit {0}) IsFound (get_elem? payload idx) _
            (index-Ensures payload idx k)
            λ count t.
              Ensures-if IsFound (count == c) _ (some found)
                (λ same.
                  Ensures->>= (λ x. Unit {0}) IsFound (get_elem? payload (idx - 21)) _
                    (index-Ensures payload (idx - 21) (omega arith))
                    λ signers t.
                      Ensures->>= (λ x. Unit {0}) IsFound (get_elem? payload (idx - 30)) _
                        (index-Ensures payload (idx - 30) (omega arith))
                        λ opening t.
                          Ensures-if IsFound _ (some (note_index idx found)) (some found)
                            (λ x. note_index-IsFound idx found (ground arith) k f) (λ x. f))
                (λ x. f)

  try_tail-searching :
      (slot : Slot) (end c tail_len : ℕ)
      → end ≤ length payload
      → (found : Found) → IsFound found
      → Ensures IsFound (
          if ltb end tail_len
          then some found
          else if ltb (end - tail_len) (1 + 32 * c)
          then some found
          else try_index payload slot end c (end - tail_len) (end - tail_len - (1 + 32 * c)) found)
  try_tail-searching slot end c tail_len h found f =
      Ensures-if IsFound (ltb end tail_len) (some found) _ (λ x. f)
        λ x.
          Ensures-if IsFound (ltb (end - tail_len) (1 + 32 * c)) (some found) _ (λ x. f)
            λ y.
              try_index-IsFound slot end c (end - tail_len) (end - tail_len - (1 + 32 * c)) found
                (ground arith) f

  try_tail-IsFound :
      (slot : Slot) (end c tail_len : ℕ) (found : Found)
      → end ≤ length payload
      → IsFound found
      → Ensures IsFound (try_tail payload slot end c tail_len found)
  unfolding try_tail
  try_tail-IsFound slot end c tail_len ambiguous h f = tt
  try_tail-IsFound slot end c tail_len nothing h f =
      try_tail-searching slot end c tail_len h nothing f
  try_tail-IsFound slot end c tail_len (at idx) h f =
      try_tail-searching slot end c tail_len h (at idx) f

  find_count-IsFound :
      (slot : Slot) (ends : List ℕ) → Ends ends → Ensures IsFound (find_count payload slot ends)
  unfolding find_count
  find_count-IsFound slot ends e =
      for_each-Ensures_All (λ end. end ≤ length payload) IsFound _
        (λ end found h f.
          for_each-Ensures IsFound _
            (λ c found f.
              for_each-Ensures IsFound (try_tail payload slot end c)
                (λ tail_len found f. try_tail-IsFound slot end c tail_len found h f) _ found f)
            _ found f)
        ends nothing e tt

  own_record-IsBlock :
      (lo hi : ℕ) (slot : Slot) (found : Found)
      → lo ≤ slot.header.round
      → slot.header.round ≤ hi
      → IsFound found
      → Ensures (Blocks payload lo hi) (own_record payload slot found)
  unfolding own_record
  own_record-IsBlock lo hi slot nothing h k f = tt
  own_record-IsBlock lo hi slot ambiguous h k f = tt
  own_record-IsBlock lo hi slot (at idx) h k f =
      let Q = Blocks payload lo hi in
      Ensures->>= (λ x. Unit {0}) Q (get_elem? payload idx) _ (index-Ensures payload idx f.1)
        λ count t.
          Ensures-if Q (count == 0) (some []) _ (λ x. tt)
            λ some_hashes. elim (Option-cases (read_hashes payload (idx + 1) count)) [
              | inl e ↦ rw e tt
              | inr (hashes, e) ↦ rw e (
                  let r =
                    subst (Yields (λ hs. HasHashes count hs × (count ≤ max_bundle_hashes))) e
                      (read_hashes-Yields payload (idx + 1) count) in
                  Ensures->>= (λ s. length s ≡ idx - (idx - 20)) Q (slice payload (idx - 20) idx) _
                    (slice-length payload (idx - 20) idx (omega arith) (omega (arith, f.1)))
                    λ proposer n.
                      ((
                        (
                          (omega (arith, n, f.0), omega (arith, r.0.0, r.1), r.0.1),
                          ground (arith, r.0.0),
                          inr (slot.header.round, h, k, refl),
                        ),
                        tt,
                      )))
            ]

  tailed_records-IsBlock :
      (lo hi : ℕ) (slot : Slot)
      → lo ≤ slot.header.round
      → slot.header.round ≤ hi
      → IsHeader slot.header
      → Ensures (Blocks payload lo hi) (tailed_records payload slot)
  unfolding tailed_records parent_record
  tailed_records-IsBlock lo hi slot h k header =
      let Q = Blocks payload lo hi in
      Ensures->>= Ends Q (tail_ends (length payload) payload slot slot.end) _
        (tail_ends-Ensures slot (length payload) slot.end (omega arith))
        λ ends e.
          Ensures->>= IsFound Q (find_count payload slot ends) _ (find_count-IsFound slot ends e)
            λ found f.
              Ensures->>= Q Q (own_record payload slot found) _
                (own_record-IsBlock lo hi slot found h k f)
                λ own o. All-append (IsBlock lo hi) (parent_record slot) own parent o
    where
      parent : All (IsBlock lo hi) (parent_record slot)
      parent = elim (Bool-cases (length slot.header.tx_hashes == 0)) [
        | inl e ↦ rw e tt
        | inr e ↦ rw e ((header, ground arith, inl (h, k)), tt)
      ]

-- On every payload the search for records returns, with no index out of range, and each record
-- that it returns has a proposer of 20 bytes and 1 to 1024 hashes of 32 bytes; its round lies in
-- the window or is the successor of a round in the window.
pub find_block_records-IsBlock :
    (payload : List ℕ) (lo hi : ℕ)
    → Ensures (All (IsBlock lo hi)) (find_block_records payload lo hi)
unfolding find_block_records
find_block_records-IsBlock payload lo hi =
    let Q = Blocks payload lo hi in
    elim (Option-cases (parse_slot payload)) [
      | inl e ↦ rw (e, find_block_records) (scan_block_records-Ensures payload lo hi)
      | inr (slot, e) ↦
          rw (e, find_block_records)
            (let header =
                subst (Yields (λ (s : Slot). IsHeader s.header)) e (parse_slot-Yields payload) in
              Ensures-if Q slot.legacy _ _ (λ x. scan_block_records-Ensures payload lo hi)
                λ x.
                  Ensures-if Q (in_window lo hi slot.header.round) _ (some [])
                    (λ w.
                      tailed_records-IsBlock payload lo hi slot (ground arith) (ground arith)
                        header)
                    (λ w. tt))
    ]
