-- ===== src/Ordering/Records.antt =====
-- src/ordering.rs: the records that a payload carries, on both layouts.
use hyperliquid_market_bench.Prelude.{
  ℕ, zero, suc, ◌+◌, ◌-◌, ◌*◌, ◌%◌, ◌^◌, min, List, [], ◌∷◌, ◌++◌, Option, none, some, Bool, false,
  ◌&&◌, if◌then◌else◌, ltb, leb, ◌==◌, length, get_elem?, ◌>>=◌, for_each, map,
}
use hyperliquid_market_bench.Bytes.{slice, le_at}
use hyperliquid_market_bench.Ordering.{
  read_varint, BlockHeader, Tail, Slot, parse_slot, parse_tail, read_hashes, copy_hashes,
  wrapping_succ, tail_tc_max, record_tail_max,
}

-- `payload[i]`: none is the panic of an index out of range.
abbrev pub index : List ℕ → ℕ → Option ℕ
index = get_elem?

-- What the search for the record's count byte has found so far.
pub data Found : Type 0 where
  nothing : Found
  at : ℕ → Found
  ambiguous : Found

abbrev pub parent_in_reach : Slot → ℕ → Bool
parent_in_reach slot parent =
    leb ((slot.header.round + 2 ^ 32 - tail_tc_max) % 2 ^ 32) parent && leb parent slot.header.round

-- Whether `[fc activation][fc parent]` stands at an index, with a parent in reach.
unfoldable pub ends_at : List ℕ → Slot → ℕ → Option Bool
ends_at payload slot j = do
  first ← index payload j
  activation ← le_at 4 payload (j + 1)
  second ← index payload (j + 5)
  if first == 0xfc && activation == slot.activation && second == 0xfc
      then (le_at 4 payload (j + 6) >>= λ parent. some (parent_in_reach slot parent))
      else some false

-- The loop over the indices, with the rounds that are left.
unfoldable pub tail_ends : ℕ → List ℕ → Slot → ℕ → Option (List ℕ)
tail_ends zero payload slot j = if leb (j + 10) (length payload) then none else some []
tail_ends (suc rounds) payload slot j =
    let rest = tail_ends rounds payload slot (j + 1) in
    if leb (j + 10) (length payload)
    then (do
      found ← ends_at payload slot j
      ends ← rest
      some (if found then (j + 10) ∷ ends else ends))
    else some []

-- The body of the three loops: the tail's end, the count and the tail's length.
unfoldable pub tail_matches : List ℕ → Slot → ℕ → ℕ → Option Tail → Bool
tail_matches payload slot end own none = false
tail_matches payload slot end own (some tail) =
    tail.activation == slot.activation && tail.round == own && tail.end == end

unfoldable pub note_index : ℕ → Found → Found
note_index idx nothing = at idx
note_index idx (at i) = if i == idx then at idx else ambiguous
note_index idx ambiguous = ambiguous

unfoldable pub try_index : List ℕ → Slot → ℕ → ℕ → ℕ → ℕ → Found → Option Found
try_index payload slot end c hashes_end idx found = if ltb idx 30 then some found else (do
  count ← index payload idx
  if count == c
      then (do
        signers ← index payload (idx - 21)
        opening ← index payload (idx - 30)
        if ltb signers 0xfb
              && opening == 0xfd
              && tail_matches payload slot end (wrapping_succ slot.header.round)
                  (parse_tail payload hashes_end)
            then some (note_index idx found)
            else some found)
      else some found)

unfoldable pub try_tail : List ℕ → Slot → ℕ → ℕ → ℕ → Found → Option Found
try_tail payload slot end c tail_len ambiguous = some ambiguous
try_tail payload slot end c tail_len found =
    if ltb end tail_len
    then some found
    else if ltb (end - tail_len) (1 + 32 * c)
    then some found
    else try_index payload slot end c (end - tail_len) (end - tail_len - (1 + 32 * c)) found

-- `from..from + count`.
unfoldable pub range : ℕ → ℕ → List ℕ
range from zero = []
range from (suc count) = from ∷ range (suc from) count

unfoldable pub find_count : List ℕ → Slot → List ℕ → Option Found
find_count payload slot ends =
    for_each
      (λ end.
        for_each (λ c. for_each (try_tail payload slot end c) (range 20 (record_tail_max - 19)))
          (range 0 251))
      ends nothing

unfoldable pub own_record : List ℕ → Slot → Found → Option (List BlockHeader)
own_record payload slot nothing = some []
own_record payload slot ambiguous = some []
own_record payload slot (at idx) = do
  count ← index payload idx
  if count == 0 then some [] else elim (read_hashes payload (idx + 1) count) [
    | none ↦ some []
    | some tx_hashes ↦ slice payload (idx - 20) idx >>= λ proposer. some (
        record {
          proposer = proposer;
          round = wrapping_succ slot.header.round;
          tx_hashes = tx_hashes;
        }
        ∷ [])
  ]

unfoldable pub parent_record : Slot → List BlockHeader
parent_record slot = if length slot.header.tx_hashes == 0 then [] else slot.header ∷ []

unfoldable pub tailed_records : List ℕ → Slot → Option (List BlockHeader)
tailed_records payload slot = do
  ends ← tail_ends (length payload) payload slot slot.end
  found ← find_count payload slot ends
  own ← own_record payload slot found
  some (parent_record slot ++ own)

abbrev pub in_window : ℕ → ℕ → ℕ → Bool
in_window lo hi round = leb lo round && leb round hi

-- A record at a round marker, with the index behind it.
unfoldable pub marked_record : List ℕ → ℕ → ℕ → ℕ → Option (Option (BlockHeader × ℕ))
marked_record payload lo hi p = do
  round ← le_at 4 payload (p + 1)
  if in_window lo hi round
      then elim (read_varint payload (p + 5)) [
        | none ↦ some none
        | some (count, k) ↦
            if leb 1 count && leb count 64 && leb (k + count * 32) (length payload)
            then (do
              proposer ← slice payload (p - 20) p
              tx_hashes ← copy_hashes count payload k
              some (
                  some (
                    record { proposer = proposer; round = round; tx_hashes = tx_hashes },
                    k + count * 32,
                  )))
            else some none
      ]
      else some none

-- The record of one round of the scan.
unfoldable pub scan_at : List ℕ → ℕ → ℕ → ℕ → Option (Option (BlockHeader × ℕ))
scan_at payload lo hi p = index payload p >>= λ marker.
    if marker == 0xfc then marked_record payload lo hi p else some none

-- The scan, with fuel; none is a panic or the end of the fuel.
unfoldable pub scan_from : ℕ → List ℕ → ℕ → ℕ → ℕ → Option (List BlockHeader)
scan_from zero payload lo hi p = if leb (p + 5) (length payload) then none else some []
scan_from (suc fuel) payload lo hi p =
    let step = scan_at payload lo hi p >>= λ found. elim found [
      | none ↦ scan_from fuel payload lo hi (p + 1)
      | some (header, next) ↦ scan_from fuel payload lo hi next >>= λ rest. some (header ∷ rest)
    ] in
    if leb (p + 5) (length payload) then step else some []

unfoldable pub scan_block_records : List ℕ → ℕ → ℕ → Option (List BlockHeader)
scan_block_records payload lo hi = scan_from (length payload) payload lo hi 20

unfoldable pub find_block_records : List ℕ → ℕ → ℕ → Option (List BlockHeader)
find_block_records payload lo hi = elim (parse_slot payload) [
  | none ↦ scan_block_records payload lo hi
  | some slot ↦
      if slot.legacy
      then scan_block_records payload lo hi
      else if in_window lo hi slot.header.round
      then tailed_records payload slot
      else some []
]

abbrev pub as_u32_min : ℕ → ℕ
as_u32_min n = min n (2 ^ 32 - 1)

unfoldable pub ordering_rounds : List ℕ → ℕ → ℕ → Option (List (ℕ × ℕ))
ordering_rounds payload anchor window = if anchor == 0 then some [] else (do
  records ←
      find_block_records payload (as_u32_min (anchor - window))
        (as_u32_min (min (anchor + window) (2 ^ 64 - 1)))
  some (map (λ r. (r.round, length r.tx_hashes)) records))
