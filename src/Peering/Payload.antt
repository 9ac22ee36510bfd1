-- ===== src/Peering/Payload.antt =====
-- src/peering.rs: the first signature of a bundle's payload, and the numbers of its header.
use hyperliquid_market_bench.Prelude.{
  ℕ, zero, suc, ◌+◌, ◌-◌, ◌%◌, min, List, Option, none, some, ◌&&◌, ◌||◌, if◌then◌else◌, ltb, leb,
  ◌==◌, length, get_elem?, ◌>>=◌,
}
use hyperliquid_market_bench.Bytes.{slice, le_at, be_at, checked_add}

unfoldable pub read_bincode_varint : List ℕ → ℕ → Option (ℕ × ℕ)
read_bincode_varint bytes i = do
  tag ← get_elem? bytes i
  if leb tag 0xfa
      then some (tag, i + 1)
      else if tag == 0xfb
      then (le_at 2 bytes (i + 1) >>= λ v. some (v, i + 3))
      else if tag == 0xfc
      then (le_at 4 bytes (i + 1) >>= λ v. some (v, i + 5))
      else if tag == 0xfd
      then (le_at 8 bytes (i + 1) >>= λ v. some (v, i + 9))
      else none

unfoldable pub read_msgpack_uint : List ℕ → ℕ → Option (ℕ × ℕ)
read_msgpack_uint bytes i = do
  tag ← get_elem? bytes i
  if leb tag 0x7f
      then some (tag, i + 1)
      else if tag == 0xcc
      then (be_at 1 bytes (i + 1) >>= λ v. some (v, i + 2))
      else if tag == 0xcd
      then (be_at 2 bytes (i + 1) >>= λ v. some (v, i + 3))
      else if tag == 0xce
      then (be_at 4 bytes (i + 1) >>= λ v. some (v, i + 5))
      else if tag == 0xcf
      then (be_at 8 bytes (i + 1) >>= λ v. some (v, i + 9))
      else none

-- The count of an array's header, and the index behind it.
unfoldable pub array_header : List ℕ → ℕ → Option (ℕ × ℕ)
array_header payload anchor = do
  tag ← get_elem? payload anchor
  if leb 0x90 tag && leb tag 0x9f
      then some (tag % 16, anchor + 1)
      else if tag == 0xdc
      then (be_at 2 payload (anchor + 1) >>= λ n. some (n, anchor + 3))
      else if tag == 0xdd
      then (be_at 4 payload (anchor + 1) >>= λ n. some (n, anchor + 5))
      else none

-- The sum of `count` lengths, and the index behind them.
unfoldable pub sum_lengths : ℕ → List ℕ → ℕ → ℕ → Option (ℕ × ℕ)
sum_lengths zero payload pos sum = some (sum, pos)
sum_lengths (suc count) payload pos sum = do
  (len, next) ← read_msgpack_uint payload pos
  if leb 1 len && leb len 200000
      then (checked_add sum len >>= λ total. sum_lengths count payload next total)
      else none

unfoldable pub validate_length_index : List ℕ → ℕ → Option ℕ
validate_length_index payload anchor = do
  (count, start) ← array_header payload anchor
  if leb 1 count && leb count 100000
      then (do
        (sum, pos) ← sum_lengths count payload start 0
        total ← checked_add pos sum
        if ltb (length payload) total || ltb 256 (length payload - total) then none else some pos)
      else none

-- The search for an index, over `left` anchors.
unfoldable pub find_record : ℕ → List ℕ → ℕ → Option (List ℕ)
find_record zero payload anchor = none
find_record (suc left) payload anchor = elim (validate_length_index payload anchor) [
  | none ↦ find_record left payload (anchor + 1)
  | some record_start ↦ slice payload record_start (record_start + 32)
]

unfoldable pub bundle_first_sig : List ℕ → Option (List ℕ)
bundle_first_sig payload = do
  (size, body_start) ← read_bincode_varint payload 1
  find_record (min (body_start + 16) (length payload) - body_start) payload body_start
