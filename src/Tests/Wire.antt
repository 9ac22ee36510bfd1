-- ===== src/Tests/Wire.antt =====
-- Runs of the parsers of src/ordering.rs at concrete bytes.
use hyperliquid_market_bench.Prelude.{
  ℕ, zero, suc, ◌≡◌, ◌↔◌, refl, List, [], ◌∷◌, ◌++◌, some, All, Ensures, length, arith,
}
use hyperliquid_market_bench.Bytes.{le_bytes, le_at, is_byte, slice}
use hyperliquid_market_bench.Bytes.Words.{At-self}
use hyperliquid_market_bench.Hex.{Answers, strip_0x, parse_hex32, parse_hex32-Answers}
use hyperliquid_market_bench.Ordering.{
  read_varint, parse_tail, parse_slot, slot_start, copy_hashes, skip_varints, tailed_slot,
  read_hashes,
}
use hyperliquid_market_bench.Ordering.Records.{
  find_block_records, scan_block_records, scan_from, scan_at, marked_record,
}
use hyperliquid_market_bench.Ordering.Own.{find_block_records-IsBlock}
use hyperliquid_market_bench.Ordering.Sound.{IsBlock}
use hyperliquid_market_bench.Ordering.Varint.{Stands, four, varint, read_varint-Stands}
use hyperliquid_market_bench.Ordering.Layout.{tail_bytes, marked, marked_all, parse_tail-tail_bytes}

abbrev zero_bytes : ℕ → List ℕ
zero_bytes zero = []
zero_bytes (suc n) = 0 ∷ zero_bytes n

-- A record on the old layout: a proposer, round 100, one hash of zero_bytes.
abbrev old_frame : List ℕ
old_frame = zero_bytes 20 ++ (marked 100 ++ (1 ∷ zero_bytes 32))

old_frame_found :
    find_block_records old_frame 90 110
    ≡ some (record { proposer = zero_bytes 20; round = 100; tx_hashes = zero_bytes 32 ∷ [] } ∷ [])
unfolding find_block_records parse_slot slot_start scan_block_records scan_from scan_at
    marked_record copy_hashes read_varint slice le_at le_bytes is_byte skip_varints tailed_slot
    read_hashes parse_tail
old_frame_found = refl

find_block_records-IsBlock_example :
    Ensures (All (IsBlock 90 110)) (find_block_records old_frame 90 110)
find_block_records-IsBlock_example = find_block_records-IsBlock old_frame 90 110

abbrev word_of_300 : List ℕ
word_of_300 = 7 ∷ 0xfc ∷ 44 ∷ 1 ∷ 0 ∷ 0 ∷ []

read_varint-Stands_example :
    (read_varint word_of_300 1 ≡ some (300, 6)) ↔ Stands word_of_300 1 300 6
read_varint-Stands_example = read_varint-Stands word_of_300 1 300 6 (omega arith)

-- A record that follows two timed-out rounds.
abbrev timed_out_tail : List ℕ
timed_out_tail = tail_bytes 5 four 70 (91 ∷ 92 ∷ []) (3 ∷ []) 60 90

parse_tail-tail_bytes_example :
    parse_tail timed_out_tail 0
    ≡ some (record { activation = 60; round = 93; end = length timed_out_tail })
unfolding le_bytes varint marked_all
parse_tail-tail_bytes_example =
    parse_tail-tail_bytes timed_out_tail 0 5 four 70 (91 ∷ 92 ∷ []) (3 ∷ []) 60 90 (omega arith)
      (omega arith) (omega arith) (omega arith) (omega arith) (omega arith) (omega arith)
      (omega arith) (At-self timed_out_tail)

-- A value written without its leading zero_bytes.
parse_hex32-Answers_example :
    Answers
      (strip_0x (b'0' ∷ b'x' ∷ b'a' ∷ b'1' ∷ b'c' ∷ []))
      (parse_hex32 (b'0' ∷ b'x' ∷ b'a' ∷ b'1' ∷ b'c' ∷ []))
parse_hex32-Answers_example = parse_hex32-Answers (b'0' ∷ b'x' ∷ b'a' ∷ b'1' ∷ b'c' ∷ [])
