-- ===== src/Ordering.antt =====
-- src/ordering.rs: the records of an ordering payload. A parser's `None` is none. An index into a
-- slice is below 2 ^ 63, so that `count as usize` and the sums of indices do not wrap.
pub mod Records
pub mod Hashes
pub mod Sound
pub mod Own
pub mod Varint
pub mod Layout
use hyperliquid_market_bench.Prelude.{
  ℕ, zero, suc, ◌+◌, ◌-◌, ◌*◌, ◌%◌, ◌^◌, ◌≤◌, ◌<◌, max, List, [], ◌∷◌, Option, none, some, Bool,
  true, false, ◌&&◌, ◌||◌, not, if◌then◌else◌, ltb, leb, ◌==◌, length, get_elem?, ◌>>=◌,
}
use hyperliquid_market_bench.Bytes.{slice, le_at, is_byte, checked_add}

-- `v as u8` and the bytes behind it.
unfoldable pub read_varint : List ℕ → ℕ → Option (ℕ × ℕ)
read_varint d i = do
  m ← get_elem? d i
  if m == 0xfb
      then (le_at 2 d (i + 1) >>= λ v. some (v, i + 3))
      else if m == 0xfc
      then (le_at 4 d (i + 1) >>= λ v. some (v, i + 5))
      else if m == 0xfd
      then (le_at 8 d (i + 1) >>= λ v. some (v, i + 9))
      else if m == 0xfe || m == 0xff
      then none
      else some (m, i + 1)

pub record BlockHeader : Type 0 where
  pub proposer : List ℕ
  pub round : ℕ
  pub tx_hashes : List (List ℕ)

-- `count` varints in a row are skipped.
unfoldable pub skip_varints : ℕ → List ℕ → ℕ → Option ℕ
skip_varints zero payload p = some p
skip_varints (suc count) payload p = do
  (value, next) ← read_varint payload p
  skip_varints count payload next

unfoldable pub slot_start : List ℕ → Option ℕ
slot_start payload = if is_byte payload 0 0x00 then skip_varints 9 payload 1 else none

abbrev pub tail_tc_max : ℕ
tail_tc_max = 8

abbrev pub record_tail_max : ℕ
record_tail_max = 5 + 9 + 1 + 5 * tail_tc_max + 4 + 5 + 5

pub record Tail : Type 0 where
  pub activation : ℕ
  pub round : ℕ
  pub end : ℕ

-- The rounds of `count` certificates from an index on, and the index behind them.
unfoldable pub timeout_rounds : ℕ → List ℕ → ℕ → Option (List ℕ × ℕ)
timeout_rounds zero payload k = some ([], k)
timeout_rounds (suc count) payload k = do
  first ← get_elem? payload k
  if first == 0xfc
      then (do
        round ← le_at 4 payload (k + 1)
        (rounds, after) ← timeout_rounds count payload (k + 5)
        some (round ∷ rounds, after))
      else none

unfoldable pub certificates : List ℕ → ℕ → Option (ℕ × ℕ) → Option (List ℕ × ℕ)
certificates payload j none = some ([], j)
certificates payload j (some (count, k)) =
    if leb 1 count && leb count tail_tc_max && is_byte payload k 0xfc
    then timeout_rounds count payload k
    else some ([], j)

-- The index behind at most `left` small bytes.
unfoldable pub skip_smalls : ℕ → List ℕ → ℕ → Option ℕ
skip_smalls zero payload j = get_elem? payload j >>= λ b. some j
skip_smalls (suc left) payload j =
    let more = skip_smalls left payload (j + 1) in
    get_elem? payload j >>= λ b. if ltb b 0xfb then more else some j

-- `iter().max().unwrap_or(parent)`.
abbrev pub max_or : ℕ → List ℕ → ℕ
max_or parent [] = parent
max_or parent (r ∷ []) = r
max_or parent (r ∷ s ∷ rounds) = max r (max_or parent (s ∷ rounds))

abbrev pub wrapping_succ : ℕ → ℕ
wrapping_succ round = (round + 1) % 2 ^ 32

unfoldable pub parse_tail : List ℕ → ℕ → Option Tail
parse_tail payload at = do
  first ← get_elem? payload at
  if first == 0xfc
      then (do
        (value, second_end) ← read_varint payload (at + 5)
        (rounds, j) ← certificates payload second_end (read_varint payload second_end)
        k ← skip_smalls 4 payload j
        if not (k == j) && is_byte payload k 0xfc && is_byte payload (k + 5) 0xfc
            then (do
              activation ← le_at 4 payload (k + 1)
              qc_parent ← le_at 4 payload (k + 6)
              some (record {
                activation = activation;
                round = wrapping_succ (max_or qc_parent rounds);
                end = k + 10;
              }))
            else none)
      else none

pub record Slot : Type 0 where
  pub header : BlockHeader
  pub legacy : Bool
  pub activation : ℕ
  pub end : ℕ

abbrev pub max_bundle_hashes : ℕ
max_bundle_hashes = 1024

-- The loop that copies `payload[k..k + 32]`; an index out of range, where it would panic, is none.
unfoldable pub copy_hashes : ℕ → List ℕ → ℕ → Option (List (List ℕ))
copy_hashes zero payload k = some []
copy_hashes (suc count) payload k = do
  hash ← slice payload k (k + 32)
  rest ← copy_hashes count payload (k + 32)
  some (hash ∷ rest)

unfoldable pub read_hashes : List ℕ → ℕ → ℕ → Option (List (List ℕ))
read_hashes payload k count =
    if leb count max_bundle_hashes
    then (checked_add k (count * 32) >>= λ end.
        if leb end (length payload) then copy_hashes count payload k else none)
    else none

unfoldable pub legacy_slot : List ℕ → List ℕ → ℕ → Option Slot
legacy_slot payload proposer at = do
  round ← le_at 4 payload (at + 1)
  (count, k) ← read_varint payload (at + 5)
  tx_hashes ← read_hashes payload k count
  some (record {
    header = record { proposer = proposer; round = round; tx_hashes = tx_hashes };
    legacy = true;
    activation = 0;
    end = k + length tx_hashes * 32;
  })

unfoldable pub tailed_slot : List ℕ → List ℕ → ℕ → Option Slot
tailed_slot payload proposer at = do
  (count, k) ← read_varint payload at
  tx_hashes ← read_hashes payload k count
  tail ← parse_tail payload (k + length tx_hashes * 32)
  some (record {
    header = record { proposer = proposer; round = tail.round; tx_hashes = tx_hashes };
    legacy = false;
    activation = tail.activation;
    end = tail.end;
  })

unfoldable pub parse_slot : List ℕ → Option Slot
parse_slot payload = do
  p ← slot_start payload
  proposer_end ← checked_add p 20
  proposer ← slice payload p proposer_end
  marker ← get_elem? payload proposer_end
  if marker == 0xfc
      then legacy_slot payload proposer proposer_end
      else tailed_slot payload proposer proposer_end
