-- ===== src/Bytes.antt =====
-- Slices of bytes, as the parsers of src/ordering.rs, src/peering.rs and src/tap.rs read them: a
-- byte is a number, an index a native number. `get` is `slice.get(i)`.
pub mod Laws
pub mod Words
use hyperliquid_market_bench.Prelude.{
  ℕ, zero, suc, ◌+◌, ◌-◌, ◌*◌, ◌/◌, ◌%◌, ◌^◌, ◌≡◌, ◌≤◌, ◌<◌, List, [], ◌∷◌, Option, none, some,
  Bool, true, false, ◌&&◌, if◌then◌else◌, ltb, leb, ◌==◌, length, get_elem?, ◌>>=◌,
}

module _ {ℓ} {A : Type ℓ} where
  abbrev pub take : ℕ → List A → List A
  take zero xs = []
  take (suc n) [] = []
  take (suc n) (x ∷ xs) = x ∷ take n xs

  abbrev pub drop : ℕ → List A → List A
  drop zero xs = xs
  drop (suc n) [] = []
  drop (suc n) (x ∷ xs) = drop n xs

  -- `payload.get(from..to)`; the index `payload[from..to]` panics where this is none.
  unfoldable pub slice : List A → ℕ → ℕ → Option (List A)
  slice xs from to =
      if leb from to && leb to (length xs) then some (take (to - from) (drop from xs)) else none

-- `from_le_bytes` of the bytes at an index, each read by `get(..)?`.
unfoldable pub le_at : ℕ → List ℕ → ℕ → Option ℕ
le_at zero bytes i = some 0
le_at (suc width) bytes i = do
  low ← get_elem? bytes i
  high ← le_at width bytes (suc i)
  some (low + 256 * high)

-- `from_be_bytes`, with what stands before.
unfoldable pub be_from : ℕ → ℕ → List ℕ → ℕ → Option ℕ
be_from zero before bytes i = some before
be_from (suc width) before bytes i = do
  low ← get_elem? bytes i
  be_from width (256 * before + low) bytes (suc i)

abbrev pub be_at : ℕ → List ℕ → ℕ → Option ℕ
be_at width bytes i = be_from width 0 bytes i

-- `payload.get(i) == Some(&byte)`.
unfoldable pub is_byte : List ℕ → ℕ → ℕ → Bool
is_byte bytes i byte = elim (get_elem? bytes i) [ none ↦ false | some b ↦ b == byte ]

-- `checked_add` of two usize on a 64-bit machine.
abbrev pub checked_add : ℕ → ℕ → Option ℕ
checked_add a b = if ltb (a + b) (2 ^ 64) then some (a + b) else none

abbrev pub IsByte : ℕ → Type 0
IsByte b = b < 256

-- The bytes from an index on start with the given ones.
abbrev pub At : List ℕ → ℕ → List ℕ → Type 0
At bytes i [] = Unit {0}
At bytes i (x ∷ xs) = (get_elem? bytes i ≡ some x) × At bytes (suc i) xs

-- `to_le_bytes` of a word of some bytes.
unfoldable pub le_bytes : ℕ → ℕ → List ℕ
le_bytes zero v = []
le_bytes (suc width) v = (v % 256) ∷ le_bytes width (v / 256)
