-- ===== src/Outbox/Names.antt =====
-- src/axiom.rs: the names of the outbox's files, as lists of bytes. `{order:020}-{id}-{events}`
-- with the suffix is written, and its two numbers are read back at the next start.
use hyperliquid_market_bench.Prelude.{
  ℕ, zero, suc, ◌+◌, ◌-◌, ◌*◌, ◌/◌, ◌%◌, ◌^◌, List, [], ◌∷◌, ◌++◌, Option, none, some, Bool, ◌&&◌,
  if◌then◌else◌, ltb, leb, ◌==◌, length, ◌>>=◌,
}
use hyperliquid_market_bench.Bytes.{take, drop}
use hyperliquid_market_bench.Outbox.{same_name, max_events_per_batch}

-- `{n:0width}`, for a number of at most that many digits.
unfoldable pub padded : ℕ → ℕ → List ℕ
padded zero n = []
padded (suc width) n = padded width (n / 10) ++ ((b'0' + n % 10) ∷ [])

-- `{n}`, with the digits that are left.
unfoldable pub decimal : ℕ → ℕ → List ℕ
decimal zero n = []
decimal (suc digits) n =
    let front = decimal digits (n / 10) in
    if ltb n 10 then (b'0' + n) ∷ [] else front ++ ((b'0' + n % 10) ∷ [])

abbrev pub suffix : List ℕ
suffix = b'.' ∷ b'n' ∷ b'd' ∷ b'j' ∷ b's' ∷ b'o' ∷ b'n' ∷ []

unfoldable pub file_name : ℕ → List ℕ → ℕ → List ℕ
file_name order id events =
    (padded 20 order ++ (b'-' ∷ (id ++ (b'-' ∷ decimal 20 events)))) ++ suffix

-- The digits of `parse::<u64>()`, from a value; none where it overflows.
unfoldable pub parse_digits : ℕ → List ℕ → Option ℕ
parse_digits value [] = some value
parse_digits value (c ∷ text) =
    let rest = parse_digits (value * 10 + (c - b'0')) text in
    if leb b'0' c && leb c b'9' && ltb (value * 10 + (c - b'0')) (2 ^ 64) then rest else none

-- `parse::<u64>()`: an optional plus, and one digit at least.
unfoldable pub parse_u64 : List ℕ → Option ℕ
parse_u64 [] = none
parse_u64 (c ∷ []) = if c == b'+' then none else parse_digits 0 (c ∷ [])
parse_u64 (c ∷ d ∷ text) =
    if c == b'+' then parse_digits 0 (d ∷ text) else parse_digits 0 (c ∷ d ∷ text)

-- What stands before and behind the first dash, and the last.
unfoldable pub split_once : List ℕ → Option (List ℕ × List ℕ)
split_once [] = none
split_once (c ∷ text) =
    let rest = split_once text in
    if c == b'-' then some ([], text) else (rest >>= λ p. some (c ∷ p.0, p.1))

unfoldable pub rsplit_or : ℕ → List ℕ → Option (List ℕ × List ℕ) → Option (List ℕ × List ℕ)
rsplit_or c text none = if c == b'-' then some ([], text) else none
rsplit_or c text (some (before, behind)) = some (c ∷ before, behind)

unfoldable pub rsplit_once : List ℕ → Option (List ℕ × List ℕ)
rsplit_once [] = none
rsplit_once (c ∷ text) = rsplit_or c text (rsplit_once text)

unfoldable pub ends_with : List ℕ → List ℕ → Bool
ends_with end text =
    leb (length end) (length text) && same_name (drop (length text - length end) text) end

unfoldable pub strip_suffix : List ℕ → List ℕ → Option (List ℕ)
strip_suffix end text =
    if ends_with end text then some (take (length text - length end) text) else none

unfoldable pub event_count_from_name : List ℕ → Option ℕ
event_count_from_name name = do
  stem ← strip_suffix suffix name
  parts ← rsplit_once stem
  count ← parse_u64 parts.1
  if ltb 0 count && leb count max_events_per_batch then some count else none

unfoldable pub order_from_name : List ℕ → Option ℕ
order_from_name name = do
  parts ← split_once name
  if length parts.0 == 20 then parse_u64 parts.0 else none
