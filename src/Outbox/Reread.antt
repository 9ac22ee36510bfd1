-- ===== src/Outbox/Reread.antt =====
-- src/axiom.rs: the name of a file that was written gives back its ordering key and its count.
use hyperliquid_market_bench.Prelude.{
  ℕ, zero, suc, ◌+◌, ◌-◌, ◌*◌, ◌/◌, ◌%◌, ◌^◌, ◌≤◌, ◌<◌, ◌≡◌, ◌∙◌, refl, ap, sym, List, [], ◌∷◌,
  ◌++◌, none, some, true, false, ltb, leb, le→leb, ◌==◌, length, length-append, All, All-append,
  Bool-cases, inl, inr, arith, ◌>>=◌,
}
use mathlib.Core.List.{append_assoc}
use hyperliquid_market_bench.Bytes.{take, drop}
use hyperliquid_market_bench.Outbox.{max_events_per_batch}
use hyperliquid_market_bench.Outbox.Delivery.{same_name_self}
use hyperliquid_market_bench.Outbox.Names.{
  padded, decimal, suffix, file_name, parse_digits, parse_u64, split_once, rsplit_or, rsplit_once,
  ends_with, strip_suffix, event_count_from_name, order_from_name,
}

abbrev IsDigit : ℕ → Type 0
IsDigit c = (b'0' ≤ c) × (c ≤ b'9')

padded-IsDigit : (width n : ℕ) → All IsDigit (padded width n)
unfolding padded
padded-IsDigit zero n = tt
padded-IsDigit (suc width) n =
    All-append IsDigit (padded width (n / 10)) _ (padded-IsDigit width (n / 10)) (omega arith)

decimal-IsDigit : (digits n : ℕ) → All IsDigit (decimal digits n)
unfolding decimal
decimal-IsDigit zero n = tt
decimal-IsDigit (suc digits) n = elim (Bool-cases (ltb n 10)) [
  | inl e ↦ rw e (ground arith)
  | inr e ↦ rw e (
      All-append IsDigit (decimal digits (n / 10)) _ (decimal-IsDigit digits (n / 10))
        (omega arith))
]

length-padded : (width n : ℕ) → length (padded width n) ≡ width
unfolding padded
length-padded zero n = refl
length-padded (suc width) n = omega (
  arith,
  length-append {0} (padded width (n / 10)) ((b'0' + n % 10) ∷ []),
  length-padded width (n / 10),
)

parse_digits-append :
    (xs ys : List ℕ) (value : ℕ)
    → parse_digits value (xs ++ ys) ≡ (parse_digits value xs >>= λ v. parse_digits v ys)
unfolding parse_digits
parse_digits-append [] ys value = refl
parse_digits-append (c ∷ xs) ys value =
    ground (arith, parse_digits-append xs ys (value * 10 + (c - b'0')))

last_digit : (n : ℕ) → n < 2 ^ 64 → parse_digits (n / 10) ((b'0' + n % 10) ∷ []) ≡ some n
unfolding parse_digits
last_digit n h = ground arith

parse_digits-padded :
    (width n : ℕ) → n < 2 ^ 64 → n < 10 ^ width → parse_digits 0 (padded width n) ≡ some n
unfolding padded parse_digits
parse_digits-padded zero n h k = ap some (omega arith)
parse_digits-padded (suc width) n h k =
    let front = parse_digits-padded width (n / 10) (omega arith) (omega arith) in
    parse_digits-append (padded width (n / 10)) ((b'0' + n % 10) ∷ []) 0
    ∙ ap (λ o. o >>= λ v. parse_digits v ((b'0' + n % 10) ∷ [])) front
    ∙ last_digit n h

parse_digits-decimal :
    (digits n : ℕ) → n < 2 ^ 64 → n < 10 ^ digits → parse_digits 0 (decimal digits n) ≡ some n
unfolding decimal parse_digits
parse_digits-decimal zero n h k = ap some (omega arith)
parse_digits-decimal (suc digits) n h k = elim (Bool-cases (ltb n 10)) [
  | inl e ↦ rw e (ground arith)
  | inr e ↦
      let front = parse_digits-decimal digits (n / 10) (omega arith) (omega arith) in
      rw e (
        parse_digits-append (decimal digits (n / 10)) ((b'0' + n % 10) ∷ []) 0
        ∙ ap (λ o. o >>= λ v. parse_digits v ((b'0' + n % 10) ∷ [])) front
        ∙ last_digit n h)
]

decimal_some : (digits n : ℕ) → 1 ≤ length (decimal (suc digits) n)
unfolding decimal
decimal_some digits n = elim (Bool-cases (ltb n 10)) [
  | inl e ↦ rw e (omega arith)
  | inr e ↦ rw e (omega (arith, length-append {0} (decimal digits (n / 10)) ((b'0' + n % 10) ∷ [])))
]

parse_u64-digits :
    (text : List ℕ) → All IsDigit text → 1 ≤ length text → parse_u64 text ≡ parse_digits 0 text
unfolding parse_u64
parse_u64-digits [] h k = absurd (omega arith)
parse_u64-digits (c ∷ []) h k =
    let plain : (c == b'+') ≡ false = ground (arith, h.0) in rw plain refl
parse_u64-digits (c ∷ d ∷ text) h k =
    let plain : (c == b'+') ≡ false = ground (arith, h.0) in rw plain refl

not_dash : (c : ℕ) → IsDigit c → (c == b'-') ≡ false
not_dash c h = ground arith

split_once-digits :
    (xs ys : List ℕ) → All IsDigit xs → split_once (xs ++ (b'-' ∷ ys)) ≡ some (xs, ys)
unfolding split_once
split_once-digits [] ys h = refl
split_once-digits (c ∷ xs) ys h = rw (not_dash c h.0, split_once-digits xs ys h.1) refl

rsplit_once-none : (ys : List ℕ) → All IsDigit ys → rsplit_once ys ≡ none
unfolding rsplit_once rsplit_or
rsplit_once-none [] h = refl
rsplit_once-none (c ∷ ys) h = rw (rsplit_once-none ys h.1, rsplit_or, not_dash c h.0) refl

rsplit_once-digits :
    (xs ys : List ℕ) → All IsDigit ys → rsplit_once (xs ++ (b'-' ∷ ys)) ≡ some (xs, ys)
unfolding rsplit_once rsplit_or
rsplit_once-digits [] ys h = rw (rsplit_once-none ys h) refl
rsplit_once-digits (c ∷ xs) ys h = rw (rsplit_once-digits xs ys h) refl

pub drop-append : (xs ys : List ℕ) → drop (length xs) (xs ++ ys) ≡ ys
drop-append [] ys = refl
drop-append (x ∷ xs) ys = drop-append xs ys

take-append : (xs ys : List ℕ) → take (length xs) (xs ++ ys) ≡ xs
take-append [] ys = refl
take-append (x ∷ xs) ys = ap (λ l. x ∷ l) (take-append xs ys)

strip_suffix-append : (xs end : List ℕ) → strip_suffix end (xs ++ end) ≡ some xs
unfolding strip_suffix ends_with
strip_suffix-append xs end =
    let n : length (xs ++ end) - length end ≡ length xs = omega (arith, length-append {0} xs end) in
    let long : leb (length end) (length (xs ++ end)) ≡ true =
      le→leb _ _ (omega (arith, length-append {0} xs end)) in
    rw (n, long, drop-append xs end, same_name_self end) (ap some (take-append xs end))

-- The name of a file, with any identifier, gives back the ordering key that is a 64-bit word, and
-- the count of events between 1 and 10000: a restart recovers what was written.
pub names-file_name :
    (order : ℕ) (id : List ℕ) (events : ℕ)
    → order < 2 ^ 64
    → 1 ≤ events
    → events ≤ max_events_per_batch
    → (order_from_name (file_name order id events) ≡ some order)
      × (event_count_from_name (file_name order id events) ≡ some events)
unfolding order_from_name event_count_from_name file_name
names-file_name order id events h k l = (found_order, found_count)
  where
    found_order : order_from_name (file_name order id events) ≡ some order
    found_order =
        let split =
          split_once-digits (padded 20 order) ((id ++ (b'-' ∷ decimal 20 events)) ++ suffix)
            (padded-IsDigit 20 order) in
        let name : (padded 20 order ++ (b'-' ∷ (id ++ (b'-' ∷ decimal 20 events)))) ++ suffix
            ≡ padded 20 order ++ (b'-' ∷ ((id ++ (b'-' ∷ decimal 20 events)) ++ suffix)) =
          append_assoc (padded 20 order) _ suffix in
        let twenty : (length (padded 20 order) == 20) ≡ true =
          ground (arith, length-padded 20 order) in
        rw (name, split, twenty)
          (parse_u64-digits (padded 20 order) (padded-IsDigit 20 order)
              (omega (arith, length-padded 20 order))
            ∙ parse_digits-padded 20 order h (omega arith))

    found_count : event_count_from_name (file_name order id events) ≡ some events
    found_count =
        let stem = padded 20 order ++ (b'-' ∷ (id ++ (b'-' ∷ decimal 20 events))) in
        let last : stem ≡ (padded 20 order ++ (b'-' ∷ id)) ++ (b'-' ∷ decimal 20 events) =
          sym (append_assoc (padded 20 order) (b'-' ∷ id) (b'-' ∷ decimal 20 events)) in
        let split =
          rsplit_once-digits (padded 20 order ++ (b'-' ∷ id)) (decimal 20 events)
            (decimal-IsDigit 20 events) in
        let value : parse_u64 (decimal 20 events) ≡ some events =
          parse_u64-digits (decimal 20 events) (decimal-IsDigit 20 events) (decimal_some 19 events)
          ∙ parse_digits-decimal 20 events (omega arith) (omega arith) in
        rw (strip_suffix-append stem suffix, last, split, value) (ground arith)
