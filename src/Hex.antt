-- ===== src/Hex.antt =====
-- src/peering.rs: `parse_hex32`, which reads a 32-byte value written as hex, with or without `0x`
-- and with its leading zeros left out. A text is the list of its bytes.
use hyperliquid_market_bench.Prelude.{
  ℕ, zero, suc, ◌+◌, ◌-◌, ◌*◌, ◌≤◌, ◌<◌, ◌≡◌, ◌∙◌, refl, ap, sym, List, [], ◌∷◌, ◌++◌, Option, none,
  some, Bool, true, false, ◌&&◌, ◌||◌, not, if◌then◌else◌, if_elim, ltb, leb, ◌==◌, length,
  length-append, all, ◌>>=◌, Bool-cases, inl, inr, ◌⊎◌, arith, subst, Ensures, Ensures->>=,
  Ensures-some,
}

unfoldable pub is_hexdigit : ℕ → Bool
is_hexdigit c =
    (leb b'0' c && leb c b'9') || (leb b'a' c && leb c b'f') || (leb b'A' c && leb c b'F')

unfoldable pub digit_value : ℕ → ℕ
digit_value c = if leb b'a' c then c - b'a' + 10 else if leb b'A' c then c - b'A' + 10 else c - b'0'

-- `strip_prefix("0x")`, or the text itself.
unfoldable pub strip_0x : List ℕ → List ℕ
strip_0x [] = []
strip_0x (a ∷ []) = a ∷ []
strip_0x (a ∷ b ∷ text) = if a == b'0' && b == b'x' then text else a ∷ b ∷ text

unfoldable pub zeros : ℕ → List ℕ
zeros zero = []
zeros (suc n) = b'0' ∷ zeros n

-- `from_str_radix(.., 16)` of two digits.
abbrev pub hex_byte : ℕ → ℕ → Option ℕ
hex_byte a b =
    if is_hexdigit a && is_hexdigit b then some (16 * digit_value a + digit_value b) else none

-- The first bytes of a text of digits.
unfoldable pub hex_bytes : ℕ → List ℕ → Option (List ℕ)
hex_bytes zero text = some []
hex_bytes (suc n) [] = none
hex_bytes (suc n) (a ∷ []) = none
hex_bytes (suc n) (a ∷ b ∷ text) = do
  byte ← hex_byte a b
  bytes ← hex_bytes n text
  some (byte ∷ bytes)

unfoldable pub parse_hex32 : List ℕ → Option (List ℕ)
parse_hex32 text =
    let hex = strip_0x text in
    if length hex == 0 || ltb 64 (length hex) || not (all is_hexdigit hex)
    then none
    else hex_bytes 32 (zeros (64 - length hex) ++ hex)

-- What digits and bytes stand for, with what stands before them.
unfoldable pub hex_value : ℕ → List ℕ → ℕ
hex_value before [] = before
hex_value before (c ∷ text) = hex_value (16 * before + digit_value c) text

unfoldable pub bytes_value : ℕ → List ℕ → ℕ
bytes_value before [] = before
bytes_value before (b ∷ bytes) = bytes_value (256 * before + b) bytes

hex_value-zeros : (n : ℕ) (text : List ℕ) → hex_value 0 (zeros n ++ text) ≡ hex_value 0 text
unfolding hex_value zeros digit_value
hex_value-zeros zero text = refl
hex_value-zeros (suc n) text = hex_value-zeros n text

length-zeros : (n : ℕ) → length (zeros n) ≡ n
unfolding zeros
length-zeros zero = refl
length-zeros (suc n) = ap suc (length-zeros n)

all-zeros :
    (n : ℕ) (text : List ℕ) → all is_hexdigit text ≡ true → all is_hexdigit (zeros n ++ text) ≡ true
unfolding zeros is_hexdigit
all-zeros zero text h = h
all-zeros (suc n) text h = all-zeros n text h

-- A value of 32 bytes that has the digits' number.
abbrev pub Reads : ℕ → ℕ → ℕ → List ℕ → Type 0
Reads n before value bytes = (length bytes ≡ n) × (bytes_value before bytes ≡ value)

hex_bytes-Reads :
    (n before : ℕ) (text : List ℕ)
    → length text ≡ 2 * n
    → all is_hexdigit text ≡ true
    → Ensures (Reads n before (hex_value before text)) (hex_bytes n text)
unfolding hex_bytes hex_value bytes_value
hex_bytes-Reads zero before [] h k = (refl, refl)
hex_bytes-Reads zero before (a ∷ text) h k = absurd (omega arith)
hex_bytes-Reads (suc n) before [] h k = absurd (omega arith)
hex_bytes-Reads (suc n) before (a ∷ []) h k = absurd (omega arith)
hex_bytes-Reads (suc n) before (a ∷ b ∷ text) h k =
    let digits : (is_hexdigit a && is_hexdigit b) ≡ true = ground arith in
    let rest : all is_hexdigit text ≡ true = ground arith in
    let byte = 16 * digit_value a + digit_value b in
    let value = hex_value (16 * (16 * before + digit_value a) + digit_value b) text in
    let there : 256 * before + byte ≡ 16 * (16 * before + digit_value a) + digit_value b =
      omega arith in
    rw digits (
      Ensures->>= (Reads n (256 * before + byte) value) (Reads (suc n) before value)
        (hex_bytes n text) _
        (subst
          (λ (x : ℕ). Ensures (Reads n (256 * before + byte) (hex_value x text)) (hex_bytes n text))
          there (hex_bytes-Reads n (256 * before + byte) text (omega arith) rest))
        (λ bytes r. (ap suc r.0, r.1)))

-- What is answered for the digits of a text.
abbrev pub Answers : List ℕ → Option (List ℕ) → Type 0
Answers hex none = ((length hex ≡ 0) ⊎ (64 < length hex)) ⊎ (all is_hexdigit hex ≡ false)
Answers hex (some bytes) =
    (1 ≤ length hex)
    × (length hex ≤ 64)
    × (all is_hexdigit hex ≡ true)
    × Reads 32 0 (hex_value 0 hex) bytes

refused :
    (hex : List ℕ)
    → (length hex == 0 || ltb 64 (length hex) || not (all is_hexdigit hex)) ≡ true
    → Answers hex none
refused hex e = elim (Bool-cases (length hex == 0)) [
  | inl z ↦ inl (inl (ground arith))
  | inr z ↦ elim (Bool-cases (ltb 64 (length hex))) [
    | inl l ↦ inl (inr (ground arith))
    | inr l ↦ inr (ground arith)
  ]
]

-- A text is refused where it is empty, longer than 64 digits, or no text of hex digits, behind an
-- optional `0x`; else it reads as the 32 bytes that have, highest byte first, its digits' number.
pub parse_hex32-Answers : (text : List ℕ) → Answers (strip_0x text) (parse_hex32 text)
unfolding parse_hex32
parse_hex32-Answers text =
    let hex = strip_0x text in
    if_elim (Answers hex) (length hex == 0 || ltb 64 (length hex) || not (all is_hexdigit hex)) none
      _ (refused hex)
      λ e.
        let some_digits : 1 ≤ length hex = ground arith in
        let few : length hex ≤ 64 = ground arith in
        let digits : all is_hexdigit hex ≡ true = ground arith in
        let padded = zeros (64 - length hex) ++ hex in
        let width : length padded ≡ 2 * 32 = omega (
          arith,
          length-append {0} (zeros (64 - length hex)) hex,
          length-zeros (64 - length hex),
        ) in
        let r =
          Ensures-some (Reads 32 0 (hex_value 0 padded)) (hex_bytes 32 padded)
            (hex_bytes-Reads 32 0 padded width (all-zeros (64 - length hex) hex digits)) in
        subst (Answers hex) (sym r.1)
          (some_digits, few, digits, (r.2.0, r.2.1 ∙ hex_value-zeros (64 - length hex) hex))
