-- ===== src/Tap/Follows.antt =====
-- src/tap.rs: what `Reassembler` holds of one connection's stream, and the bytes that it pulls.
use hyperliquid_market_bench.Prelude.{
  ℕ, zero, suc, ◌+◌, ◌-◌, ◌%◌, ◌^◌, ◌≤◌, ◌<◌, ◌≡◌, sym, subst, List, [], ◌∷◌, ◌++◌, some, length,
  All, leb, ◌==◌, ◌||◌, Bool-cases, inl, inr, arith, get_elem?,
}
use hyperliquid_market_bench.Bytes.{At, drop}
use hyperliquid_market_bench.Tap.{
  Held, Reassembler, Delivery, bytes, reset, wrapping_add, seq_diff, is_negative,
}

pub At-join :
    (d : List ℕ) (i : ℕ) (xs ys : List ℕ) → At d i xs → At d (i + length xs) ys → At d i (xs ++ ys)
At-join d i [] ys a b = let e : i + 0 ≡ i = omega arith in subst (λ j. At d j ys) e b
At-join d i (x ∷ xs) ys a b =
    let e : i + suc (length xs) ≡ suc i + length xs = omega arith in
    (a.0, At-join d (suc i) xs ys a.1 (subst (λ j. At d j ys) e b))

pub At-drop : (d : List ℕ) (i n : ℕ) (xs : List ℕ) → At d i xs → At d (i + n) (drop n xs)
At-drop d i zero xs a = let e : i ≡ i + 0 = omega arith in subst (λ j. At d j xs) e a
At-drop d i (suc n) [] a = tt
At-drop d i (suc n) (x ∷ xs) a =
    let e : suc i + n ≡ i + suc n = omega arith in
    subst (λ j. At d j (drop n xs)) e (At-drop d (suc i) n xs a.1)

pub index_bound : (d : List ℕ) (i x : ℕ) → get_elem? d i ≡ some x → i < length d
index_bound [] i x e = absurd (ground arith)
index_bound (y ∷ d) zero x e = omega arith
index_bound (y ∷ d) (suc i) x e = let h = index_bound d i x e in omega arith

pub At-bound :
    (d : List ℕ) (i : ℕ) (xs : List ℕ) → i ≤ length d → At d i xs → i + length xs ≤ length d
At-bound d i [] h a = omega arith
At-bound d i (x ∷ xs) h a =
    let k = At-bound d (suc i) xs (let j = index_bound d i x a.0 in omega arith) a.1 in omega arith

pub At-bound_inside :
    (d : List ℕ) (i : ℕ) (xs : List ℕ) → 1 ≤ length xs → At d i xs → i + length xs ≤ length d
At-bound_inside d i [] l a = absurd (omega arith)
At-bound_inside d i (x ∷ xs) l a =
    let j = index_bound d i x a.0 in At-bound d i (x ∷ xs) (omega arith) a

pub length-drop : (n : ℕ) (xs : List ℕ) → length (drop n xs) ≡ length xs - n
length-drop zero xs = omega arith
length-drop (suc n) [] = omega arith
length-drop (suc n) (x ∷ xs) = let e = length-drop n xs in omega arith

pub seq_diff-ahead : (x y : ℕ) → y ≤ x → x - y < 2 ^ 32 → seq_diff (x % 2 ^ 32) (y % 2 ^ 32) ≡ x - y
seq_diff-ahead x y h k = omega arith

pub seq_diff-behind :
    (x y : ℕ) → x < y → y - x < 2 ^ 32 → seq_diff (x % 2 ^ 32) (y % 2 ^ 32) ≡ 2 ^ 32 - (y - x)
seq_diff-behind x y h k = omega arith

pub wrapping_add-word : (x n : ℕ) → wrapping_add (x % 2 ^ 32) n ≡ (x + n) % 2 ^ 32
wrapping_add-word x n = omega arith

-- The stream, and the sequence number of its first byte.
module _ (stream : List ℕ) (first : ℕ) where
  abbrev pub word : ℕ → ℕ
  word n = (first + n) % 2 ^ 32

  -- A segment's bytes stand at an offset of the stream, at most 2 GiB past another.
  abbrev pub Place : ℕ → ℕ → ℕ → List ℕ → Type 0
  Place n o seq payload =
      (seq ≡ word o)
      × (1 ≤ length payload)
      × (o + length payload ≤ n + 2 ^ 31)
      × At stream o payload

  abbrev pub IsKept : ℕ → (ℕ × Held) → Type 0
  IsKept n e = (o : ℕ) × (n ≤ o) × Place n o e.0 e.1.payload

  -- The bytes up to an offset are handed on; what is pending stands behind it.
  abbrev pub Follows : ℕ → Reassembler → Type 0
  Follows n r = (r.next ≡ some (word n)) × All (IsKept n) r.pending

  abbrev pub Delivers : ℕ → List Delivery → ℕ → Type 0
  Delivers n [] m = n ≡ m
  Delivers n (bytes content wall_ns ∷ out) m =
      At stream n content × Delivers (n + length content) out m
  Delivers n (reset reason ∷ out) m = (k : ℕ) × (n ≤ k) × (k ≤ length stream) × Delivers k out m

  pub Delivers-append :
      (n k m : ℕ) (xs ys : List Delivery)
      → Delivers n xs k
      → Delivers k ys m
      → Delivers n (xs ++ ys) m
  Delivers-append n k m [] ys a b = subst (λ i. Delivers i ys m) (sym a) b
  Delivers-append n k m (bytes content wall_ns ∷ xs) ys a b =
      (a.0, Delivers-append (n + length content) k m xs ys a.1 b)
  Delivers-append n k m (reset reason ∷ xs) ys a b =
      (a.0, a.1, a.2, Delivers-append a.0 k m xs ys a.3 b)

  -- The test of a pending segment against the next byte.
  pub is_due_lem :
      (b c o : ℕ)
      → b ≤ c
      → c ≤ b + 2 ^ 31
      → b ≤ o
      → o < b + 2 ^ 31
      → (seq_diff (word o) (word c) == 0 || is_negative (seq_diff (word o) (word c))) ≡ leb o c
  is_due_lem b c o h k l m = elim (Bool-cases (leb o c)) [
    | inl e ↦ elim (Bool-cases (o == c)) [
      | inl f ↦ ground (arith, seq_diff-ahead (first + o) (first + c) (ground arith) (ground arith))
      | inr f ↦
          ground (arith, seq_diff-behind (first + o) (first + c) (ground arith) (ground arith))
    ]
    | inr e ↦ ground (arith, seq_diff-ahead (first + o) (first + c) (ground arith) (ground arith))
  ]

  pub Delivers-bound :
      (n m : ℕ) (out : List Delivery) → n ≤ length stream → Delivers n out m → m ≤ length stream
  Delivers-bound n m [] h d = omega arith
  Delivers-bound n m (bytes content wall_ns ∷ out) h d =
      Delivers-bound (n + length content) m out (At-bound stream n content h d.0) d.1
  Delivers-bound n m (reset reason ∷ out) h d = Delivers-bound d.0 m out d.2 d.3
