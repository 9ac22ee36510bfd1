-- ===== src/Rank/Empirical.antt =====
-- src/benchmark.rs: the reported percentiles are the exact empirical nearest-rank quantiles.
use mathlib.Core.Option.{some-injective}
use hyperliquid_market_bench.Prelude.{
  ℕ, zero, suc, ◌+◌, ◌-◌, ◌*◌, ◌≤◌, ◌<◌, ◌≡◌, refl, ap, subst, max, List, [], ◌∷◌, some,
  if◌then◌else◌, leb, ltb, length, get_elem?, All, Bool-cases, inl, inr, arith, All-mono,
}
use hyperliquid_market_bench.Rank.{insert_sorted, sort, div_ceil_100, nearest_rank}

-- How many of the values are at most `v`, and how many are below it.
abbrev pub count_le : ℕ → List ℕ → ℕ
count_le v [] = 0
count_le v (x ∷ xs) = if leb x v then count_le v xs + 1 else count_le v xs

abbrev pub count_lt : ℕ → List ℕ → ℕ
count_lt v [] = 0
count_lt v (x ∷ xs) = if ltb x v then count_lt v xs + 1 else count_lt v xs

abbrev pub IsSorted : List ℕ → Type 0
IsSorted [] = Unit
IsSorted (x ∷ xs) = All (λ y. x ≤ y) xs × IsSorted xs

count_le-insert_sorted :
    (v x : ℕ) (xs : List ℕ) → count_le v (insert_sorted x xs) ≡ count_le v (x ∷ xs)
unfolding insert_sorted
count_le-insert_sorted v x [] = refl
count_le-insert_sorted v x (y ∷ ys) = ground (arith, count_le-insert_sorted v x ys)

count_lt-insert_sorted :
    (v x : ℕ) (xs : List ℕ) → count_lt v (insert_sorted x xs) ≡ count_lt v (x ∷ xs)
unfolding insert_sorted
count_lt-insert_sorted v x [] = refl
count_lt-insert_sorted v x (y ∷ ys) = ground (arith, count_lt-insert_sorted v x ys)

length-insert_sorted : (x : ℕ) (xs : List ℕ) → length (insert_sorted x xs) ≡ length xs + 1
unfolding insert_sorted
length-insert_sorted x [] = omega arith
length-insert_sorted x (y ∷ ys) = ground (arith, length-insert_sorted x ys)

All-insert_sorted :
    (t x : ℕ) (xs : List ℕ) → t ≤ x → All (λ y. t ≤ y) xs → All (λ y. t ≤ y) (insert_sorted x xs)
unfolding insert_sorted
All-insert_sorted t x [] h a = (h, tt)
All-insert_sorted t x (y ∷ ys) h a = elim (Bool-cases (leb x y)) [
  | inl e ↦ rw e (h, a)
  | inr e ↦ rw e (a.0, All-insert_sorted t x ys h a.1)
]

insert_sorted-IsSorted : (x : ℕ) (xs : List ℕ) → IsSorted xs → IsSorted (insert_sorted x xs)
unfolding insert_sorted
insert_sorted-IsSorted x [] s = (tt, tt)
insert_sorted-IsSorted x (y ∷ ys) s = elim (Bool-cases (leb x y)) [
  | inl e ↦
      rw e ((ground arith, All-mono (λ z. y ≤ z) (λ z. x ≤ z) (λ z q. ground arith) ys s.0), s)
  | inr e ↦ rw e (All-insert_sorted y x ys (ground arith) s.0, insert_sorted-IsSorted x ys s.1)
]

pub sort-IsSorted : (xs : List ℕ) → IsSorted (sort xs)
unfolding sort
sort-IsSorted [] = tt
sort-IsSorted (x ∷ xs) = insert_sorted-IsSorted x (sort xs) (sort-IsSorted xs)

pub count_le-sort : (v : ℕ) (xs : List ℕ) → count_le v (sort xs) ≡ count_le v xs
unfolding sort
count_le-sort v [] = refl
count_le-sort v (x ∷ xs) = ground (arith, count_le-insert_sorted v x (sort xs), count_le-sort v xs)

pub count_lt-sort : (v : ℕ) (xs : List ℕ) → count_lt v (sort xs) ≡ count_lt v xs
unfolding sort
count_lt-sort v [] = refl
count_lt-sort v (x ∷ xs) = ground (arith, count_lt-insert_sorted v x (sort xs), count_lt-sort v xs)

pub length-sort : (xs : List ℕ) → length (sort xs) ≡ length xs
unfolding sort
length-sort [] = refl
length-sort (x ∷ xs) = omega (arith, length-insert_sorted x (sort xs), length-sort xs)

count_lt_of_All : (v : ℕ) (xs : List ℕ) → All (λ y. v ≤ y) xs → count_lt v xs ≡ 0
count_lt_of_All v [] a = refl
count_lt_of_All v (x ∷ xs) a = ground (arith, count_lt_of_All v xs a.1)

All-get_elem? :
    (t : ℕ) (xs : List ℕ) (i v : ℕ) → All (λ y. t ≤ y) xs → get_elem? xs i ≡ some v → t ≤ v
All-get_elem? t [] i v a e = absurd (cc)
All-get_elem? t (x ∷ xs) zero v a e = omega (arith, a.0, some-injective x v e)
All-get_elem? t (x ∷ xs) (suc i) v a e = All-get_elem? t xs i v a.1 e

-- In a sorted list the entry at `i` has at least `i + 1` values up to it and at most `i` below it.
pub get_elem?-counts :
    (xs : List ℕ) (i v : ℕ)
    → IsSorted xs
    → get_elem? xs i ≡ some v
    → (i + 1 ≤ count_le v xs) × (count_lt v xs ≤ i)
get_elem?-counts [] i v s e = absurd (cc)
get_elem?-counts (x ∷ xs) zero v s e =
    subst (λ w. (1 ≤ count_le w (x ∷ xs)) × (count_lt w (x ∷ xs) ≤ 0)) (some-injective x v e)
      (ground (arith, count_lt_of_All x xs s.0))
get_elem?-counts (x ∷ xs) (suc i) v s e =
    let rest = get_elem?-counts xs i v s.1 e in
    let first = All-get_elem? x xs i v s.0 e in ground (arith, rest, first)

pub get_elem?_total : (xs : List ℕ) (i : ℕ) → i < length xs → (v : ℕ) × (get_elem? xs i ≡ some v)
get_elem?_total [] i h = absurd (omega arith)
get_elem?_total (x ∷ xs) zero h = (x, refl)
get_elem?_total (x ∷ xs) (suc i) h = get_elem?_total xs i (omega arith)

-- `v` is the nearest-rank percentile `p` of `n` values: at least `p` percent of them are at most
-- `v`, and fewer than `p` percent are below it.
pub record IsQuantile (p : ℕ) (values : List ℕ) (v : ℕ) : Type 0 where
  pub enough : p * length values ≤ 100 * count_le v values
  pub least : 100 * count_lt v values < p * length values

product_bounds : (p n : ℕ) → 1 ≤ p → p ≤ 100 → (n ≤ p * n) × (p * n ≤ 100 * n)
product_bounds p zero l h = omega arith
product_bounds p (suc n) l h = omega (arith, product_bounds p n l h)

-- The index of a nearest rank lies in the list.
rank_lt : (p n : ℕ) → 1 ≤ p → p ≤ 100 → 0 < n → max (div_ceil_100 (p * n)) 1 - 1 < n
rank_lt p n l h k = let bounds = product_bounds p n l h in omega (arith, bounds.1)

rank-bounds :
    (m a b i : ℕ)
    → 1 ≤ m
    → i ≡ max (div_ceil_100 m) 1 - 1
    → i + 1 ≤ a
    → b ≤ i
    → (m ≤ 100 * a) × (100 * b < m)
rank-bounds m a b i k e ha hb = omega arith

sort-IsQuantile :
    (p : ℕ) (values : List ℕ) (v : ℕ) → IsQuantile p (sort values) v → IsQuantile p values v
sort-IsQuantile p values v q =
    let size = ap (λ n. p * n) (length-sort values) in
    record {
      enough = omega (arith, size, count_le-sort v values, q.enough);
      least = omega (arith, size, count_lt-sort v values, q.least);
    }

IsQuantile-sorted :
    (values : List ℕ) (p : ℕ)
    → IsSorted values
    → 0 < length values
    → 1 ≤ p
    → p ≤ 100
    → (v : ℕ) × (nearest_rank values p ≡ some v) × IsQuantile p values v
unfolding nearest_rank
IsQuantile-sorted values p s n l h =
    let i = max (div_ceil_100 (p * length values)) 1 - 1 in
    let found = get_elem?_total values i (rank_lt p (length values) l h n) in
    let counts = get_elem?-counts values i found.0 s found.1 in
    let bounds = product_bounds p (length values) l h in
    let tight =
      rank-bounds (p * length values) (count_le found.0 values) (count_lt found.0 values) i
        (omega arith) refl counts.0 counts.1 in
    (found.0, found.1, record { enough = tight.0; least = tight.1 })

-- The code's percentile `p`, taken of the sorted values, does not panic, and it is their exact
-- nearest-rank percentile, if there is a value and `p` is from 1 to 100.
pub nearest_rank-IsQuantile :
    (values : List ℕ) (p : ℕ)
    → 0 < length values
    → 1 ≤ p
    → p ≤ 100
    → (v : ℕ) × (nearest_rank (sort values) p ≡ some v) × IsQuantile p values v
nearest_rank-IsQuantile values p n l h =
    let found =
      IsQuantile-sorted (sort values) p (sort-IsSorted values) (omega (arith, length-sort values)) l
        h in
    (found.0, found.1, sort-IsQuantile p values found.0 found.2)
