-- ===== src/Rank/Summary.antt =====
-- src/benchmark.rs: `distribution` reports the percentiles 50, 95 and 99, the minimum and the
-- maximum of the values, in this order.
use hyperliquid_market_bench.Prelude.{
  ℕ, ◌-◌, ◌*◌, ◌≤◌, ◌<◌, ◌≡◌, refl, List, [], ◌∷◌, Option, none, some, ◌>>=◌, length, get_elem?,
  arith, Ensures,
}
use hyperliquid_market_bench.Rank.{sort, nearest_rank, Distribution, summary, distribution}
use hyperliquid_market_bench.Rank.Empirical.{
  IsQuantile, count_le, count_lt, nearest_rank-IsQuantile, get_elem?_total, get_elem?-counts,
  sort-IsSorted, length-sort, count_le-sort, count_lt-sort,
}

count_le-count_lt : (v w : ℕ) (xs : List ℕ) → v < w → count_le v xs ≤ count_lt w xs
count_le-count_lt v w [] h = omega arith
count_le-count_lt v w (x ∷ xs) h = ground (arith, count_le-count_lt v w xs h)

-- A higher percentile is not smaller.
IsQuantile-le :
    (p q : ℕ) (xs : List ℕ) (v w : ℕ)
    → p * length xs ≤ q * length xs
    → IsQuantile p xs v
    → IsQuantile q xs w
    → v ≤ w
IsQuantile-le p q xs v w h a b =
    ground (arith, count_le-count_lt w v xs, a.enough, a.least, b.enough, b.least)

-- The entries of a distribution: exact percentiles in order, and a value that none is below and
-- one that none is above.
pub record Describes (values : List ℕ) (d : Distribution) : Type 0 where
  pub p50 : IsQuantile 50 values d.p50
  pub p95 : IsQuantile 95 values d.p95
  pub p99 : IsQuantile 99 values d.p99
  pub ordered : (d.p50 ≤ d.p95) × (d.p95 ≤ d.p99)
  pub min_least : count_lt d.min values ≡ 0
  pub min_value : 0 < count_le d.min values
  pub max_value : count_lt d.max values < length values
  pub max_greatest : length values ≤ count_le d.max values

summary-eq :
    (xs : List ℕ) (a b c l g : ℕ)
    → nearest_rank xs 50 ≡ some a
    → nearest_rank xs 95 ≡ some b
    → nearest_rank xs 99 ≡ some c
    → get_elem? xs 0 ≡ some l
    → get_elem? xs (length xs - 1) ≡ some g
    → summary xs ≡ some (record { p50 = a; p95 = b; p99 = c; min = l; max = g })
unfolding summary
summary-eq xs a b c l g ha hb hc hl hg = rw (ha, hb, hc, hl, hg, ◌>>=◌) refl

extremes :
    (values : List ℕ)
    → 0 < length values
    → (l g : ℕ) × (get_elem? (sort values) 0 ≡ some l)
      × (get_elem? (sort values) (length (sort values) - 1) ≡ some g)
      × (count_lt l values ≡ 0)
      × (0 < count_le l values)
      × (count_lt g values < length values)
      × (length values ≤ count_le g values)
extremes values n =
    let size = length-sort values in
    let low = get_elem?_total (sort values) 0 (omega arith) in
    let high = get_elem?_total (sort values) (length (sort values) - 1) (omega arith) in
    let low_counts = get_elem?-counts (sort values) 0 low.0 (sort-IsSorted values) low.1 in
    let high_counts =
      get_elem?-counts (sort values) (length (sort values) - 1) high.0 (sort-IsSorted values)
        high.1 in
    (
      low.0,
      high.0,
      low.1,
      high.1,
      omega (arith, count_lt-sort low.0 values),
      omega (arith, count_le-sort low.0 values),
      omega (arith, count_lt-sort high.0 values),
      omega (arith, count_le-sort high.0 values),
    )

summary-Describes :
    (values : List ℕ)
    → 0 < length values
    → (s : Distribution) × (summary (sort values) ≡ some s) × Describes values s
summary-Describes values n =
    let a = nearest_rank-IsQuantile values 50 n (omega arith) (omega arith) in
    let b = nearest_rank-IsQuantile values 95 n (omega arith) (omega arith) in
    let c = nearest_rank-IsQuantile values 99 n (omega arith) (omega arith) in
    let ends = extremes values n in
    (
      _,
      summary-eq (sort values) a.0 b.0 c.0 ends.0 ends.1 a.1 b.1 c.1 ends.2 ends.3,
      record {
        p50 = a.2;
        p95 = b.2;
        p99 = c.2;
        ordered = (
          IsQuantile-le 50 95 values a.0 b.0 (omega arith) a.2 b.2,
          IsQuantile-le 95 99 values b.0 c.0 (omega arith) b.2 c.2,
        );
        min_least = ends.4;
        min_value = ends.5;
        max_value = ends.6;
        max_greatest = ends.7;
      },
    )

-- What `distribution` answers: nothing for no values, and else a distribution that describes them.
abbrev pub Answers : List ℕ → Option Distribution → Type 0
Answers [] d = d ≡ none
Answers (x ∷ xs) d = (s : Distribution) × (d ≡ some s) × Describes (x ∷ xs) s

distribution-Ensures :
    (x : ℕ) (xs : List ℕ) (s : Distribution)
    → summary (sort (x ∷ xs)) ≡ some s
    → Describes (x ∷ xs) s
    → Ensures (Answers (x ∷ xs)) (distribution (x ∷ xs))
unfolding distribution
distribution-Ensures x xs s e d = rw (e, ◌>>=◌) (s, refl, d)

-- `distribution` does not panic. Of no values it answers none; of values it answers the exact
-- nearest-rank percentiles 50, 95 and 99 in this order, a least value and a greatest value.
pub distribution-Answers : (values : List ℕ) → Ensures (Answers values) (distribution values)
unfolding distribution
distribution-Answers [] = refl
distribution-Answers (x ∷ xs) =
    let found = summary-Describes (x ∷ xs) (omega arith) in
    distribution-Ensures x xs found.0 found.1 found.2
