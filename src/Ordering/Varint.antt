-- ===== src/Ordering/Varint.antt =====
-- src/ordering.rs: `read_varint` against the format that its comment gives.
use hyperliquid_market_bench.Prelude.{
  ℕ, suc, ◌+◌, ◌^◌, ◌<◌, ◌≡◌, ◌↔◌, ap, List, [], ◌∷◌, none, some, length, All, get_elem?,
  Option-cases, Bool-cases, inl, inr, ◌>>=◌, subst, ◌==◌, arith,
}
use hyperliquid_market_bench.Bytes.{le_at, le_bytes, At, IsByte}
use hyperliquid_market_bench.Bytes.Words.{
  le_at-behind, le_bytes-le_at, length-le_bytes, get_elem?-IsByte,
}
use hyperliquid_market_bench.Ordering.{read_varint}

-- A number in one byte, or a marker and a word of 2, 4 or 8 bytes.
pub data Width : Type 0 where
  one two four eight : Width

abbrev pub word : Width → ℕ
word one = 0
word two = 2
word four = 4
word eight = 8

abbrev pub marker : Width → ℕ
marker one = 0
marker two = 0xfb
marker four = 0xfc
marker eight = 0xfd

unfoldable pub varint : Width → ℕ → List ℕ
varint one v = v ∷ []
varint two v = 0xfb ∷ le_bytes 2 v
varint four v = 0xfc ∷ le_bytes 4 v
varint eight v = 0xfd ∷ le_bytes 8 v

abbrev pub Fits : Width → ℕ → Type 0
Fits one v = v < 0xfb
Fits two v = v < 256 ^ 2
Fits four v = v < 256 ^ 4
Fits eight v = v < 256 ^ 8

pub read_varint-varint :
    (w : Width) (v : ℕ) (d : List ℕ) (i : ℕ)
    → Fits w v
    → At d i (varint w v)
    → read_varint d i ≡ some (v, i + length (varint w v))
unfolding read_varint varint
read_varint-varint one v d i f a = rw a.0 (ground arith)
read_varint-varint two v d i f a =
    rw (a.0, le_at-behind 2 v d i f a.1) (ground (arith, length-le_bytes 2 v))
read_varint-varint four v d i f a =
    rw (a.0, le_at-behind 4 v d i f a.1) (ground (arith, length-le_bytes 4 v))
read_varint-varint eight v d i f a =
    rw (a.0, le_at-behind 8 v d i f a.1) (ground (arith, length-le_bytes 8 v))

-- A number stands at an index, written in one of the four widths.
abbrev pub Stands : List ℕ → ℕ → ℕ → ℕ → Type 0
Stands d i v j = (w : Width) × Fits w v × At d i (varint w v) × (j ≡ i + length (varint w v))

module _ (d : List ℕ) (i v j : ℕ) (bytes : All IsByte d) where
  Stands-word :
      (width n : ℕ)
      → ◌>>=◌ {B = ℕ × ℕ} (le_at width d (i + 1)) (λ x. some (x, i + n)) ≡ some (v, j)
      → (v < 256 ^ width) × At d (suc i) (le_bytes width v) × (j ≡ i + n)
  Stands-word width n e = elim (Option-cases (le_at width d (i + 1))) [
    | inl q ↦ absurd (ground arith)
    | inr (x, q) ↦
        let same : (x ≡ v) × (j ≡ i + n) = ground arith in
        let r = le_bytes-le_at width x d (i + 1) bytes q in
        let at_v = subst (λ k. (k < 256 ^ width) × At d (i + 1) (le_bytes width k)) same.0 r in
        (at_v.0, subst (λ k. At d k (le_bytes width v)) (omega arith) at_v.1, same.1)
  ]

  Stands-marked : (m : ℕ) → get_elem? d i ≡ some m → read_varint d i ≡ some (v, j) → Stands d i v j
  unfolding read_varint varint
  Stands-marked m g e = elim (Bool-cases (m == 0xfb)) [
    | inl x ↦
        let r = Stands-word 2 3 (ground arith) in
        (two, r.0, (rw g (ap some (ground arith)), r.1), ground (arith, r.2, length-le_bytes 2 v))
    | inr x ↦ elim (Bool-cases (m == 0xfc)) [
      | inl y ↦
          let r = Stands-word 4 5 (ground arith) in
          (
            four,
            r.0,
            (rw g (ap some (ground arith)), r.1),
            ground (arith, r.2, length-le_bytes 4 v),
          )
      | inr y ↦ elim (Bool-cases (m == 0xfd)) [
        | inl z ↦
            let r = Stands-word 8 9 (ground arith) in
            (
              eight,
              r.0,
              (rw g (ap some (ground arith)), r.1),
              ground (arith, r.2, length-le_bytes 8 v),
            )
        | inr z ↦
            let b = get_elem?-IsByte d i m bytes g in
            (one, ground arith, (rw g (ap some (ground arith)), tt), ground arith)
      ]
    ]
  ]

none_read : (d : List ℕ) (i v j : ℕ) → get_elem? d i ≡ none → read_varint d i ≡ some (v, j) → ⊥
unfolding read_varint
none_read d i v j n e = ground arith

-- On bytes a number is read exactly where it stands in one byte below 251, or behind a marker in
-- a word of 2, 4 or 8 bytes, and the reader stops behind it.
pub read_varint-Stands :
    (d : List ℕ) (i v j : ℕ) → All IsByte d → (read_varint d i ≡ some (v, j)) ↔ Stands d i v j
read_varint-Stands d i v j bytes = (decoded, encoded)
  where
    encoded : Stands d i v j → read_varint d i ≡ some (v, j)
    encoded (w, f, a, e) = rw e (read_varint-varint w v d i f a)

    decoded : read_varint d i ≡ some (v, j) → Stands d i v j
    decoded e = elim (Option-cases (get_elem? d i)) [
      | inl n ↦ absurd (none_read d i v j n e)
      | inr (m, g) ↦ Stands-marked d i v j bytes m g e
    ]
