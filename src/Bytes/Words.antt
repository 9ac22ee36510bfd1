-- ===== src/Bytes/Words.antt =====
-- Little-endian words: what is written is read, and what is read stood there.
use hyperliquid_market_bench.Prelude.{
  ℕ, zero, suc, ◌+◌, ◌*◌, ◌/◌, ◌^◌, ◌<◌, ◌≡◌, refl, ap, List, [], ◌∷◌, ◌++◌, some, length, All,
  get_elem?, Option-cases, inl, inr, subst, arith, true,
}
use hyperliquid_market_bench.Bytes.{is_byte, le_at, le_bytes, At, IsByte}

pub At-append :
    (d : List ℕ) (i : ℕ) (xs ys : List ℕ) → At d i (xs ++ ys) → At d i xs × At d (i + length xs) ys
At-append d i [] ys h = (tt, subst (λ k. At d k ys) (omega arith) h)
At-append d i (x ∷ xs) ys h =
    let r = At-append d (suc i) xs ys h.1 in ((h.0, r.0), subst (λ k. At d k ys) (omega arith) r.1)

pub length-le_bytes : (width v : ℕ) → length (le_bytes width v) ≡ width
unfolding le_bytes
length-le_bytes zero v = refl
length-le_bytes (suc width) v = ap suc (length-le_bytes width (v / 256))

pub le_at-le_bytes :
    (width v : ℕ) (d : List ℕ) (i : ℕ)
    → v < 256 ^ width
    → At d i (le_bytes width v)
    → le_at width d i ≡ some v
unfolding le_at le_bytes
le_at-le_bytes zero v d i h a = ap some (omega arith)
le_at-le_bytes (suc width) v d i h a =
    rw (a.0, le_at-le_bytes width (v / 256) d (suc i) (omega arith) a.1) (ap some (omega arith))

pub get_elem?-IsByte : (d : List ℕ) (i b : ℕ) → All IsByte d → get_elem? d i ≡ some b → IsByte b
get_elem?-IsByte [] i b h e = cc
get_elem?-IsByte (x ∷ d) zero b h e = ground (arith, h.0)
get_elem?-IsByte (x ∷ d) (suc i) b h e = get_elem?-IsByte d i b h.1 e

-- A word that is read stands there, and fits its width.
pub le_bytes-le_at :
    (width v : ℕ) (d : List ℕ) (i : ℕ)
    → All IsByte d
    → le_at width d i ≡ some v
    → (v < 256 ^ width) × At d i (le_bytes width v)
unfolding le_at le_bytes
le_bytes-le_at zero v d i h e = (ground arith, tt)
le_bytes-le_at (suc width) v d i h e = elim (Option-cases (get_elem? d i)) [
  | inl n ↦ absurd (ground arith)
  | inr (low, l) ↦ elim (Option-cases (le_at width d (suc i))) [
    | inl n ↦ absurd (ground arith)
    | inr (high, r) ↦
        let b = get_elem?-IsByte d i low h l in
        let rest = le_bytes-le_at width high d (suc i) h r in
        let v_eq : v ≡ low + 256 * high = ground arith in
        let d_eq : v / 256 ≡ high = omega (arith, v_eq, b) in
        (omega (arith, v_eq, b, rest.0), (rw l (ap some (omega (arith, v_eq, b))), rw d_eq rest.1))
  ]
]

-- The same behind a byte.
pub le_at-behind :
    (width v : ℕ) (d : List ℕ) (i : ℕ)
    → v < 256 ^ width
    → At d (suc i) (le_bytes width v)
    → le_at width d (i + 1) ≡ some v
le_at-behind width v d i h a =
    subst (λ k. le_at width d k ≡ some v) (omega arith) (le_at-le_bytes width v d (suc i) h a)

pub is_byte_at : (d : List ℕ) (i b : ℕ) → get_elem? d i ≡ some b → is_byte d i b ≡ true
unfolding is_byte
is_byte_at d i b e = rw (e, is_byte) (ground arith)

At-cons : (x : ℕ) (d : List ℕ) (i : ℕ) (ys : List ℕ) → At d i ys → At (x ∷ d) (suc i) ys
At-cons x d i [] a = tt
At-cons x d i (y ∷ ys) a = (a.0, At-cons x d (suc i) ys a.1)

pub At-self : (d : List ℕ) → At d 0 d
At-self [] = tt
At-self (x ∷ d) = (refl, At-cons x d 0 d (At-self d))
