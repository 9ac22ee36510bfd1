-- ===== src/Bytes/Laws.antt =====
-- What a slice and a little-endian number are, at an index into a longer text of bytes.
use hyperliquid_market_bench.Prelude.{
  bind-Ensures, ◌*◌, ℕ, zero, suc, ◌+◌, ◌-◌, ◌≤◌, ◌<◌, ◌≡◌, refl, List, [], ◌∷◌, length, get_elem?,
  Ensures, Ensures->>=, Yields, ap, arith, leb, le→leb, Bool-cases, inl, inr, ◌&&◌,
}
use hyperliquid_market_bench.Bytes.{be_from, take, drop, slice, le_at}

module _ {ℓ} {A : Type ℓ} where
  pub length-take-drop :
      (n i : ℕ) (xs : List A) → i + n ≤ length xs → length (take n (drop i xs)) ≡ n
  length-take-drop zero i xs h = refl
  length-take-drop (suc n) zero [] h = absurd (omega arith)
  length-take-drop (suc n) zero (x ∷ xs) h = ap suc (length-take-drop n zero xs (omega arith))
  length-take-drop (suc n) (suc i) [] h = absurd (omega arith)
  length-take-drop (suc n) (suc i) (x ∷ xs) h = length-take-drop (suc n) i xs (omega arith)

  -- A slice within the bounds is there, and has the length of its range.
  pub slice-length :
      (xs : List A) (from to : ℕ)
      → from ≤ to
      → to ≤ length xs
      → Ensures (λ s. length s ≡ to - from) (slice xs from to)
  unfolding slice
  slice-length xs from to h k =
      rw (le→leb from to h, le→leb to (length xs) k)
        (length-take-drop (to - from) from xs (omega arith))

  -- A slice that is there has the length of its range.
  pub slice-Yields :
      (xs : List A) (from to : ℕ) → Yields (λ s. length s ≡ to - from) (slice xs from to)
  unfolding slice
  slice-Yields xs from to = elim (Bool-cases (leb from to && leb to (length xs))) [
    | inl e ↦ rw e (length-take-drop (to - from) from xs (ground arith))
    | inr e ↦ rw e tt
  ]

  pub index-Ensures :
      (xs : List A) (i : ℕ) → i < length xs → Ensures (λ x. Unit {0}) (get_elem? xs i)
  index-Ensures [] i h = absurd (omega arith)
  index-Ensures (x ∷ xs) zero h = tt
  index-Ensures (x ∷ xs) (suc i) h = index-Ensures xs i (omega arith)

pub le_at-Ensures :
    (width : ℕ) (bytes : List ℕ) (i : ℕ)
    → i + width ≤ length bytes
    → Ensures (λ v. Unit {0}) (le_at width bytes i)
unfolding le_at
le_at-Ensures zero bytes i h = tt
le_at-Ensures (suc width) bytes i h =
    Ensures->>= (λ x. Unit {0}) (λ v. Unit {0}) (get_elem? bytes i) _
      (index-Ensures bytes i (omega arith))
      λ low q.
        Ensures->>= (λ x. Unit {0}) (λ v. Unit {0}) (le_at width bytes (suc i)) _
          (le_at-Ensures width bytes (suc i) (omega arith)) (λ high r. tt)

pub be_from-Ensures :
    (width before : ℕ) (d : List ℕ) (i : ℕ)
    → i + width ≤ length d
    → Ensures (λ v. Unit {0}) (be_from width before d i)
unfolding be_from
be_from-Ensures zero before d i h = tt
be_from-Ensures (suc width) before d i h =
    bind-Ensures (λ x. Unit {0}) (λ v. Unit {0}) (get_elem? d i) _ (index-Ensures d i (omega arith))
      λ low e u. be_from-Ensures width (256 * before + low) d (suc i) (omega arith)
