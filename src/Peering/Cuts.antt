-- ===== src/Peering/Cuts.antt =====
-- src/peering.rs: where the reads cut the stream makes no difference to its frames.
use hyperliquid_market_bench.Prelude.{
  ℕ, zero, suc, ◌+◌, ◌-◌, ◌*◌, ◌≤◌, ◌<◌, ◌≡◌, ◌≢◌, fun_ext, refl, ap, sym, List, [], ◌∷◌, ◌++◌,
  Option, some, false, ltb, le→leb, length, length-append, get_elem?, ◌>>=◌, Bool-cases,
  Option-cases, inl, inr, arith, Ensures, Ensures->>=, Ensures-if, subst,
}
use hyperliquid_market_bench.Bytes.{slice, take, drop, be_from, be_at}
use hyperliquid_market_bench.Bytes.Laws.{index-Ensures}
use hyperliquid_market_bench.Peering.Frames.{
  Consumed, consumed, Head, partial, oversize, whole, frame_head, consume_head, consume_frame,
  consume_from, max_frame_body,
}

module _ {ℓ} {A : Type ℓ} where
  get-append : (xs ys : List A) (i : ℕ) → i < length xs → get_elem? (xs ++ ys) i ≡ get_elem? xs i
  get-append [] ys i h = absurd (omega arith)
  get-append (x ∷ xs) ys zero h = refl
  get-append (x ∷ xs) ys (suc i) h = get-append xs ys i (omega arith)

  pub drop-append : (n : ℕ) (xs ys : List A) → n ≤ length xs → drop n (xs ++ ys) ≡ drop n xs ++ ys
  drop-append zero xs ys h = refl
  drop-append (suc n) [] ys h = absurd (omega arith)
  drop-append (suc n) (x ∷ xs) ys h = drop-append n xs ys (omega arith)

  take-append : (n : ℕ) (xs ys : List A) → n ≤ length xs → take n (xs ++ ys) ≡ take n xs
  take-append zero xs ys h = refl
  take-append (suc n) [] ys h = absurd (omega arith)
  take-append (suc n) (x ∷ xs) ys h = ap (λ l. x ∷ l) (take-append n xs ys (omega arith))

  pub length-drop : (n : ℕ) (xs : List A) → n ≤ length xs → length (drop n xs) + n ≡ length xs
  length-drop zero xs h = omega arith
  length-drop (suc n) [] h = absurd (omega arith)
  length-drop (suc n) (x ∷ xs) h = omega (arith, length-drop n xs)

  slice-append :
      (from to : ℕ) (xs ys : List A)
      → from ≤ to
      → to ≤ length xs
      → slice (xs ++ ys) from to ≡ slice xs from to
  unfolding slice
  slice-append from to xs ys h k =
      let e1 = drop-append from xs ys (omega arith) in
      let e2 = take-append (to - from) (drop from xs) ys (omega (arith, length-drop from xs)) in
      rw
        (
          le→leb from to h,
          le→leb to (length xs) k,
          le→leb to (length (xs ++ ys)) (omega (arith, length-append {ℓ} xs ys)),
          e1,
          e2,
        )
        refl

be_from-append :
    (width before : ℕ) (xs ys : List ℕ) (i : ℕ)
    → i + width ≤ length xs
    → be_from width before (xs ++ ys) i ≡ be_from width before xs i
unfolding be_from
be_from-append zero before xs ys i h = refl
be_from-append (suc width) before xs ys i h = elim (Option-cases (get_elem? xs i)) [
  | inl e ↦ rw (get-append xs ys i (omega arith), e) refl
  | inr (x, e) ↦
      rw (get-append xs ys i (omega arith), e)
        (be_from-append width (256 * before + x) xs ys (suc i) (omega arith))
]

be_from-Ensures :
    (width before : ℕ) (xs : List ℕ) (i : ℕ)
    → i + width ≤ length xs
    → Ensures (λ v. Unit {0}) (be_from width before xs i)
unfolding be_from
be_from-Ensures zero before xs i h = tt
be_from-Ensures (suc width) before xs i h =
    Ensures->>= (λ x. Unit {0}) (λ v. Unit {0}) (get_elem? xs i) _
      (index-Ensures xs i (omega arith))
      λ low t. be_from-Ensures width (256 * before + low) xs (suc i) (omega arith)

abbrev pub IsHead : List ℕ → Head → Type 0
IsHead buf partial = Unit {0}
IsHead buf oversize = Unit {0}
IsHead buf (whole total) = (5 ≤ total) × (total ≤ length buf)

pub frame_head-IsHead : (buf : List ℕ) → Ensures (IsHead buf) (frame_head buf)
unfolding frame_head
frame_head-IsHead buf =
    Ensures-if (IsHead buf) (ltb (length buf) 5) (some partial) _ (λ x. tt)
      λ long.
        Ensures->>= (λ x. Unit {0}) (IsHead buf) (be_at 4 buf 0) _
          (be_from-Ensures 4 0 buf 0 (ground arith))
          λ n t.
            Ensures-if (IsHead buf) (ltb max_frame_body n) (some oversize) _ (λ x. tt)
              λ fits.
                Ensures-if (IsHead buf) (ltb (length buf) (5 + n)) (some partial)
                  (some (whole (5 + n))) (λ x. tt) (λ x. (omega arith, ground arith))

-- More bytes do not change a head that is not partial.
pub frame_head-append :
    (buf more : List ℕ) (head : Head)
    → frame_head buf ≡ some head
    → head ≢ partial
    → frame_head (buf ++ more) ≡ some head
unfolding frame_head
frame_head-append buf more head h n = elim (Bool-cases (ltb (length buf) 5)) [
  | inl e ↦ absurd (ground arith)
  | inr e ↦
      let same = be_from-append 4 0 buf more 0 (ground arith) in
      let longer : ltb (length (buf ++ more)) 5 ≡ false =
        ground (arith, length-append {0} buf more) in
      rw (longer, same)
        (elim (Option-cases (be_at 4 buf 0)) [
          | inl f ↦ absurd (ground arith)
          | inr (len, f) ↦ rw f (ground (arith, length-append {0} buf more))
        ])
]

module _ {ℓ} {S : Type ℓ} (handle : ℕ → List ℕ → S → Option S) where
  pub consume_frame-append :
      (buf more : List ℕ) (total : ℕ) (s : S)
      → 5 ≤ total
      → total ≤ length buf
      → consume_frame handle (buf ++ more) total s ≡ consume_frame handle buf total s
  unfolding consume_frame
  consume_frame-append buf more total s h k =
      rw (get-append buf more 4 (omega arith), slice-append 5 total buf more h k) refl

  fuel_irrelevant :
      (f g : ℕ) (buf : List ℕ) (s : S)
      → length buf < f
      → length buf < g
      → consume_from handle f buf s ≡ consume_from handle g buf s
  unfolding consume_from consume_head
  fuel_irrelevant zero g buf s h k = absurd (omega arith)
  fuel_irrelevant (suc f) zero buf s h k = absurd (omega arith)
  fuel_irrelevant (suc f) (suc g) buf s h k = elim (Option-cases (frame_head buf)) [
    | inl e ↦ rw e refl
    | inr (partial, e) ↦ rw e refl
    | inr (oversize, e) ↦ rw e refl
    | inr (whole total, e) ↦
        let i = subst (Ensures (IsHead buf)) e (frame_head-IsHead buf) in
        rw e (
          ap (λ (k : S → Option (Consumed S)). consume_frame handle buf total s >>= k)
            (fun_ext (λ t.
              fuel_irrelevant f g (drop total buf) t (omega (arith, i, length-drop total buf))
                (omega (arith, i, length-drop total buf)))))
  ]

  pub consume_from-append :
      (f g k : ℕ) (a b rest : List ℕ) (s t : S)
      → length a < f
      → length (a ++ b) < g
      → length (rest ++ b) < k
      → consume_from handle f a s ≡ some (consumed t rest)
      → consume_from handle g (a ++ b) s ≡ consume_from handle k (rest ++ b) t
  unfolding consume_from consume_head
  consume_from-append zero g k a b rest s t hf hg hk h = absurd (omega arith)
  consume_from-append (suc f) zero k a b rest s t hf hg hk h = absurd (omega arith)
  consume_from-append (suc f) (suc g) k a b rest s t hf hg hk h =
      elim (Option-cases (frame_head a)) [
        | inl e ↦ absurd (ground arith)
        | inr (partial, e) ↦
            let same : (s ≡ t) × (a ≡ rest) = ground arith in
            subst
              (λ (x : S).
                consume_from handle (suc g) (a ++ b) s ≡ consume_from handle k (rest ++ b) x)
              same.0
              (subst
                (λ (x : List ℕ).
                  consume_from handle (suc g) (a ++ b) s ≡ consume_from handle k (x ++ b) s)
                same.1
                (fuel_irrelevant (suc g) k (a ++ b) s hg
                  (subst (λ (x : List ℕ). length (x ++ b) < k) (sym same.1) hk)))
        | inr (oversize, e) ↦ absurd (ground arith)
        | inr (whole total, e) ↦
            let i = subst (Ensures (IsHead a)) e (frame_head-IsHead a) in
            elim (Option-cases (consume_frame handle a total s)) [
              | inl q ↦ absurd (ground arith)
              | inr (u, q) ↦
                  let h' : consume_from handle f (drop total a) u ≡ some (consumed t rest) =
                    ground arith in
                  rw
                    (
                      frame_head-append a b (whole total) e (λ p. cc),
                      consume_frame-append a b total s i.0 i.1,
                      q,
                      drop-append total a b i.1,
                    )
                    (consume_from-append f g k (drop total a) b rest u t
                      (omega (arith, i, length-drop total a))
                      (omega (
                        arith,
                        i,
                        length-drop total a,
                        length-append {0} a b,
                        length-append {0} (drop total a) b,
                      ))
                      hk h')
            ]
      ]
