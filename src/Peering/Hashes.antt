-- ===== src/Peering/Hashes.antt =====
-- src/peering.rs: two lists of hashes are equal once sorted just where one permutes the other.
use mathlib.Core.List.{Permᴰ}
use mathlib.Core.List.Permᴰ
use hyperliquid_market_bench.Prelude.{
  ◌≡◌, refl, sym, ap, ◌∙◌, subst, ◌↔◌, List, [], ◌∷◌, true, false, if_elim, arith, Bool-cases, inl,
  inr,
}
use hyperliquid_market_bench.Peering.{Sig}
use hyperliquid_market_bench.Peering.Decoded.{lex_le, insert_hash, sort_hashes}

pub lex_le-total : (xs ys : Sig) → lex_le xs ys ≡ false → lex_le ys xs ≡ true
unfolding lex_le
lex_le-total [] ys e = absurd (ground arith)
lex_le-total (x ∷ xs) [] e = refl
lex_le-total (x ∷ xs) (y ∷ ys) e = ground (arith, lex_le-total xs ys)

pub lex_le-antisym : (xs ys : Sig) → lex_le xs ys ≡ true → lex_le ys xs ≡ true → xs ≡ ys
unfolding lex_le
lex_le-antisym [] [] e f = refl
lex_le-antisym [] (y ∷ ys) e f = absurd (ground arith)
lex_le-antisym (x ∷ xs) [] e f = absurd (ground arith)
lex_le-antisym (x ∷ xs) (y ∷ ys) e f =
    let same : x ≡ y = ground arith in
    let a : lex_le xs ys ≡ true = ground arith in
    let b : lex_le ys xs ≡ true = ground arith in let rest = lex_le-antisym xs ys a b in cc

pub lex_le_trans :
    (xs ys zs : Sig) → lex_le xs ys ≡ true → lex_le ys zs ≡ true → lex_le xs zs ≡ true
unfolding lex_le
lex_le_trans [] ys zs e f = refl
lex_le_trans (x ∷ xs) [] zs e f = absurd (ground arith)
lex_le_trans (x ∷ xs) (y ∷ ys) [] e f = absurd (ground arith)
lex_le_trans (x ∷ xs) (y ∷ ys) (z ∷ zs) e f = ground (arith, lex_le_trans xs ys zs)

-- Insertions commute.
pub insert_hash_comm :
    (x y : Sig) (zs : List Sig)
    → insert_hash x (insert_hash y zs) ≡ insert_hash y (insert_hash x zs)
unfolding insert_hash
insert_hash_comm x y [] = elim (Bool-cases (lex_le x y)) [
  | inl e ↦ elim (Bool-cases (lex_le y x)) [
    | inl f ↦ (let g = lex_le-antisym x y e f in cc)
    | inr f ↦ rw (e, f) refl
  ]
  | inr e ↦ (let f = lex_le-total x y e in rw (e, f) refl)
]
insert_hash_comm x y (z ∷ zs) = elim (Bool-cases (lex_le y z)) [
  | inl e ↦ elim (Bool-cases (lex_le x z)) [
    | inl f ↦ elim (Bool-cases (lex_le x y)) [
      | inl g ↦ elim (Bool-cases (lex_le y x)) [
        | inl h ↦
            (let k = lex_le-antisym x y g h in
              subst
                (λ w.
                  insert_hash x (insert_hash w (z ∷ zs)) ≡ insert_hash w (insert_hash x (z ∷ zs)))
                k refl)
        | inr h ↦ rw (e, f, g, h, e) refl
      ]
      | inr g ↦ (let h = lex_le-total x y g in rw (e, f, g, h) refl)
    ]
    | inr f ↦ elim (Bool-cases (lex_le x y)) [
      | inl g ↦ (let h = lex_le_trans x y z g e in absurd (ground arith))
      | inr g ↦ rw (e, f, g, e) refl
    ]
  ]
  | inr e ↦ elim (Bool-cases (lex_le x z)) [
    | inl f ↦ elim (Bool-cases (lex_le y x)) [
      | inl g ↦ (let h = lex_le_trans y x z g f in absurd (ground arith))
      | inr g ↦ rw (e, f, g, e) refl
    ]
    | inr f ↦ rw (e, f, e) (ap (λ r. z ∷ r) (insert_hash_comm x y zs))
  ]
]

pub insert_hash-Perm : (x : Sig) (ys : List Sig) → Permᴰ (insert_hash x ys) (x ∷ ys)
unfolding insert_hash
insert_hash-Perm x [] = Permᴰ.refl (x ∷ [])
insert_hash-Perm x (y ∷ ys) =
    if_elim (λ r. Permᴰ r (x ∷ y ∷ ys)) (lex_le x y) _ _ (λ t. Permᴰ.refl (x ∷ y ∷ ys))
      λ t. Permᴰ.trans (Permᴰ.cons refl (insert_hash-Perm x ys)) (Permᴰ.swap refl refl)

pub sort_hashes-Perm : (xs : List Sig) → Permᴰ (sort_hashes xs) xs
unfolding sort_hashes
sort_hashes-Perm [] = Permᴰ.nil
sort_hashes-Perm (x ∷ xs) =
    Permᴰ.trans (insert_hash-Perm x (sort_hashes xs)) (Permᴰ.cons refl (sort_hashes-Perm xs))

pub Perm-sort_hashes : (xs ys : List Sig) → Permᴰ xs ys → sort_hashes xs ≡ sort_hashes ys
unfolding sort_hashes
Perm-sort_hashes _ _ Permᴰ.nil = refl
Perm-sort_hashes _ _ (Permᴰ.cons {a} {b} {l₁ = l} {l₂ = m} e p) =
    ap (λ x. insert_hash x (sort_hashes l)) e ∙ ap (insert_hash b) (Perm-sort_hashes l m p)
Perm-sort_hashes _ _ (Permᴰ.swap {a} {b} {a' = c} {b' = d} {l} e f) =
    ap (λ x. insert_hash x (insert_hash b (sort_hashes l))) e
    ∙ ap (λ x. insert_hash d (insert_hash x (sort_hashes l))) f
    ∙ insert_hash_comm d c (sort_hashes l)
Perm-sort_hashes _ _ (Permᴰ.trans {l₁ = l} {l₂ = m} {l₃ = n} p q) =
    Perm-sort_hashes l m p ∙ Perm-sort_hashes m n q

pub sort_hashes-same : (xs ys : List Sig) → (sort_hashes xs ≡ sort_hashes ys) ↔ Permᴰ xs ys
sort_hashes-same xs ys = (
  λ e.
      Permᴰ.trans (Permᴰ.symm (sort_hashes-Perm xs))
        (subst (λ s. Permᴰ s ys) (sym e) (sort_hashes-Perm ys)),
  Perm-sort_hashes xs ys,
)
