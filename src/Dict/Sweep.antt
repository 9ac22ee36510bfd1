-- ===== src/Dict/Sweep.antt =====
-- A loop over the keys of the entries that pass a test, which removes each from the map: what is
-- left fails the test. `tick` of src/benchmark.rs and `expire` of src/vpc_mempool.rs sweep so.
use hyperliquid_market_bench.Prelude.{
  ◌≡◌, refl, sym, subst, ◌⊎◌, inl, inr, [], ◌∷◌, Bool, true, false, Bool-cases, arith, All,
  All-mono, keep,
}
use mathlib.Core.Logic.{ite}
use hyperliquid_market_bench.Dict.{Map, remove}

module _ {K V : Type 0} (dec : Discrete K) where
  -- The key is one of the entries.
  abbrev listed : K → Map K V → Bool
  listed key [] = false
  listed key (e ∷ es) = ite (dec e.0 key) true (listed key es)

  All-remove_key :
      (P Q : K × V → Type 0) (k : K) (m : Map K V)
      → ((e : K × V) → (e.0 ≡ k → ⊥) → P e → Q e)
      → All P m
      → All Q (remove dec k m)
  unfolding remove
  All-remove_key P Q k [] f h = tt
  All-remove_key P Q k ((j, v) ∷ m) f h =
      elim (dec j k) as (λ d. All Q (ite d (remove dec k m) ((j, v) ∷ remove dec k m))) [
        | yes e ↦ All-remove_key P Q k m f h.1
        | no n ↦ (f (j, v) n h.0, All-remove_key P Q k m f h.1)
      ]

  listed_other :
      (x : K × V) (rest : Map K V) (e : K × V)
      → (e.0 ≡ x.0 → ⊥)
      → listed e.0 (x ∷ rest) ≡ true
      → listed e.0 rest ≡ true
  listed_other x rest e n h =
      elim (dec x.0 e.0) as (λ d. ite d true (listed e.0 rest) ≡ true → listed e.0 rest ≡ true) [
        | yes q ↦ λ _. absurd (n (sym q))
        | no q ↦ λ k. k
      ]
        h

  listed_head : (x : K × V) (rest : Map K V) → listed x.0 (x ∷ rest) ≡ true
  listed_head x rest = ground arith

  listed_tail :
      (x e : K × V) (rest : Map K V) → listed e.0 rest ≡ true → listed e.0 (x ∷ rest) ≡ true
  listed_tail x e rest h = ground arith

module _ {K V : Type 0} (dec : Discrete K) (test : K × V → Bool) where
  -- An entry that fails the test, or whose key is still to be swept.
  abbrev pub Waits : Map K V → K × V → Type 0
  Waits rest e = (test e ≡ false) ⊎ (listed dec e.0 rest ≡ true)

  Waits-next :
      (x : K × V) (rest : Map K V) (e : K × V) → (e.0 ≡ x.0 → ⊥) → Waits (x ∷ rest) e → Waits rest e
  Waits-next x rest e n (inl h) = inl h
  Waits-next x rest e n (inr h) = inr (listed_other dec x rest e n h)

  Waits-tail : (x : K × V) (rest : Map K V) (e : K × V) → Waits rest e → Waits (x ∷ rest) e
  Waits-tail x rest e (inl h) = inl h
  Waits-tail x rest e (inr h) = inr (listed_tail dec x e rest h)

  keep_yes : (x : K × V) (m : Map K V) → test x ≡ true → x ∷ keep (test) m ≡ keep (test) (x ∷ m)
  keep_yes x m e = rw e refl

  keep_no : (x : K × V) (m : Map K V) → test x ≡ false → keep (test) m ≡ keep (test) (x ∷ m)
  keep_no x m e = rw e refl

  pub Waits-All : (m : Map K V) → All (Waits (keep (test) m)) m
  Waits-All [] = tt
  Waits-All (x ∷ m) =
      let rest = keep (test) m in
      elim (Bool-cases (test x)) [
        | inl e ↦
            subst (λ r. All (Waits r) (x ∷ m)) (keep_yes x m e)
              (
                inr (listed_head dec x rest),
                All-mono (Waits rest) (Waits (x ∷ rest)) (Waits-tail x rest) m (Waits-All m),
              )
        | inr e ↦ subst (λ r. All (Waits r) (x ∷ m)) (keep_no x m e) (inl e, Waits-All m)
      ]

  -- One round: the key of the first entry has been removed.
  pub Waits-remove :
      (x : K × V) (rest m : Map K V)
      → All (Waits (x ∷ rest)) m
      → All (Waits rest) (remove dec x.0 m)
  Waits-remove x rest m h =
      All-remove_key dec (Waits (x ∷ rest)) (Waits rest) x.0 m (Waits-next x rest) h

  -- When the loop is done, every entry fails the test.
  pub Waits-done : (m : Map K V) → All (Waits []) m → All (λ e. test e ≡ false) m
  Waits-done m h = All-mono (Waits []) (λ e. test e ≡ false) swept m h
    where
      swept : (e : K × V) → Waits [] e → test e ≡ false
      swept e (inl f) = f
      swept e (inr y) = absurd (cc)
