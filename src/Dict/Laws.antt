-- ===== src/Dict/Laws.antt =====
-- What `get` sees after each operation, the number of entries, and predicates on all entries.
use Prim.Native.Nat.{ℕ, ◌+◌, ◌≤◌, ◌<◌}
use mathlib.Core.Logic.{if_pos, if_neg, ite}
use hyperliquid_market_bench.Prelude.{
  ◌≡◌, refl, subst, true, [], ◌∷◌, none, some, arith, length, All, if◌then◌else◌, ltb, is_some,
  Bool, keep,
}
use hyperliquid_market_bench.Dict.{
  Map, get, contains_key, insert, remove, min_by_key, least, map_values,
}

module _ {ℓ} {K V : Type ℓ} (dec : Discrete K) where
  pub get-insert :
      (k j : K) (v : V) (m : Map K V)
      → get dec j (insert dec k v m) ≡ ite (dec k j) (some v) (get dec j m)
  unfolding get insert
  get-insert k j v [] = refl
  get-insert k j v ((i, w) ∷ m) = ground (arith, get-insert k j v m)

  pub get-remove :
      (k j : K) (m : Map K V) → get dec j (remove dec k m) ≡ ite (dec k j) none (get dec j m)
  unfolding get remove
  get-remove k j [] = ground arith
  get-remove k j ((i, w) ∷ m) = ground (arith, get-remove k j m)

  pub length-insert-le : (k : K) (v : V) (m : Map K V) → length (insert dec k v m) ≤ length m + 1
  unfolding insert
  length-insert-le k v [] = omega arith
  length-insert-le k v ((j, w) ∷ m) = ground (arith, length-insert-le k v m)

  -- A key that is there is replaced.
  pub length-insert_present :
      (k : K) (v : V) (m : Map K V)
      → contains_key dec k m ≡ true
      → length (insert dec k v m) ≡ length m
  unfolding insert get
  length-insert_present k v [] h = cc
  length-insert_present k v ((j, w) ∷ m) h = ground (arith, length-insert_present k v m)

  pub length-remove-le : (k : K) (m : Map K V) → length (remove dec k m) ≤ length m
  unfolding remove
  length-remove-le k [] = omega arith
  length-remove-le k ((j, w) ∷ m) = ground (arith, length-remove-le k m)

  pub length-remove-lt :
      (k : K) (m : Map K V) → contains_key dec k m ≡ true → length (remove dec k m) < length m
  unfolding remove get
  length-remove-lt k [] h = cc
  length-remove-lt k ((j, w) ∷ m) h = ground (arith, length-remove-lt k m, length-remove-le k m)

  pub contains_key-map_values :
      (f : V → V) (k : K) (m : Map K V) → contains_key dec k (map_values f m) ≡ contains_key dec k m
  unfolding get map_values
  contains_key-map_values f k [] = refl
  contains_key-map_values f k ((j, v) ∷ m) = ground (arith, contains_key-map_values f k m)

  -- Fewer entries answer fewer questions.
  pub contains_key-keep :
      (p : K × V → Bool) (k : K) (m : Map K V)
      → contains_key dec k (keep p m) ≡ true
      → contains_key dec k m ≡ true
  unfolding get
  contains_key-keep p k [] h = h
  contains_key-keep p k ((j, v) ∷ m) h = ground (arith, contains_key-keep p k m)

  pub remove_absent : (k : K) (m : Map K V) → get dec k m ≡ none → remove dec k m ≡ m
  unfolding get remove
  remove_absent k [] h = refl
  remove_absent k ((j, w) ∷ m) h = ground (arith, remove_absent k m)

  pub All-insert {μ} :
      (P : K × V → Type μ) (k : K) (v : V) (m : Map K V)
      → P (k, v)
      → All P m
      → All P (insert dec k v m)
  unfolding insert
  All-insert P k v [] p h = (p, tt)
  All-insert P k v ((j, w) ∷ m) p h = elim (dec j k) [
    | yes e ↦ rw (if_pos _ e) (p, h.1)
    | no n ↦ rw (if_neg _ n) (h.0, All-insert P k v m p h.1)
  ]

  pub All-remove {μ} : (P : K × V → Type μ) (k : K) (m : Map K V) → All P m → All P (remove dec k m)
  unfolding remove
  All-remove P k [] h = tt
  All-remove P k ((j, w) ∷ m) h = elim (dec j k) [
    | yes e ↦ rw (if_pos _ e) (All-remove P k m h.1)
    | no n ↦ rw (if_neg _ n) (h.0, All-remove P k m h.1)
  ]

  -- An entry that is found satisfies what all do.
  pub All-get {μ} :
      (P : K × V → Type μ) (k : K) (v : V) (m : Map K V) → All P m → get dec k m ≡ some v → P (k, v)
  unfolding get
  All-get P k v [] h e = absurd (cc)
  All-get P k v ((j, w) ∷ m) h e = elim (dec j k) [
    | yes p ↦ subst P (ground arith) h.0
    | no n ↦ All-get P k v m h.1 (ground arith)
  ]

module _ {ℓ} {K V : Type ℓ} where
  All-least {μ} :
      (P : K × V → Type μ) (f : V → ℕ) (e : K × V) (m : Map K V) → P e → All P m → P (least f e m)
  unfolding least
  All-least P f e [] p h = p
  All-least P f e (d ∷ m) p h =
      All-least P f (if ltb (f d.1) (f e.1) then d else e) m (ground arith) h.1

  pub All-map_values {μ} :
      (P : V → Type μ) (f : V → V) (m : Map K V)
      → ((v : V) → P v → P (f v))
      → All (λ (e : K × V). P e.1) m
      → All (λ (e : K × V). P e.1) (map_values f m)
  unfolding map_values
  All-map_values P f [] g h = tt
  All-map_values P f ((k, v) ∷ m) g h = (g v h.0, All-map_values P f m g h.1)

  pub All-min_by_key {μ} :
      (P : K × V → Type μ) (f : V → ℕ) (m : Map K V) {e : K × V}
      → All P m
      → min_by_key f m ≡ some e
      → P e
  unfolding min_by_key
  All-min_by_key P f [] h q = absurd (cc)
  All-min_by_key P f (d ∷ m) h q = subst P (cc) (All-least P f d m h.0 h.1)

  least-le : (f : V → ℕ) (e : K × V) (m : Map K V) → f (least f e m).1 ≤ f e.1
  unfolding least
  least-le f e [] = omega arith
  least-le f e (d ∷ m) = ground (arith, least-le f (if ltb (f d.1) (f e.1) then d else e) m)

  All-least-le : (f : V → ℕ) (e : K × V) (m : Map K V) → All (λ d. f (least f e m).1 ≤ f d.1) m
  unfolding least
  All-least-le f e [] = tt
  All-least-le f e (d ∷ m) =
      let e' : K × V = if ltb (f d.1) (f e.1) then d else e in
      (ground (arith, least-le f e' m), All-least-le f e' m)

  -- No entry is below the one that is found.
  pub min_by_key-least :
      (f : V → ℕ) (m : Map K V) {e : K × V} → min_by_key f m ≡ some e → All (λ d. f e.1 ≤ f d.1) m
  unfolding min_by_key
  min_by_key-least f [] q = tt
  min_by_key-least f (d ∷ m) {e} q =
      let q' : least f d m ≡ e = ground arith in
      subst {A = K × V} (λ x. All (λ y. f x.1 ≤ f y.1) (d ∷ m)) q'
        (least-le f d m, All-least-le f d m)

  pub min_by_key-eq-none : (f : V → ℕ) (m : Map K V) → min_by_key f m ≡ none → length m ≡ 0
  unfolding min_by_key
  min_by_key-eq-none f [] h = refl
  min_by_key-eq-none f (d ∷ m) h = absurd (cc)

module _ {ℓ} {K V : Type ℓ} (dec : Discrete K) where
  get_mono :
      (e d : K × V) (m : Map K V)
      → is_some (get dec e.0 m) ≡ true
      → is_some (get dec e.0 (d ∷ m)) ≡ true
  unfolding get
  get_mono e d m h = ground arith

  -- The least entry is among those that `get` finds.
  contains_key-least :
      (f : V → ℕ) (e : K × V) (m : Map K V) → contains_key dec (least f e m).0 (e ∷ m) ≡ true
  unfolding least get
  contains_key-least f e [] = elim (dec e.0 e.0) [
    | yes p ↦ rw (if_pos _ p)
    | no n ↦ absurd (n refl)
  ]
  contains_key-least f e (d ∷ m) =
      ground (arith, contains_key-least f (if ltb (f d.1) (f e.1) then d else e) m)

  pub contains_key-min_by_key :
      (f : V → ℕ) (m : Map K V) {e : K × V}
      → min_by_key f m ≡ some e
      → contains_key dec e.0 m ≡ true
  unfolding min_by_key
  contains_key-min_by_key f [] q = absurd (cc)
  contains_key-min_by_key f (d ∷ m) q = ground (arith, contains_key-least f d m)
