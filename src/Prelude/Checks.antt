-- ===== src/Prelude/Checks.antt =====
-- Code that may panic returns an Option, with `none` for the panic; `Ensures` says that it does
-- not panic and that its result satisfies a predicate.
use mathlib.Core.Path.{◌≡◌, refl}
use mathlib.Core.List.{List, [], ◌∷◌}
use mathlib.Core.Bool.{Bool, true, false}
use mathlib.Core.Option.{Option, none, some}
use hyperliquid_market_bench.Prelude.Tests.{if◌then◌else◌}
use hyperliquid_market_bench.Prelude.Lists.{All}

infixl 5 ◌>>=◌
abbrev pub ◌>>=◌ {ℓ κ} : {A : Type ℓ} {B : Type κ} → Option A → (A → Option B) → Option B
none >>= f = none
some a >>= f = f a

abbrev pub Ensures {ℓ} : {A : Type ℓ} → (A → Type 0) → Option A → Type 0
Ensures P none = ⊥
Ensures P (some a) = P a

-- The same as `Ensures->>=`, where the rest may use what the value is.
pub bind-Ensures {ℓ κ} :
    {A : Type ℓ} {B : Type κ} (P : A → Type 0) (Q : B → Type 0) (o : Option A) (f : A → Option B)
    → Ensures P o
    → ((x : A) → o ≡ some x → P x → Ensures Q (f x))
    → Ensures Q (o >>= f)
bind-Ensures P Q none f e k = e
bind-Ensures P Q (some x) f e k = k x refl e

module _ {ℓ} {A : Type ℓ} where
  pub Ensures->>= {κ} :
      {B : Type κ} (P : A → Type 0) (Q : B → Type 0) (m : Option A) (f : A → Option B)
      → Ensures P m
      → ((a : A) → P a → Ensures Q (f a))
      → Ensures Q (m >>= f)
  Ensures->>= P Q none f h k = absurd h
  Ensures->>= P Q (some a) f h k = k a h

  pub Ensures-mono :
      (P Q : A → Type 0) (m : Option A) → Ensures P m → ((a : A) → P a → Q a) → Ensures Q m
  Ensures-mono P Q none h k = absurd h
  Ensures-mono P Q (some a) h k = k a h

  -- A postcondition is met by the result that there is.
  pub Ensures-some : (P : A → Type 0) (m : Option A) → Ensures P m → (a : A) × (m ≡ some a) × P a
  Ensures-some P none h = absurd h
  Ensures-some P (some a) h = (a, refl, h)

-- A `for` loop whose body may panic.
unfoldable pub for_each {ℓ κ} :
    {A : Type ℓ} {S : Type κ} → (A → S → Option S) → List A → S → Option S
for_each body [] s = some s
for_each body (x ∷ xs) s = body x s >>= for_each body xs

-- A loop keeps what each round keeps.
pub for_each-Ensures {ℓ κ} :
    {A : Type ℓ} {S : Type κ} (P : S → Type 0) (body : A → S → Option S)
    → ((x : A) (s : S) → P s → Ensures P (body x s))
    → (xs : List A) (s : S) → P s
    → Ensures P (for_each body xs s)
unfolding for_each
for_each-Ensures P body kept [] s h = h
for_each-Ensures P body kept (x ∷ xs) s h =
    Ensures->>= P P (body x s) (for_each body xs) (kept x s h)
      (λ t ht. for_each-Ensures P body kept xs t ht)

-- The same, for a loop over elements that satisfy a predicate.
pub for_each-Ensures_All {ℓ κ} :
    {A : Type ℓ} {S : Type κ} (E : A → Type 0) (P : S → Type 0) (body : A → S → Option S)
    → ((x : A) (s : S) → E x → P s → Ensures P (body x s))
    → (xs : List A) (s : S) → All E xs
    → P s
    → Ensures P (for_each body xs s)
unfolding for_each
for_each-Ensures_All E P body kept [] s a h = h
for_each-Ensures_All E P body kept (x ∷ xs) s a h =
    Ensures->>= P P (body x s) (for_each body xs) (kept x s a.0 h)
      (λ t ht. for_each-Ensures_All E P body kept xs t a.1 ht)

-- The result, if there is one, satisfies the predicate.
abbrev pub Yields {ℓ} : {A : Type ℓ} → (A → Type 0) → Option A → Type 0
Yields Q none = Unit {0}
Yields Q (some a) = Q a

module _ {ℓ} {A : Type ℓ} where
  pub Yields->>= {κ} :
      {B : Type κ} (P : A → Type 0) (Q : B → Type 0) (m : Option A) (f : A → Option B)
      → Yields P m
      → ((a : A) → P a → Yields Q (f a))
      → Yields Q (m >>= f)
  Yields->>= P Q none f h k = tt
  Yields->>= P Q (some a) f h k = k a h

  pub Yields-mono :
      (P Q : A → Type 0) (m : Option A) → Yields P m → ((a : A) → P a → Q a) → Yields Q m
  Yields-mono P Q none h k = tt
  Yields-mono P Q (some a) h k = k a h

  -- Code that does not panic yields what it yields.
  pub Ensures-Yields : (P Q : A → Type 0) (m : Option A) → Ensures P m → Yields Q m → Ensures Q m
  Ensures-Yields P Q none h k = absurd h
  Ensures-Yields P Q (some a) h k = k

  pub Yields-of_Ensures : (Q : A → Type 0) (m : Option A) → Ensures Q m → Yields Q m
  Yields-of_Ensures Q none h = absurd h
  Yields-of_Ensures Q (some a) h = h

  pub Yields-any : (m : Option A) → Yields (λ a. Unit {0}) m
  Yields-any none = tt
  Yields-any (some a) = tt

  -- A test under a postcondition.
  pub Yields-if :
      (Q : A → Type 0) (b : Bool) (m n : Option A)
      → (b ≡ true → Yields Q m)
      → (b ≡ false → Yields Q n)
      → Yields Q (if b then m else n)
  Yields-if Q true m n h k = h refl
  Yields-if Q false m n h k = k refl

  pub Ensures-if :
      (Q : A → Type 0) (b : Bool) (m n : Option A)
      → (b ≡ true → Ensures Q m)
      → (b ≡ false → Ensures Q n)
      → Ensures Q (if b then m else n)
  Ensures-if Q true m n h k = h refl
  Ensures-if Q false m n h k = k refl

pub for_each-Yields {ℓ κ} :
    {A : Type ℓ} {S : Type κ} (P : S → Type 0) (body : A → S → Option S)
    → ((x : A) (s : S) → P s → Yields P (body x s))
    → (xs : List A) (s : S) → P s
    → Yields P (for_each body xs s)
unfolding for_each
for_each-Yields P body kept [] s h = h
for_each-Yields P body kept (x ∷ xs) s h =
    Yields->>= P P (body x s) (for_each body xs) (kept x s h)
      (λ t ht. for_each-Yields P body kept xs t ht)
