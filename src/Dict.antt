-- ===== src/Dict.antt =====
-- `std::collections::HashMap` as a list of entries. The order of the list is the order in which
-- the map is iterated, which the source leaves open; a lemma that ranges over all maps holds for
-- every order.
pub mod Laws
pub mod Sweep
use Prim.Native.Nat.{ℕ}
use mathlib.Core.List.{List, [], ◌∷◌, lookup}
use mathlib.Core.Bool.{Bool, true, false, decide}
use mathlib.Core.Option.{Option, none, some}
use mathlib.Core.Logic.{ite}
use hyperliquid_market_bench.Prelude.{if◌then◌else◌, ltb, is_some}

abbrev pub Map {ℓ} : Type ℓ → Type ℓ → Type ℓ
Map K V = List (K × V)

module _ {ℓ} {K V : Type ℓ} (dec : Discrete K) where
  unfoldable pub get : K → Map K V → Option V
  get k [] = none
  get k ((j, v) ∷ m) = ite (dec j k) (some v) (get k m)

  abbrev pub contains_key : K → Map K V → Bool
  contains_key k m = is_some (get k m)

  -- The new value stands in the old one's place, or behind all entries.
  unfoldable pub insert : K → V → Map K V → Map K V
  insert k v [] = (k, v) ∷ []
  insert k v ((j, w) ∷ m) = ite (dec j k) ((k, v) ∷ m) ((j, w) ∷ insert k v m)

  unfoldable pub remove : K → Map K V → Map K V
  remove k [] = []
  remove k ((j, v) ∷ m) = ite (dec j k) (remove k m) ((j, v) ∷ remove k m)

module _ {ℓ} {K V : Type ℓ} where
  least : (V → ℕ) → K × V → Map K V → K × V
  least f e [] = e
  least f e (d ∷ m) = least f (if ltb (f d.1) (f e.1) then d else e) m

  -- `for value in values_mut()`.
  unfoldable pub map_values : (V → V) → Map K V → Map K V
  map_values f [] = []
  map_values f ((k, v) ∷ m) = (k, f v) ∷ map_values f m

  -- `iter().min_by_key(..)`: the first of the entries whose measure is the least.
  unfoldable pub min_by_key : (V → ℕ) → Map K V → Option (K × V)
  unfolding least
  min_by_key f [] = none
  min_by_key f (e ∷ m) = some (least f e m)
