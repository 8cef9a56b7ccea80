-- ===== src/Base/Assoc.antt =====
-- `std::unordered_map` as an association list, and `std::unordered_set` as a list, over keys with a
-- decidable equality. The order of iteration, which C++ leaves open, is the order of the list.
pub mod Laws
use Prim.Native.Nat.{ℕ, zero, suc, ◌+◌}
use mathlib.Core.Path.{◌≡◌, refl}
use mathlib.Core.Logic.{◌≢◌, ite}
use mathlib.Core.Bool.{Bool, true, false}
use mathlib.Core.Option.{Option, none, some}
use mathlib.Core.List.{List, [], ◌∷◌}
use native.Mathlib.Omega.{arith}

module _ {K : Type 0} (dec : Discrete K) where
  -- `s.find(k) != s.end()`, `s.insert(k)` and `s.erase(k)`.
  unfoldable pub member : K → List K → Bool
  member k [] = false
  member k (j ∷ s) = ite (dec j k) true (member k s)

  unfoldable pub add : K → List K → List K
  unfolding member
  add k [] = k ∷ []
  add k (j ∷ s) = ite (dec j k) (j ∷ s) (j ∷ add k s)

  unfoldable pub remove : K → List K → List K
  remove k [] = []
  remove k (j ∷ s) = ite (dec j k) (remove k s) (j ∷ remove k s)

module _ {K V : Type 0} (dec : Discrete K) where
  -- `m.find(k)`, `m[k] = v` and `m.erase(k)`.
  unfoldable pub lookup : K → List (K × V) → Option V
  lookup k [] = none
  lookup k ((j, v) ∷ m) = ite (dec j k) (some v) (lookup k m)

  unfoldable pub insert : K → V → List (K × V) → List (K × V)
  insert k v [] = (k, v) ∷ []
  insert k v ((j, w) ∷ m) = ite (dec j k) ((k, v) ∷ m) ((j, w) ∷ insert k v m)

  unfoldable pub erase : K → List (K × V) → List (K × V)
  erase k [] = []
  erase k ((j, w) ∷ m) = ite (dec j k) (erase k m) ((j, w) ∷ erase k m)
