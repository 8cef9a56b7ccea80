-- ===== src/Base/Assoc/Laws.antt =====
-- What can be read from a map or a set after a change, in one equation for each operation.
use mathlib.Core.Path.{◌≡◌, refl}
use mathlib.Core.Logic.{ite}
use mathlib.Core.Bool.{true, false}
use mathlib.Core.Option.{none, some}
use mathlib.Core.List.{List, [], ◌∷◌}
use native.Mathlib.Omega.{arith}
use cs660_spring2025_pa.Base.Assoc.{lookup, insert, erase, member, add, remove}

module _ {K V : Type 0} (dec : Discrete K) (q k : K) where
  pub lookup-insert :
      (v : V) (m : List (K × V))
      → lookup dec q (insert dec k v m) ≡ ite (dec k q) (some v) (lookup dec q m)
  unfolding lookup insert
  lookup-insert v [] = refl
  lookup-insert v ((j, w) ∷ m) = ground (arith, lookup-insert v m)

  pub lookup-erase :
      (m : List (K × V)) → lookup dec q (erase dec k m) ≡ ite (dec k q) none (lookup dec q m)
  unfolding lookup erase
  lookup-erase [] = ground arith
  lookup-erase ((j, w) ∷ m) = ground (arith, lookup-erase m)

module _ {K : Type 0} (dec : Discrete K) (q k : K) where
  pub member-add : (s : List K) → member dec q (add dec k s) ≡ ite (dec k q) true (member dec q s)
  unfolding member add
  member-add [] = refl
  member-add (j ∷ s) = ground (arith, member-add s)

  pub member-remove :
      (s : List K) → member dec q (remove dec k s) ≡ ite (dec k q) false (member dec q s)
  unfolding member remove
  member-remove [] = ground arith
  member-remove (j ∷ s) = ground (arith, member-remove s)
