-- ===== src/Base/Lists.antt =====
-- Lists measured and indexed by native numbers, under the library's names.
use Prim.Native.Nat.{ℕ, zero, suc, ◌+◌, ◌≤◌}
use mathlib.Core.Path.{◌≡◌, refl, ap, ap₂}
use mathlib.Core.List.{List, [], ◌∷◌, ◌++◌, map}
use mathlib.Core.Bool.{Bool}
use mathlib.Core.Logic.{inl, inr}
use cs660_spring2025_pa.Base.Tests.{if◌then◌else◌, Bool-cases}
use mathlib.Core.Option.{Option, none, some}
use native.Mathlib.Omega.{arith}

module _ {ℓ} {A : Type ℓ} where
  abbrev pub length : List A → ℕ
  length [] = 0
  length (x ∷ xs) = suc (length xs)

  abbrev pub get_elem? : List A → ℕ → Option A
  get_elem? [] i = none
  get_elem? (x ∷ xs) zero = some x
  get_elem? (x ∷ xs) (suc i) = get_elem? xs i

  -- A predicate of every element, by recursion.
  abbrev pub All {κ} : (A → Type κ) → List A → Type κ
  All P [] = Unit
  All P (x ∷ xs) = P x × All P xs

  abbrev pub replicate : ℕ → A → List A
  replicate zero a = []
  replicate (suc n) a = a ∷ replicate n a

  pub length-append : (xs ys : List A) → length (xs ++ ys) ≡ length xs + length ys
  length-append [] ys = omega arith
  length-append (x ∷ xs) ys = omega (arith, length-append xs ys)

  -- A write out of bounds changes nothing.
  abbrev pub set : List A → ℕ → A → List A
  set [] i v = []
  set (x ∷ xs) zero v = v ∷ xs
  set (x ∷ xs) (suc i) v = x ∷ set xs i v

  pub All-map {κ ι} :
      {P : A → Type κ} {Q : A → Type ι} (xs : List A) → ((x : A) → P x → Q x) → All P xs → All Q xs
  All-map [] f h = tt
  All-map (x ∷ xs) f h = (f x h.0, All-map xs f h.1)

  abbrev pub take : ℕ → List A → List A
  take n [] = []
  take zero (y ∷ ys) = []
  take (suc n) (y ∷ ys) = y ∷ take n ys

  pub take_of_length-le : (l : List A) (n : ℕ) → length l ≤ n → take n l ≡ l
  take_of_length-le [] n h = refl
  take_of_length-le (y ∷ ys) zero h = absurd (omega arith)
  take_of_length-le (y ∷ ys) (suc n) h = ap (◌∷◌ y) (take_of_length-le ys n (omega arith))

  pub take-append : (xs ys : List A) (n : ℕ) → length xs ≡ n → take n (xs ++ ys) ≡ xs
  take-append [] [] n h = refl
  take-append [] (y ∷ ys) zero h = refl
  take-append [] (y ∷ ys) (suc n) h = absurd (omega arith)
  take-append (x ∷ xs) ys zero h = absurd (omega arith)
  take-append (x ∷ xs) ys (suc n) h = ap (◌∷◌ x) (take-append xs ys n (omega arith))

module _ {ℓ κ} {A : Type ℓ} {B : Type κ} where
  abbrev pub flat_map : (A → List B) → List A → List B
  flat_map f [] = []
  flat_map f (x ∷ xs) = f x ++ flat_map f xs

module _ {ℓ} {A : Type ℓ} where
  -- The elements that a test accepts.
  abbrev pub select : (A → Bool) → List A → List A
  select test [] = []
  select test (x ∷ xs) = if test x then x ∷ select test xs else select test xs

  pub flat_map-select :
      (test : A → Bool) (xs : List A)
      → flat_map (λ x. if test x then x ∷ [] else []) xs ≡ select test xs
  flat_map-select test [] = refl
  flat_map-select test (x ∷ xs) = elim (Bool-cases (test x)) [
    | inl h ↦ rw h (ap (◌∷◌ x) (flat_map-select test xs))
    | inr h ↦ rw h (flat_map-select test xs)
  ]

  pub flat_map-map {κ} :
      {B : Type κ} (f : A → B) (xs : List A) → flat_map (λ x. f x ∷ []) xs ≡ map f xs
  flat_map-map f [] = refl
  flat_map-map f (x ∷ xs) = ap (◌∷◌ (f x)) (flat_map-map f xs)

  pub flat_map-cong {κ} :
      {B : Type κ} (f g : A → List B) (xs : List A)
      → ((x : A) → f x ≡ g x)
      → flat_map f xs ≡ flat_map g xs
  flat_map-cong f g [] h = refl
  flat_map-cong f g (x ∷ xs) h = ap₂ (◌++◌) (h x) (flat_map-cong f g xs h)

  pub flat_map-map-select {κ} :
      {B : Type κ} (test : A → Bool) (f : A → B) (xs : List A)
      → flat_map (λ x. if test x then f x ∷ [] else []) xs ≡ map f (select test xs)
  flat_map-map-select test f [] = refl
  flat_map-map-select test f (x ∷ xs) = elim (Bool-cases (test x)) [
    | inl h ↦ rw h (ap (◌∷◌ (f x)) (flat_map-map-select test f xs))
    | inr h ↦ rw h (flat_map-map-select test f xs)
  ]

  -- The list with no element at an index.
  abbrev pub remove_at : ℕ → List A → List A
  remove_at i [] = []
  remove_at zero (x ∷ xs) = xs
  remove_at (suc i) (x ∷ xs) = x ∷ remove_at i xs
