-- ===== src/Base/Arrays.antt =====
-- Arrays read through an index: the list of the first elements, and what writes to the array do
-- to that list.
use Prim.Native.Nat.{ℕ, zero, suc, ◌+◌, ◌-◌, ◌≤◌, ◌<◌}
use mathlib.Core.Path.{◌≡◌, refl, ap, ap₂, subst, ◌∙◌}
use mathlib.Core.Logic.{◌≢◌}
use mathlib.Core.List.{List, [], ◌∷◌, map}
use mathlib.Core.Option.{some}
use native.Mathlib.Omega.{arith}
use cs660_spring2025_pa.Base.Lists.{length, get_elem?, set, take, All}

module _ {ℓ} {A : Type ℓ} where
  -- The elements of an array at the indices below a bound.
  unfoldable pub tabulate : (ℕ → A) → ℕ → List A
  tabulate f zero = []
  tabulate f (suc n) = f 0 ∷ tabulate (λ i. f (suc i)) n

  -- An element put in before the one at an index.
  unfoldable pub insert_at : List A → ℕ → A → List A
  insert_at [] i a = a ∷ []
  insert_at (x ∷ xs) zero a = a ∷ x ∷ xs
  insert_at (x ∷ xs) (suc i) a = x ∷ insert_at xs i a

  unfoldable pub drop : ℕ → List A → List A
  drop n [] = []
  drop zero (x ∷ xs) = x ∷ xs
  drop (suc n) (x ∷ xs) = drop n xs

  pub length-tabulate : (f : ℕ → A) (n : ℕ) → length (tabulate f n) ≡ n
  unfolding tabulate
  length-tabulate f zero = refl
  length-tabulate f (suc n) = ap suc (length-tabulate (λ i. f (suc i)) n)

  pub get_elem?-tabulate : (f : ℕ → A) (n i : ℕ) → i < n → get_elem? (tabulate f n) i ≡ some (f i)
  unfolding tabulate
  get_elem?-tabulate f zero i h = absurd (omega arith)
  get_elem?-tabulate f (suc n) zero h = refl
  get_elem?-tabulate f (suc n) (suc i) h = get_elem?-tabulate (λ i. f (suc i)) n i (omega arith)

  pub tabulate-cong :
      (f g : ℕ → A) (n : ℕ) → ((i : ℕ) → i < n → f i ≡ g i) → tabulate f n ≡ tabulate g n
  unfolding tabulate
  tabulate-cong f g zero h = refl
  tabulate-cong f g (suc n) h =
      ap₂ ◌∷◌ (h 0 (omega arith))
        (tabulate-cong (λ i. f (suc i)) (λ i. g (suc i)) n (λ i lt. h (suc i) (omega arith)))

  -- The elements from an index on moved up by one, and a new element in their place.
  pub tabulate-insert_at :
      (f g : ℕ → A) (n r : ℕ) (a : A)
      → r ≤ n
      → ((i : ℕ) → i < r → g i ≡ f i)
      → g r ≡ a
      → ((i : ℕ) → r ≤ i → i < n → g (suc i) ≡ f i)
      → tabulate g (suc n) ≡ insert_at (tabulate f n) r a
  unfolding tabulate insert_at
  tabulate-insert_at f g zero zero a le low here high = ap (λ x. x ∷ []) here
  tabulate-insert_at f g zero (suc r) a le low here high = absurd (omega arith)
  tabulate-insert_at f g (suc n) zero a le low here high =
      ap₂ ◌∷◌ here (tabulate-cong (λ i. g (suc i)) f (suc n) (λ i lt. high i (omega arith) lt))
  tabulate-insert_at f g (suc n) (suc r) a le low here high = ap₂ ◌∷◌ (low 0 (omega arith)) (
      tabulate-insert_at (λ i. f (suc i)) (λ i. g (suc i)) n r a (omega arith)
        (λ i lt. low (suc i) (omega arith)) here
        (λ i ge lt. high (suc i) (omega arith) (omega arith)))

  pub tabulate-set :
      (f g : ℕ → A) (n r : ℕ) (a : A)
      → r < n
      → g r ≡ a
      → ((i : ℕ) → i < n → i ≢ r → g i ≡ f i)
      → tabulate g n ≡ set (tabulate f n) r a
  unfolding tabulate
  tabulate-set f g zero r a lt here other = absurd (omega arith)
  tabulate-set f g (suc n) zero a lt here other = ap₂ ◌∷◌ here (
      tabulate-cong (λ i. g (suc i)) (λ i. f (suc i)) n
        (λ i lt. other (suc i) (omega arith) (λ e. absurd (omega arith))))
  tabulate-set f g (suc n) (suc r) a lt here other =
      ap₂ ◌∷◌ (other 0 (omega arith) (λ e. absurd (omega arith))) (
        tabulate-set (λ i. f (suc i)) (λ i. g (suc i)) n r a (omega arith) here
          (λ i lt n. other (suc i) (omega arith) (λ e. n (omega arith))))

  pub tabulate-take : (f : ℕ → A) (n k : ℕ) → k ≤ n → tabulate f k ≡ take k (tabulate f n)
  unfolding tabulate
  tabulate-take f zero zero h = refl
  tabulate-take f zero (suc k) h = absurd (omega arith)
  tabulate-take f (suc n) zero h = refl
  tabulate-take f (suc n) (suc k) h =
      ap (◌∷◌ (f 0)) (tabulate-take (λ i. f (suc i)) n k (omega arith))

  pub tabulate-drop :
      (f : ℕ → A) (n k : ℕ) → k ≤ n → tabulate (λ i. f (k + i)) (n - k) ≡ drop k (tabulate f n)
  unfolding tabulate drop
  tabulate-drop f zero zero h = refl
  tabulate-drop f zero (suc k) h = absurd (omega arith)
  tabulate-drop f (suc n) zero h =
      ap (tabulate (λ i. f (0 + i))) {x = suc n - 0} {y = suc n} (omega arith)
      ∙ tabulate-cong (λ i. f (0 + i)) f (suc n) (λ i lt. ap f (omega arith))
  tabulate-drop f (suc n) (suc k) h =
      ap (tabulate (λ i. f (suc k + i))) {x = suc n - suc k} {y = n - k} (omega arith)
      ∙ tabulate-cong (λ i. f (suc k + i)) (λ i. f (suc (k + i))) (n - k)
          (λ i lt. ap f (omega arith))
      ∙ tabulate-drop (λ i. f (suc i)) n k (omega arith)

  pub lt_of_get_elem? : (xs : List A) (i : ℕ) (a : A) → get_elem? xs i ≡ some a → i < length xs
  lt_of_get_elem? [] i a h = cc
  lt_of_get_elem? (x ∷ xs) zero a h = omega arith
  lt_of_get_elem? (x ∷ xs) (suc i) a h = omega (arith, lt_of_get_elem? xs i a h)

  pub get_elem?_of_lt : (xs : List A) (i : ℕ) → i < length xs → (a : A) × (get_elem? xs i ≡ some a)
  get_elem?_of_lt [] i h = absurd (omega arith)
  get_elem?_of_lt (x ∷ xs) zero h = (x, refl)
  get_elem?_of_lt (x ∷ xs) (suc i) h = get_elem?_of_lt xs i (omega arith)

  pub length-set : (xs : List A) (i : ℕ) (a : A) → length (set xs i a) ≡ length xs
  length-set [] i a = refl
  length-set (x ∷ xs) zero a = refl
  length-set (x ∷ xs) (suc i) a = ap suc (length-set xs i a)

  pub length-insert_at : (xs : List A) (i : ℕ) (a : A) → length (insert_at xs i a) ≡ suc (length xs)
  unfolding insert_at
  length-insert_at [] i a = refl
  length-insert_at (x ∷ xs) zero a = refl
  length-insert_at (x ∷ xs) (suc i) a = ap suc (length-insert_at xs i a)

  pub length-drop : (n : ℕ) (xs : List A) → length (drop n xs) ≡ length xs - n
  unfolding drop
  length-drop n [] = omega arith
  length-drop zero (x ∷ xs) = omega arith
  length-drop (suc n) (x ∷ xs) = omega (arith, length-drop n xs)

  pub length-take : (n : ℕ) (xs : List A) → n ≤ length xs → length (take n xs) ≡ n
  length-take zero [] h = refl
  length-take (suc n) [] h = absurd (omega arith)
  length-take zero (x ∷ xs) h = refl
  length-take (suc n) (x ∷ xs) h = omega (arith, length-take n xs)

  module _ {κ} (P : A → Type κ) where
    pub All-set : (xs : List A) (i : ℕ) (a : A) → P a → All P xs → All P (set xs i a)
    All-set [] i a h all = tt
    All-set (x ∷ xs) zero a h all = (h, all.1)
    All-set (x ∷ xs) (suc i) a h all = (all.0, All-set xs i a h all.1)

    pub All-insert_at : (xs : List A) (i : ℕ) (a : A) → P a → All P xs → All P (insert_at xs i a)
    unfolding insert_at
    All-insert_at [] i a h all = (h, tt)
    All-insert_at (x ∷ xs) zero a h all = (h, all)
    All-insert_at (x ∷ xs) (suc i) a h all = (all.0, All-insert_at xs i a h all.1)

    pub All-get_elem? : (xs : List A) (i : ℕ) (a : A) → All P xs → get_elem? xs i ≡ some a → P a
    All-get_elem? [] i a all h = cc
    All-get_elem? (x ∷ xs) zero a all h = subst P (cc) all.0
    All-get_elem? (x ∷ xs) (suc i) a all h = All-get_elem? xs i a all.1 h

    pub All-take : (n : ℕ) (xs : List A) → All P xs → All P (take n xs)
    All-take n [] all = tt
    All-take zero (x ∷ xs) all = tt
    All-take (suc n) (x ∷ xs) all = (all.0, All-take n xs all.1)

    pub All-drop : (n : ℕ) (xs : List A) → All P xs → All P (drop n xs)
    unfolding drop
    All-drop n [] all = tt
    All-drop zero (x ∷ xs) all = all
    All-drop (suc n) (x ∷ xs) all = All-drop n xs all.1

module _ {ℓ κ} {A : Type ℓ} {B : Type κ} (f : A → B) where
  pub map-insert_at :
      (xs : List A) (i : ℕ) (a : A) → map f (insert_at xs i a) ≡ insert_at (map f xs) i (f a)
  unfolding insert_at
  map-insert_at [] i a = refl
  map-insert_at (x ∷ xs) zero a = refl
  map-insert_at (x ∷ xs) (suc i) a = ap (◌∷◌ (f x)) (map-insert_at xs i a)

  pub map-set : (xs : List A) (i : ℕ) (a : A) → map f (set xs i a) ≡ set (map f xs) i (f a)
  map-set [] i a = refl
  map-set (x ∷ xs) zero a = refl
  map-set (x ∷ xs) (suc i) a = ap (◌∷◌ (f x)) (map-set xs i a)

  pub map-take : (n : ℕ) (xs : List A) → map f (take n xs) ≡ take n (map f xs)
  map-take n [] = refl
  map-take zero (x ∷ xs) = refl
  map-take (suc n) (x ∷ xs) = ap (◌∷◌ (f x)) (map-take n xs)

  pub map-drop : (n : ℕ) (xs : List A) → map f (drop n xs) ≡ drop n (map f xs)
  unfolding drop
  map-drop n [] = refl
  map-drop zero (x ∷ xs) = refl
  map-drop (suc n) (x ∷ xs) = map-drop n xs

  pub length-map : (xs : List A) → length (map f xs) ≡ length xs
  length-map [] = refl
  length-map (x ∷ xs) = ap suc (length-map xs)

  pub map-tabulate : (g : ℕ → A) (n : ℕ) → map f (tabulate g n) ≡ tabulate (λ i. f (g i)) n
  unfolding tabulate
  map-tabulate g zero = refl
  map-tabulate g (suc n) = ap (◌∷◌ (f (g 0))) (map-tabulate (λ i. g (suc i)) n)

  pub map-tabulate_at :
      (g : ℕ → B) (xs : List A)
      → tabulate g (length xs) ≡ map f xs
      → (i : ℕ) (x : A) → get_elem? xs i ≡ some x
      → g i ≡ f x
  unfolding tabulate
  map-tabulate_at g [] e i x h = cc
  map-tabulate_at g (y ∷ xs) e zero x h = cc
  map-tabulate_at g (y ∷ xs) e (suc i) x h = map-tabulate_at (λ j. g (suc j)) xs (cc) i x h
