-- ===== src/Search/Keys.antt =====
-- Sorted lists of distinct keys, and where a binary search puts a new one.
use cs660_spring2025_pa.Base.{
  ℕ, zero, suc, ◌+◌, ◌≤◌, ◌<◌, ◌≡◌, refl, Bool, true, false, List, [], ◌∷◌, map, length, All,
  All-map, All-take, All-drop, get_elem?, set, take, some, arith, tabulate, insert_at, drop,
  if◌then◌else◌, Bool-cases, inl, inr, dec_lt, subst, ◌≢◌,
}
use cs660_spring2025_pa.Base.Int.{ℤ, ◌<ℤ◌, ◌≤ℤ◌, ltb_ℤ, eqb_ℤ, pos_part, neg_part, eq_of_parts}
use cs660_spring2025_pa.Search.{lower_bound}
use cs660_spring2025_pa.Search.Bound.{Splits, IsPartitioned, lower_bound-Splits}

-- Keys in ascending order, none twice.
abbrev pub IsSorted : List ℤ → Type 0
IsSorted [] = Unit
IsSorted (k ∷ ks) = All (λ j. k <ℤ j) ks × IsSorted ks

All-tabulate :
    (P : ℤ → Type 0) (f : ℕ → ℤ) (n : ℕ) → All P (tabulate f n) → (i : ℕ) → i < n → P (f i)
unfolding tabulate
All-tabulate P f zero a i h = absurd (omega arith)
All-tabulate P f (suc n) a zero h = a.0
All-tabulate P f (suc n) a (suc i) h = All-tabulate P (λ i. f (suc i)) n a.1 i (omega arith)

pub tabulate-ascending :
    (f : ℕ → ℤ) (n : ℕ) → IsSorted (tabulate f n) → (i j : ℕ) → i < j → j < n → f i <ℤ f j
unfolding tabulate
tabulate-ascending f zero s i j a b = absurd (omega arith)
tabulate-ascending f (suc n) s i zero a b = absurd (omega arith)
tabulate-ascending f (suc n) s zero (suc j) a b =
    All-tabulate (λ k. f 0 <ℤ k) (λ i. f (suc i)) n s.0 j (omega arith)
tabulate-ascending f (suc n) s (suc i) (suc j) a b =
    tabulate-ascending (λ i. f (suc i)) n s.1 i j (omega arith) (omega arith)

-- The search for a key in a sorted array.
pub search-Splits :
    (f : ℕ → ℤ) (n : ℕ) (key : ℤ)
    → IsSorted (tabulate f n)
    → Splits (λ i. ltb_ℤ (f i) key) 0 n (lower_bound (λ i. ltb_ℤ (f i) key) n)
search-Splits f n key s = lower_bound-Splits (λ i. ltb_ℤ (f i) key) n part
  where
    part : IsPartitioned (λ i. ltb_ℤ (f i) key) n
    part i j le lt h = elim (dec_lt i j) [
      | yes less ↦ ground (arith, tabulate-ascending f n s i j less lt)
      | no ge ↦ subst (λ x. ltb_ℤ (f x) key ≡ true) {x = j} {y = i} (omega arith) h
    ]

module _ {A : Type 0} (key_of : A → ℤ) where
  -- A list in the order of its keys, with an element added in its place, or put in place of the
  -- one with its key.
  unfoldable pub upsert : A → List A → List A
  upsert a [] = a ∷ []
  upsert a (x ∷ xs) =
      if ltb_ℤ (key_of x) (key_of a)
      then x ∷ upsert a xs
      else if eqb_ℤ (key_of a) (key_of x)
      then a ∷ xs
      else a ∷ x ∷ xs

  -- The element that stands at the place that the search finds has the key.
  abbrev pub hit : A → List A → ℕ → Bool
  hit a [] i = false
  hit a (x ∷ xs) zero = eqb_ℤ (key_of a) (key_of x)
  hit a (x ∷ xs) (suc i) = hit a xs i

  -- What the code does at the place that the search finds is `upsert`.
  pub upsert-Splits :
      (a : A) (xs : List A) (r : ℕ)
      → r ≤ length xs
      → ((i : ℕ) (x : A) → i < r → get_elem? xs i ≡ some x → ltb_ℤ (key_of x) (key_of a) ≡ true)
      → ((i : ℕ) (x : A) → r ≤ i → get_elem? xs i ≡ some x → ltb_ℤ (key_of x) (key_of a) ≡ false)
      → upsert a xs ≡ (if hit a xs r then set xs r a else insert_at xs r a)
  unfolding upsert insert_at
  upsert-Splits a [] r le low high = refl
  upsert-Splits a (x ∷ xs) zero le low high = ground (arith, high 0 x (omega arith) refl)
  upsert-Splits a (x ∷ xs) (suc r) le low high = ground (
    arith,
    low 0 x (omega arith) refl,
    upsert-Splits a xs r (omega arith) (λ i y lt e. low (suc i) y (omega arith) e)
        (λ i y ge e. high (suc i) y (omega arith) e),
  )

  All-upsert :
      (P : ℤ → Type 0) (a : A) (xs : List A)
      → P (key_of a)
      → All P (map key_of xs)
      → All P (map key_of (upsert a xs))
  unfolding upsert
  All-upsert P a [] h all = (h, tt)
  All-upsert P a (x ∷ xs) h all = elim (Bool-cases (ltb_ℤ (key_of x) (key_of a))) [
    | inl lt ↦ rw lt (all.0, All-upsert P a xs h all.1)
    | inr ge ↦ elim (Bool-cases (eqb_ℤ (key_of a) (key_of x))) [
      | inl e ↦ rw (ge, e) (h, all.1)
      | inr ne ↦ rw (ge, ne) (h, (all.0, all.1))
    ]
  ]

  pub upsert-IsSorted :
      (a : A) (xs : List A) → IsSorted (map key_of xs) → IsSorted (map key_of (upsert a xs))
  unfolding upsert
  upsert-IsSorted a [] s = (tt, tt)
  upsert-IsSorted a (x ∷ xs) s = elim (Bool-cases (ltb_ℤ (key_of x) (key_of a))) [
    | inl lt ↦
        rw lt (All-upsert (λ j. key_of x <ℤ j) a xs (ground arith) s.0, upsert-IsSorted a xs s.1)
    | inr ge ↦ elim (Bool-cases (eqb_ℤ (key_of a) (key_of x))) [
      | inl e ↦ rw (ge, e) (All-le a x (ground arith) (map key_of xs) s.0, s.1)
      | inr ne ↦
          rw (ge, ne) ((ground arith, All-le a x (ground arith) (map key_of xs) s.0), (s.0, s.1))
    ]
  ]
    where
      All-le :
          (a x : A)
          → key_of a ≤ℤ key_of x
          → (ks : List ℤ) → All (λ j. key_of x <ℤ j) ks
          → All (λ j. key_of a <ℤ j) ks
      All-le a x le ks all = All-map ks (λ k lt. omega arith) all

pub IsSorted-take : (n : ℕ) (ks : List ℤ) → IsSorted ks → IsSorted (take n ks)
IsSorted-take n [] s = tt
IsSorted-take zero (k ∷ ks) s = tt
IsSorted-take (suc n) (k ∷ ks) s = (All-take (λ j. k <ℤ j) n ks s.0, IsSorted-take n ks s.1)

pub IsSorted-drop : (n : ℕ) (ks : List ℤ) → IsSorted ks → IsSorted (drop n ks)
unfolding drop
IsSorted-drop n [] s = tt
IsSorted-drop zero (k ∷ ks) s = s
IsSorted-drop (suc n) (k ∷ ks) s = IsSorted-drop n ks s.1

-- Where a sorted list is cut, the first key of the second part is above those of the first.
pub take-lt-drop :
    (n : ℕ) (ks rest : List ℤ) (k : ℤ)
    → IsSorted ks
    → drop n ks ≡ k ∷ rest
    → All (λ j. j <ℤ k) (take n ks)
unfolding drop
take-lt-drop n [] rest k s e = cc
take-lt-drop zero (j ∷ ks) rest k s e = tt
take-lt-drop (suc n) (j ∷ ks) rest k s e = (
  (subst (λ l. All (λ i. j <ℤ i) l) e (All-drop (λ i. j <ℤ i) n ks s.0)).0,
  take-lt-drop n ks rest k s.1 e,
)

module _ {A : Type 0} (key_of : A → ℤ) where
  -- A list in the order of its keys, with an element put in before the first with a key that is not
  -- below its own.
  unfoldable pub put : A → List A → List A
  put a [] = a ∷ []
  put a (x ∷ xs) = if ltb_ℤ (key_of x) (key_of a) then x ∷ put a xs else a ∷ x ∷ xs

  pub put-Splits :
      (a : A) (xs : List A) (r : ℕ)
      → r ≤ length xs
      → ((i : ℕ) (x : A) → i < r → get_elem? xs i ≡ some x → ltb_ℤ (key_of x) (key_of a) ≡ true)
      → ((i : ℕ) (x : A) → r ≤ i → get_elem? xs i ≡ some x → ltb_ℤ (key_of x) (key_of a) ≡ false)
      → put a xs ≡ insert_at xs r a
  unfolding put insert_at
  put-Splits a [] r le low high = refl
  put-Splits a (x ∷ xs) zero le low high = ground (arith, high 0 x (omega arith) refl)
  put-Splits a (x ∷ xs) (suc r) le low high = ground (
    arith,
    low 0 x (omega arith) refl,
    put-Splits a xs r (omega arith) (λ i y lt e. low (suc i) y (omega arith) e)
        (λ i y ge e. high (suc i) y (omega arith) e),
  )

  All-put :
      (P : ℤ → Type 0) (a : A) (xs : List A)
      → P (key_of a)
      → All P (map key_of xs)
      → All P (map key_of (put a xs))
  unfolding put
  All-put P a [] h all = (h, tt)
  All-put P a (x ∷ xs) h all = elim (Bool-cases (ltb_ℤ (key_of x) (key_of a))) [
    | inl lt ↦ rw lt (all.0, All-put P a xs h all.1)
    | inr ge ↦ rw ge (h, (all.0, all.1))
  ]

  -- A key that is new keeps the keys distinct and in order.
  pub put-IsSorted :
      (a : A) (xs : List A)
      → IsSorted (map key_of xs)
      → All (λ k. k ≢ key_of a) (map key_of xs)
      → IsSorted (map key_of (put a xs))
  unfolding put
  put-IsSorted a [] s new = (tt, tt)
  put-IsSorted a (x ∷ xs) s new = elim (Bool-cases (ltb_ℤ (key_of x) (key_of a))) [
    | inl lt ↦
        rw lt (All-put (λ j. key_of x <ℤ j) a xs (ground arith) s.0, put-IsSorted a xs s.1 new.1)
    | inr ge ↦
        let less : key_of a <ℤ key_of x = apart (key_of x) (key_of a) ge new.0 in
        rw ge ((less, All-map (map key_of xs) (λ k lt. omega (arith, less)) s.0), (s.0, s.1))
  ]
    where
      apart : (j k : ℤ) → ltb_ℤ j k ≡ false → j ≢ k → k <ℤ j
      apart j k h n = elim (dec_lt (pos_part k + neg_part j) (pos_part j + neg_part k)) [
        | yes lt ↦ lt
        | no ge ↦ absurd (n (eq_of_parts j k (ground arith)))
      ]
