-- ===== src/Query/Aggregate/Results.antt =====
-- The result of a group of `aggregate` in src/db/Query.cpp, for a field of type `int`.
use cs660_spring2025_pa.Base.{
  ℕ, zero, suc, ◌%◌, ◌^◌, ◌<◌, ◌≡◌, ◌⊎◌, inl, inr, refl, sym, ap, ◌∙◌, Bool, true, false, List, [],
  ◌∷◌, map, some, length, length-map, All, get_elem?, if◌then◌else◌, Bool-cases, ok, throw,
  undefined, ◌>>=◌, pure, arith,
}
use cs660_spring2025_pa.Base.Int.{ℤ, pos, ◌+ℤ◌, ◌≤ℤ◌, ltb_ℤ, is_int, of_u32}
use cs660_spring2025_pa.Tuple.{Field}
use cs660_spring2025_pa.Double.{Double}
use cs660_spring2025_pa.Query.Aggregate.{
  AggregateOp, std_min, std_max, get_int, fold_vals, add_int, extreme, sum_of, result_of,
}

abbrev pub ints : List ℤ → List Field
ints zs = map (λ z. Field.int z) zs

-- The sum from `a` on, and whether every sum on the way is an `int`.
abbrev pub total : ℤ → List ℤ → ℤ
total a [] = a
total a (z ∷ zs) = total (a +ℤ z) zs

abbrev pub fits : ℤ → List ℤ → Bool
fits a [] = true
fits a (z ∷ zs) = if is_int (a +ℤ z) then fits (a +ℤ z) zs else false

-- `m` is in the list, and the test holds of it and each element.
pub record IsExtreme (below : ℤ → ℤ → Type 0) (zs : List ℤ) (m : ℤ) : Type 0 where
  pub member : (i : ℕ) × (get_elem? zs i ≡ some m)
  pub bound : All (below m) zs

abbrev pick_all : (ℤ → ℤ → ℤ) → ℤ → List ℤ → ℤ
pick_all pick a [] = a
pick_all pick a (z ∷ zs) = pick_all pick (pick a z) zs

module _ {S : Type 0} where
  fold_ints :
      (pick : ℤ → ℤ → ℤ) (zs : List ℤ) (a : ℤ) (s : S)
      → fold_vals get_int (λ x y. pure (pick x y)) (ints zs) a s ≡ ok (pick_all pick a zs) s
  unfolding fold_vals get_int
  fold_ints pick [] a s = refl
  fold_ints pick (z ∷ zs) a s = fold_ints pick zs (pick a z) s

  fold_sum :
      (zs : List ℤ) (a : ℤ) (s : S)
      → fold_vals get_int add_int (ints zs) a s
        ≡ (if fits a zs then ok (total a zs) s else throw undefined s)
  unfolding fold_vals get_int add_int
  fold_sum [] a s = refl
  fold_sum (z ∷ zs) a s = elim (Bool-cases (is_int (a +ℤ z))) [
    | inl h ↦ rw (h, ◌>>=◌) (fold_sum zs (a +ℤ z) s)
    | inr h ↦ rw (h, ◌>>=◌)
  ]

in_tail :
    (a z : ℤ) (zs : List ℤ) (m : ℤ) {x : ℤ}
    → (x ≡ a) ⊎ (x ≡ z)
    → ((i : ℕ) × (get_elem? (x ∷ zs) i ≡ some m))
    → (i : ℕ) × (get_elem? (a ∷ z ∷ zs) i ≡ some m)
in_tail a z zs m (inl h) (zero, e) = (0, ap some (sym h) ∙ e)
in_tail a z zs m (inr h) (zero, e) = (1, ap some (sym h) ∙ e)
in_tail a z zs m h (suc i, e) = (suc (suc i), e)

-- The loop starts from the first value and reads it again.
from_first :
    {below : ℤ → ℤ → Type 0} (a : ℤ) (zs : List ℤ) (m : ℤ)
    → IsExtreme below (a ∷ a ∷ zs) m
    → IsExtreme below (a ∷ zs) m
from_first a zs m r = record { member = once r.member; bound = r.bound.1 }
  where
    once :
        ((i : ℕ) × (get_elem? (a ∷ a ∷ zs) i ≡ some m)) → (i : ℕ) × (get_elem? (a ∷ zs) i ≡ some m)
    once (zero, e) = (0, e)
    once (suc i, e) = (i, e)

-- A choice of two that is one of them, and that a reflexive and transitive test puts below both.
module _ (below : ℤ → ℤ → Type 0) (pick : ℤ → ℤ → ℤ)
    (below_trans : (a b c : ℤ) → below a b → below b c → below a c)
    (below_refl : (a : ℤ) → below a a) (one_of : (a b : ℤ) → (pick a b ≡ a) ⊎ (pick a b ≡ b))
    (under : (a b : ℤ) → below (pick a b) a × below (pick a b) b) where
  pick_all-IsExtreme : (a : ℤ) (zs : List ℤ) → IsExtreme below (a ∷ zs) (pick_all pick a zs)
  pick_all-IsExtreme a [] = record { member = (0, refl); bound = (below_refl a, tt) }
  pick_all-IsExtreme a (z ∷ zs) =
      let rest = pick_all-IsExtreme (pick a z) zs in
      let m : ℤ = pick_all pick (pick a z) zs in
      let first = rest.bound.0 in
      record {
        member = in_tail a z zs m (one_of a z) rest.member;
        bound = (
          below_trans m (pick a z) a first (under a z).0,
          (below_trans m (pick a z) z first (under a z).1, rest.bound.1),
        );
      }

least : (a : ℤ) (zs : List ℤ) → IsExtreme ◌≤ℤ◌ (a ∷ zs) (pick_all (std_min ltb_ℤ) a zs)
unfolding std_min
least a zs =
    pick_all-IsExtreme ◌≤ℤ◌ (std_min ltb_ℤ) (λ x y z h k. omega arith) (λ x. omega arith)
      (λ x y. ground arith) (λ x y. ground arith) a zs

greatest :
    (a : ℤ) (zs : List ℤ) → IsExtreme (λ m z. z ≤ℤ m) (a ∷ zs) (pick_all (std_max ltb_ℤ) a zs)
unfolding std_max
greatest a zs =
    pick_all-IsExtreme (λ m z. z ≤ℤ m) (std_max ltb_ℤ) (λ x y z h k. omega arith) (λ x. omega arith)
      (λ x y. ground arith) (λ x y. ground arith) a zs

count_of : (zs : List ℤ) → length zs < 2 ^ 31 → of_u32 (length (ints zs) % 2 ^ 32) ≡ pos (length zs)
unfolding of_u32
count_of zs h = rw (length-map (λ z. Field.int z) zs) (ground arith)

module _ {S : Type 0} (fp : Double) (a : ℤ) (zs : List ℤ) (s : S) where
  -- The result of a group of one or more `int` values: `MIN` is the least of them and `MAX` the
  -- greatest; `SUM` is their sum, or undefined behaviour where a sum on the way is no `int`; `COUNT`
  -- is their number if that is below 2^31.
  pub result_of-ints :
      ((m : ℤ) × (result_of fp AggregateOp.min (ints (a ∷ zs)) s ≡ ok (Field.int m) s)
        × IsExtreme ◌≤ℤ◌ (a ∷ zs) m)
      × ((m : ℤ) × (result_of fp AggregateOp.max (ints (a ∷ zs)) s ≡ ok (Field.int m) s)
          × IsExtreme (λ m z. z ≤ℤ m) (a ∷ zs) m)
      × (result_of fp AggregateOp.sum (ints (a ∷ zs)) s ≡ (
          if fits (pos 0) (a ∷ zs)
          then ok (Field.int (total (pos 0) (a ∷ zs))) s
          else throw undefined s))
      × (length (a ∷ zs) < 2 ^ 31
          → result_of fp AggregateOp.count (ints (a ∷ zs)) s
            ≡ ok (Field.int (pos (length (a ∷ zs)))) s)
  unfolding result_of extreme sum_of
  result_of-ints =
      let least_of : ℤ = pick_all (std_min ltb_ℤ) a (a ∷ zs) in
      let greatest_of : ℤ = pick_all (std_max ltb_ℤ) a (a ∷ zs) in
      (
        (
          least_of,
          rw (◌>>=◌, fold_ints (std_min ltb_ℤ) (a ∷ zs) a s),
          from_first a zs least_of (least a (a ∷ zs)),
        ),
        (
          greatest_of,
          rw (◌>>=◌, fold_ints (std_max ltb_ℤ) (a ∷ zs) a s),
          from_first a zs greatest_of (greatest a (a ∷ zs)),
        ),
        (elim (Bool-cases (fits (pos 0) (a ∷ zs))) [
          | inl h ↦ rw (◌>>=◌, fold_sum (a ∷ zs) (pos 0) s, h)
          | inr h ↦ rw (◌>>=◌, fold_sum (a ∷ zs) (pos 0) s, h)
        ]),
        λ small. ap (λ z. ok (Field.int z) s) (count_of (a ∷ zs) small),
      )
