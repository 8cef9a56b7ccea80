-- ===== src/ColumnStats/Edge.antt =====
-- `estimateCardinality` of src/db/ColumnStats.cpp at the end of the range.
use cs660_spring2025_pa.Base.{
  ℕ, zero, suc, Bool-cases, inl, inr, ◌+◌, ◌*◌, ◌/◌, ◌<◌, ◌≤◌, ◌≡◌, ◌≢◌, refl, sym, ap, ◌∙◌, true,
  false, ◌==◌, none, get_elem?, length, ok, throw, undefined, ◌>>=◌, List, [], ◌∷◌, arith,
}
use native.Mathlib.Nat.{mul-div_left}
use cs660_spring2025_pa.Base.Int.{ℤ, ltb_ℤ, ◌-ℤ◌, is_int, pos_part, neg_part}
use cs660_spring2025_pa.Double.{Double}
use cs660_spring2025_pa.Query.{PredicateOp}
use cs660_spring2025_pa.ColumnStats.{
  ColumnStats, sub_int, height, bucket_of, left_edge, partial, estimate_lt, estimate_cardinality,
}
use cs660_spring2025_pa.ColumnStats.Buckets.{IsExact, IsValid, bucket_of_lem, difference-eq-pos}

get_elem?-past : (xs : List ℕ) (i : ℕ) → length xs ≤ i → get_elem? xs i ≡ none
get_elem?-past [] i h = refl
get_elem?-past (x ∷ xs) zero h = absurd (omega arith)
get_elem?-past (x ∷ xs) (suc i) h = get_elem?-past xs i (omega arith)

module _ {S : Type 0} (a b : ℤ) (st : S) where
  sub_int_of_int : is_int (a -ℤ b) ≡ true → sub_int a b st ≡ ok (a -ℤ b) st
  unfolding sub_int
  sub_int_of_int h = rw h

  sub_int_overflow : is_int (a -ℤ b) ≡ false → sub_int a b st ≡ throw undefined st
  unfolding sub_int
  sub_int_overflow h = rw h

partial_outside :
    {S : Type 0} (fp : Double) (s : ColumnStats) (bucket : ℕ) (values : ℤ) (st : S)
    → get_elem? s.histogram bucket ≡ none
    → partial fp s bucket values st ≡ throw undefined st
unfolding partial height
partial_outside fp s bucket values st h = rw h

module _ (fp : Double) (exact : IsExact fp) (s : ColumnStats) (valid : IsValid fp s) where
  -- On a valid histogram that holds a value, and whose buckets end where the range ends, the estimate
  -- for `LT` and the greatest value of the range is undefined: its bucket is one place behind the
  -- histogram.
  pub estimate-max :
      {S : Type 0} (st : S)
      → s.total_count ≢ 0
      → 0 < valid.range
      → s.buckets * valid.width ≡ valid.range
      → estimate_cardinality fp s PredicateOp.lt s.max st ≡ throw undefined st
  unfolding estimate_cardinality estimate_lt
  estimate-max st some_values some_range ends =
      let found = bucket_of_lem fp exact s valid s.max st valid.range valid.spans valid.small in
      let bucket : valid.range / valid.width ≡ s.buckets =
        ap (λ (n : ℕ). n / valid.width) (sym ends) ∙ mul-div_left s.buckets valid.positive in
      let at : bucket_of fp s s.max st ≡ ok s.buckets st = found ∙ ap (λ (b : ℕ). ok b st) bucket in
      let whole =
        difference-eq-pos (pos_part s.max + neg_part s.min) (neg_part s.max + pos_part s.min)
          valid.range valid.spans in
      let counted : (s.total_count == 0) ≡ false = ground arith in
      let above : ltb_ℤ s.min s.max ≡ true = ground arith in
      let not_past : ltb_ℤ s.max s.max ≡ false = ground arith in
      let outside : get_elem? s.histogram s.buckets ≡ none =
        get_elem?-past s.histogram s.buckets (omega (arith, valid.size)) in
      let edge : ℤ = left_edge fp s s.buckets in
      elim (Bool-cases (is_int (s.max -ℤ edge))) [
        | inl near ↦ rw (
          counted,
          above,
          not_past,
          ◌>>=◌,
          at,
          sub_int_of_int s.max edge st near,
          partial_outside fp s s.buckets (s.max -ℤ edge) st outside,
        )
        | inr far ↦ rw (counted, above, not_past, ◌>>=◌, at, sub_int_overflow s.max edge st far)
      ]
