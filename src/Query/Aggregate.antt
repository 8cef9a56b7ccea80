-- ===== src/Query/Aggregate.antt =====
-- `aggregate` of src/db/Query.cpp: the rows are collected into groups, then each group gives a row.
-- `groups` is a vector in memory; the loops over it and over `vals` are recursion on the list.
pub mod Groups
pub mod Results
pub mod Rows
use cs660_spring2025_pa.Base.{
  ℕ, zero, suc, ◌%◌, ◌^◌, Bool, true, false, List, [], ◌∷◌, ◌++◌, Option, none, some, length,
  if◌then◌else◌, M, ◌>>=◌, ◌>>◌, pure, fail, logic_error, bad_variant_access, undefined,
}
use cs660_spring2025_pa.Base.Int.{ℤ, pos, ltb_ℤ, eqb_ℤ, ◌+ℤ◌, is_int, of_u32}
use cs660_spring2025_pa.Tuple.{Field, Tuple, Name, get_field, index_of}
use cs660_spring2025_pa.Double.{Double}
use cs660_spring2025_pa.Table.{Table, for_each}
use cs660_spring2025_pa.Query.{ltb_string, eqb_string}

pub data AggregateOp : Type 0 where
  sum avg min max count : AggregateOp

pub record Aggregate : Type 0 where
  pub group : Option Name
  pub op : AggregateOp
  pub field : Name

pub record Group : Type 0 where
  pub key : Field
  pub vals : List Field

-- `std::min` and `std::max` on a type with the test `<`.
unfoldable pub std_min : {A : Type 0} → (A → A → Bool) → A → A → A
std_min lt a b = if lt b a then b else a

unfoldable pub std_max : {A : Type 0} → (A → A → Bool) → A → A → A
std_max lt a b = if lt a b then b else a

module _ {S : Type 0} where
  -- `std::get`.
  unfoldable pub get_int : Field → M S ℤ
  get_int (Field.int z) = pure z
  get_int f = fail bad_variant_access

  unfoldable pub get_double : Field → M S ℕ
  get_double (Field.double d) = pure d
  get_double f = fail bad_variant_access

  unfoldable pub get_string : Field → M S (List ℕ)
  get_string (Field.string s) = pure s
  get_string f = fail bad_variant_access

  -- `for (auto &v : vals) m = step(m, read(v));`.
  unfoldable pub fold_vals :
      {A : Type 0} → (Field → M S A) → (A → A → M S A) → List Field → A → M S A
  fold_vals read step [] m = pure m
  fold_vals read step (v ∷ vals) m = do x ← read v; m' ← step m x; fold_vals read step vals m'

  -- `+=` of an `int`.
  unfoldable pub add_int : ℤ → ℤ → M S ℤ
  add_int a b = if is_int (a +ℤ b) then pure (a +ℤ b) else fail undefined

module _ (fp : Double) where
  -- `operator==` of `field_t`.
  unfoldable pub eq_field : Field → Field → Bool
  eq_field (Field.int a) (Field.int b) = eqb_ℤ a b
  eq_field (Field.double a) (Field.double b) = fp.eq a b
  eq_field (Field.string a) (Field.string b) = eqb_string a b
  eq_field a b = false

  -- The loop over the groups for a row: the first group with the key takes the value.
  unfoldable pub add_grouped : Field → Field → List Group → List Group
  add_grouped key val [] = record { key = key; vals = val ∷ [] } ∷ []
  add_grouped key val (g ∷ groups) =
      let rest = add_grouped key val groups in
      if eq_field g.key key
      then record { key = g.key; vals = g.vals ++ val ∷ [] } ∷ groups
      else g ∷ rest

  module _ {S : Type 0} where
    unfoldable pub to_double : Field → M S ℕ
    to_double (Field.int z) = pure (fp.of_int z)
    to_double (Field.double d) = pure d
    to_double (Field.string s) = fail logic_error

    -- The case `MIN` or `MAX`, for a group whose first value is given.
    unfoldable pub extreme :
        ((A : Type 0) → (A → A → Bool) → A → A → A) → Field → List Field → M S Field
    extreme pick (Field.int z) vals = do
      m ← fold_vals get_int (λ a b. pure (pick ℤ ltb_ℤ a b)) vals z
      pure (Field.int m)
    extreme pick (Field.double d) vals = do
      m ← fold_vals get_double (λ a b. pure (pick ℕ fp.lt a b)) vals d
      pure (Field.double m)
    extreme pick (Field.string s) vals = do
      m ← fold_vals get_string (λ a b. pure (pick (List ℕ) ltb_string a b)) vals s
      pure (Field.string m)

    -- The cases `SUM` and `AVG`.
    unfoldable pub sum_of : Field → List Field → M S Field
    sum_of (Field.int z) vals = do
      total ← fold_vals get_int add_int vals (pos 0)
      pure (Field.int total)
    sum_of (Field.double d) vals = do
      total ← fold_vals get_double (λ a b. pure (fp.add a b)) vals 0
      pure (Field.double total)
    sum_of (Field.string s) vals = fail logic_error

    unfoldable pub average_of : Field → List Field → M S Field
    average_of (Field.string s) vals = fail logic_error
    average_of first vals = do
      total ← fold_vals to_double (λ a b. pure (fp.add a b)) vals 0
      pure (Field.double (fp.div total (fp.of_size (length vals))))

    -- The `switch`; `vals[0]` of no values would be undefined.
    unfoldable pub result_of : AggregateOp → List Field → M S Field
    result_of AggregateOp.count vals = pure (Field.int (of_u32 (length vals % 2 ^ 32)))
    result_of op [] = fail undefined
    result_of AggregateOp.sum (v ∷ vals) = sum_of v (v ∷ vals)
    result_of AggregateOp.avg (v ∷ vals) = average_of v (v ∷ vals)
    result_of AggregateOp.min (v ∷ vals) = extreme (λ A. std_min {A = A}) v (v ∷ vals)
    result_of AggregateOp.max (v ∷ vals) = extreme (λ A. std_max {A = A}) v (v ∷ vals)

-- The group of a row where there is no group field.
unfoldable pub add_ungrouped : Field → Field → List Group → List Group
add_ungrouped key val [] = record { key = key; vals = val ∷ [] } ∷ []
add_ungrouped key val (g ∷ groups) = record { key = g.key; vals = g.vals ++ val ∷ [] } ∷ groups

-- `Tuple(outFields)` for a group and its result.
unfoldable pub out_fields : Option Name → Group → Field → Tuple
out_fields none g result = result ∷ []
out_fields (some name) g result = g.key ∷ result ∷ []

unfoldable pub group_index_of : {S : Type 0} → Table S → Aggregate → M S (Option ℕ)
group_index_of inp agg = elim agg.group [
  | none ↦ pure none
  | some name ↦ (do i ← index_of inp.td name; pure (some i))
]

module _ {S : Type 0} (fp : Double) where
  -- The body of the loop that collects; `field_t()` is the `int` 0.
  unfoldable pub collect_row : Option ℕ → ℕ → Tuple → List Group → M S (List Group)
  collect_row none val_index t groups = do
    val ← get_field t val_index
    pure (add_ungrouped (Field.int (pos 0)) val groups)
  collect_row (some group_index) val_index t groups = do
    key ← get_field t group_index
    val ← get_field t val_index
    pure (add_grouped fp key val groups)

  -- The loop that computes and emits.
  unfoldable pub emit : Table S → Aggregate → List Group → M S (Unit {0})
  emit out agg [] = pure tt
  emit out agg (g ∷ groups) = do
    result ← result_of fp agg.op g.vals
    out.insert_tuple (out_fields agg.group g result)
    emit out agg groups

  -- The loop that collects the values per group.
  unfoldable pub collect_groups : ℕ → Table S → Option ℕ → ℕ → M S (List Group)
  collect_groups fuel inp group_index val_index = do
    it ← inp.begin
    for_each inp (collect_row group_index val_index) fuel it []

  unfoldable pub aggregate : ℕ → Table S → Table S → Aggregate → M S (Unit {0})
  aggregate fuel inp out agg = do
    group_index ← group_index_of inp agg
    val_index ← index_of inp.td agg.field
    groups ← collect_groups fuel inp group_index val_index
    emit out agg groups
