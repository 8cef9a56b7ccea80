-- ===== src/Tests/Queries.antt =====
-- The query operators on the heap files of a catalog.
use cs660_spring2025_pa.Base.{
  ◌≡◌, refl, ◌+◌, ◌-◌, ◌*◌, ◌/◌, ◌==◌, ltb, leb, List, [], ◌∷◌, length, some, ok, undefined,
  Returns, arith, map, ◌<◌, ◌^◌, throw, ℕ_discrete, if◌then◌else◌,
}
use cs660_spring2025_pa.Base.Int.{ℤ, pos, negsuc, pos_part, ◌≤ℤ◌, IsInt}
use cs660_spring2025_pa.Base.Assoc.{lookup}
use cs660_spring2025_pa.Tuple.{
  Field, FieldType, Tuple, TupleDesc, FieldType-discrete, Name-discrete, desc_length, compatible,
}
use cs660_spring2025_pa.Double.{Double}
use cs660_spring2025_pa.Table.Scan.{IsScan, IsSink}
use cs660_spring2025_pa.Table.HeapSink.{Takes}
use cs660_spring2025_pa.HeapPage.{wrap}
use cs660_spring2025_pa.Tests.Heaps.{
  int_pair, row_1, row_2, start, State, started, in_table, out_table, Ahead, laws,
}
use cs660_spring2025_pa.Query.{eqb_string, PredicateOp, FilterPredicate, JoinPredicate, projection}
use cs660_spring2025_pa.Query.Compare.{named}
use cs660_spring2025_pa.Query.Aggregate.{
  Aggregate, AggregateOp, aggregate, out_fields, result_of, extreme, fold_vals, get_int, eq_field,
  std_max,
}
use cs660_spring2025_pa.Query.Aggregate.Rows.{groups_with, aggregate_lem}
use cs660_spring2025_pa.Query.Aggregate.Results.{ints, total, fits, IsExtreme, result_of-ints}
use cs660_spring2025_pa.Query.Select.{project, projection_lem}

-- Doubles as whole numbers.
abbrev pub whole : Double
whole = record {
  eq = ◌==◌;
  lt = ltb;
  le = leb;
  add = ◌+◌;
  sub = ◌-◌;
  mul = ◌*◌;
  div = ◌/◌;
  of_int = pos_part;
  of_size = λ n. n;
  to_size = λ n. n;
  to_int = λ n. pos n;
}

abbrev rows : List Tuple
rows = row_1 ∷ row_2 ∷ []

abbrev one_int : TupleDesc
one_int = record { types = FieldType.int ∷ []; offsets = []; name_to_index = [] }

one_int-laws :
    IsScan (State one_int) (in_table one_int) (Ahead one_int) rows
    × IsSink (State one_int) (out_table one_int) (Takes one_int)
unfolding wrap desc_length
one_int-laws = laws one_int (omega arith)

int_pair-laws :
    IsScan (State int_pair) (in_table int_pair) (Ahead int_pair) rows
    × IsSink (State int_pair) (out_table int_pair) (Takes int_pair)
unfolding wrap desc_length
int_pair-laws = laws int_pair (omega arith)

abbrev three_ints : TupleDesc
three_ints = record {
  types = FieldType.int ∷ FieldType.int ∷ FieldType.int ∷ [];
  offsets = [];
  name_to_index = [];
}

one_int-Takes : (z : ℤ) → IsInt z → Takes one_int (Field.int z ∷ [])
unfolding compatible FieldType-discrete
one_int-Takes z h = (ground arith, (h, tt))

int_pair-Takes : (y z : ℤ) → IsInt y → IsInt z → Takes int_pair (Field.int y ∷ Field.int z ∷ [])
unfolding compatible FieldType-discrete
int_pair-Takes y z h k = (ground arith, (h, (k, tt)))

projection_lem_example :
    Returns
      (projection 2 (in_table one_int) (out_table one_int) ((2 ∷ []) ∷ []))
      (start one_int)
      (λ _ s. State one_int (map (project int_pair ((2 ∷ []) ∷ [])) rows) s)
unfolding named lookup Name-discrete ℕ_discrete project
projection_lem_example =
    projection_lem (State one_int) (in_table one_int) (out_table one_int) (Ahead one_int) rows
      (Takes one_int) (one_int-laws.0) (one_int-laws.1) ((2 ∷ []) ∷ []) 2 [] (start one_int)
      (omega arith)
      (
        (((_, refl), tt), one_int-Takes (pos 7) (omega arith)),
        ((((_, refl), tt), one_int-Takes (pos 9) (omega arith)), tt),
      )
      (started one_int)

abbrev above_7 : List FilterPredicate
above_7 = record { field_name = 2 ∷ []; op = PredicateOp.gt; value = Field.int (pos 7) } ∷ []

abbrev by_number : JoinPredicate
by_number = record { left = 1 ∷ []; op = PredicateOp.eq; right = 1 ∷ [] }

abbrev most : Aggregate
most = record { group = some (1 ∷ []); op = AggregateOp.max; field = 2 ∷ [] }

-- The one group of `most` has the values 7 and 9.
abbrev largest : List Field → Field
largest vals = Field.int (pos 9)

abbrev pairs : List (Field × Field)
pairs = (Field.int (pos 3), Field.int (pos 7)) ∷ (Field.int (pos 3), Field.int (pos 9)) ∷ []

aggregate_lem_example :
    Returns
      (aggregate whole 2 (in_table int_pair) (out_table int_pair) most)
      (start int_pair)
      (λ _ s.
        State int_pair
          (map (λ g. out_fields most.group g (largest g.vals)) (groups_with whole (some 0) pairs))
          s)
unfolding lookup Name-discrete ℕ_discrete result_of extreme fold_vals get_int eq_field eqb_string
    std_max out_fields
aggregate_lem_example =
    aggregate_lem (State int_pair) (out_table int_pair) (Takes int_pair) (int_pair-laws.1) whole
      most largest (in_table int_pair) (Ahead int_pair) rows (int_pair-laws.0) (some 0) 1 2 pairs []
      (start int_pair) refl refl (omega arith) ((refl, refl), ((refl, refl), tt)) (tt, (tt, tt))
      ((λ s. refl, int_pair-Takes (pos 3) (pos 9) (omega arith) (omega arith)), tt)
      (started int_pair)

abbrev numbers : List ℤ
numbers = pos 7 ∷ negsuc 1 ∷ []

result_of-ints_example :
    ((m : ℤ) × (result_of whole AggregateOp.min (ints (pos 3 ∷ numbers)) (tt {0})
        ≡ ok (Field.int m) tt)
      × IsExtreme ◌≤ℤ◌ (pos 3 ∷ numbers) m)
    × ((m : ℤ) × (result_of whole AggregateOp.max (ints (pos 3 ∷ numbers)) (tt {0})
          ≡ ok (Field.int m) tt)
        × IsExtreme (λ m z. z ≤ℤ m) (pos 3 ∷ numbers) m)
    × (result_of whole AggregateOp.sum (ints (pos 3 ∷ numbers)) (tt {0}) ≡ (
        if fits (pos 0) (pos 3 ∷ numbers)
        then ok (Field.int (total (pos 0) (pos 3 ∷ numbers))) tt
        else throw undefined tt))
    × (length (pos 3 ∷ numbers) < 2 ^ 31
        → result_of whole AggregateOp.count (ints (pos 3 ∷ numbers)) (tt {0})
          ≡ ok (Field.int (pos (length (pos 3 ∷ numbers)))) tt)
result_of-ints_example = result_of-ints whole (pos 3) numbers tt
