-- ===== src/Query.antt =====
-- include/db/Query.hpp and src/db/Query.cpp: the operators on tables. The input and output files are
-- `Table`s on one state. The arithmetic of `double` is a parameter.
--
-- Each loop over a file has `fuel` rounds at most; the theorems ask for as many as the file has rows.
pub mod Compare
pub mod Select
pub mod Join
pub mod Aggregate
use cs660_spring2025_pa.Base.{
  ℕ, zero, suc, Bool, true, false, not, ◌&&◌, List, [], ◌∷◌, ◌++◌, Option, ltb, ◌==◌, if◌then◌else◌,
  M, ◌>>=◌, ◌>>◌, pure,
}
use cs660_spring2025_pa.Base.Int.{ℤ, ltb_ℤ, eqb_ℤ}
use cs660_spring2025_pa.Tuple.{Field, Tuple, TupleDesc, Name, get_field, index_of, desc_size}
use cs660_spring2025_pa.Double.{Double}
use cs660_spring2025_pa.Table.{Table, for_each}

pub data PredicateOp : Type 0 where
  eq ne lt le gt ge : PredicateOp

pub record FilterPredicate : Type 0 where
  pub field_name : Name
  pub op : PredicateOp
  pub value : Field

pub record JoinPredicate : Type 0 where
  pub left : Name
  pub op : PredicateOp
  pub right : Name

-- `operator<` and `operator==` of `std::string`.
unfoldable pub ltb_string : List ℕ → List ℕ → Bool
ltb_string s [] = false
ltb_string [] (d ∷ t) = true
ltb_string (c ∷ s) (d ∷ t) =
    let rest = ltb_string s t in if ltb c d then true else if ltb d c then false else rest

unfoldable pub eqb_string : List ℕ → List ℕ → Bool
eqb_string [] [] = true
eqb_string [] (d ∷ t) = false
eqb_string (c ∷ s) [] = false
eqb_string (c ∷ s) (d ∷ t) = (c == d) && eqb_string s t

-- The three overloads of `FieldVisitor` for values of one type.
unfoldable pub visit_int : PredicateOp → ℤ → ℤ → Bool
visit_int PredicateOp.eq a b = eqb_ℤ a b
visit_int PredicateOp.ne a b = not (eqb_ℤ a b)
visit_int PredicateOp.gt a b = ltb_ℤ b a
visit_int PredicateOp.ge a b = not (ltb_ℤ a b)
visit_int PredicateOp.lt a b = ltb_ℤ a b
visit_int PredicateOp.le a b = not (ltb_ℤ b a)

unfoldable pub visit_string : PredicateOp → List ℕ → List ℕ → Bool
visit_string PredicateOp.eq a b = eqb_string a b
visit_string PredicateOp.ne a b = not (eqb_string a b)
visit_string PredicateOp.gt a b = ltb_string b a
visit_string PredicateOp.ge a b = not (ltb_string a b)
visit_string PredicateOp.lt a b = ltb_string a b
visit_string PredicateOp.le a b = not (ltb_string b a)

unfoldable pub is_eq : PredicateOp → Bool
is_eq PredicateOp.eq = true
is_eq op = false

module _ (fp : Double) where
  unfoldable pub visit_double : PredicateOp → ℕ → ℕ → Bool
  visit_double PredicateOp.eq a b = fp.eq a b
  visit_double PredicateOp.ne a b = not (fp.eq a b)
  visit_double PredicateOp.gt a b = fp.lt b a
  visit_double PredicateOp.ge a b = fp.le b a
  visit_double PredicateOp.lt a b = fp.lt a b
  visit_double PredicateOp.le a b = fp.le a b

  -- Values of two types go to the template, which says no.
  unfoldable pub compare : Field → Field → PredicateOp → Bool
  compare (Field.int a) (Field.int b) op = visit_int op a b
  compare (Field.double a) (Field.double b) op = visit_double op a b
  compare (Field.string a) (Field.string b) op = visit_string op a b
  compare a b op = false

module _ {S : Type 0} where
  -- `t.get_field(td.index_of(name))`.
  unfoldable pub field_of : TupleDesc → Tuple → Name → M S Field
  field_of td t name = do i ← index_of td name; get_field t i

  -- The inner loop of `projection`.
  unfoldable pub fields_of : TupleDesc → Tuple → List Name → M S Tuple
  unfolding field_of
  fields_of td t [] = pure []
  fields_of td t (name ∷ names) = do
    field ← field_of td t name
    rest ← fields_of td t names
    pure (field ∷ rest)

  unfoldable pub projection : ℕ → Table S → Table S → List Name → M S (Unit {0})
  projection fuel inp out field_names = do
    it ← inp.begin
    for_each inp (λ t _. fields_of inp.td t field_names >>= out.insert_tuple) fuel it tt

  -- `std::all_of` over the predicates of `filter`: it stops at the first that does not hold.
  unfoldable pub all_of : Double → TupleDesc → Tuple → List FilterPredicate → M S Bool
  unfolding field_of
  all_of fp td t [] = pure true
  all_of fp td t (p ∷ pred) = do
    field ← field_of td t p.field_name
    if compare fp field p.value p.op then all_of fp td t pred else pure false

  unfoldable pub filter : Double → ℕ → Table S → Table S → List FilterPredicate → M S (Unit {0})
  filter fp fuel inp out pred = do
    it ← inp.begin
    for_each inp
        (λ t _. do keep ← all_of fp inp.td t pred; if keep then out.insert_tuple t else pure tt)
        fuel it tt

  -- The two loops of `join` that push fields, from index `i`; `skip` is the test of the second.
  unfoldable pub push_fields : (ℕ → Bool) → Tuple → ℕ → ℕ → M S Tuple
  push_fields skip t zero i = pure []
  push_fields skip t (suc n) i = do
    fields ← (if skip i then pure [] else (do field ← get_field t i; pure (field ∷ [])))
    rest ← push_fields skip t n (suc i)
    pure (fields ++ rest)

  -- The body of the inner loop of `join`.
  unfoldable pub join_rows :
      Double → Table S → Table S → Table S → PredicateOp → ℕ → ℕ → Tuple → Tuple → M S (Unit {0})
  join_rows fp left right out op lidx ridx l_tuple r_tuple = do
    a ← get_field l_tuple lidx
    b ← get_field r_tuple ridx
    if compare fp a b op
        then (do
          fields ← push_fields (λ i. false) l_tuple (desc_size left.td) 0
          others ← push_fields (λ i. is_eq op && (i == ridx)) r_tuple (desc_size right.td) 0
          out.insert_tuple (fields ++ others))
        else pure tt

  -- The body of the outer loop.
  unfoldable pub join_row_with :
      Double → ℕ → Table S → Table S → Table S → PredicateOp → ℕ → ℕ → Tuple → M S (Unit {0})
  join_row_with fp fuel left right out op lidx ridx l_tuple = do
    rit ← right.begin
    for_each right (λ r_tuple _. join_rows fp left right out op lidx ridx l_tuple r_tuple) fuel rit
        tt

  unfoldable pub join : Double → ℕ → Table S → Table S → Table S → JoinPredicate → M S (Unit {0})
  join fp fuel left right out pred = do
    lidx ← index_of left.td pred.left
    ridx ← index_of right.td pred.right
    lit ← left.begin
    for_each left (λ l_tuple _. join_row_with fp fuel left right out pred.op lidx ridx l_tuple) fuel
        lit tt
