-- ===== src/Query/Select.antt =====
-- `projection` and `filter` of src/db/Query.cpp against lists of rows.
use cs660_spring2025_pa.Base.{
  ℕ, ◌≤◌, ◌≡◌, refl, subst, Bool, true, false, ◌&&◌, List, [], ◌∷◌, ◌++◌, map, none, some, length,
  All, flat_map-map, ok, Returns, ◌>>=◌,
}
use cs660_spring2025_pa.Tuple.{Tuple, TupleDesc, Name}
use cs660_spring2025_pa.Iterator.{Iterator}
use cs660_spring2025_pa.Double.{Double}
use cs660_spring2025_pa.Table.{Table}
use cs660_spring2025_pa.Table.Scan.{IsScan, IsSink, for_each-flat_map}
use cs660_spring2025_pa.Query.{FilterPredicate, compare, fields_of, projection}
use cs660_spring2025_pa.Query.Compare.{named, HasField, field_of_lem}

-- The row that `projection` makes of a row.
unfoldable pub project : TupleDesc → List Name → Tuple → Tuple
project td [] t = []
project td (name ∷ names) t = elim (named td t name) [
  | none ↦ project td names t
  | some field ↦ field ∷ project td names t
]

-- A row satisfies a predicate, and all predicates.
unfoldable pub holds : Double → TupleDesc → Tuple → FilterPredicate → Bool
holds fp td t p = elim (named td t p.field_name) [
  | none ↦ false
  | some field ↦ compare fp field p.value p.op
]

abbrev pub satisfies : Double → TupleDesc → List FilterPredicate → Tuple → Bool
satisfies fp td [] t = true
satisfies fp td (p ∷ pred) t = holds fp td t p && satisfies fp td pred t

module _ {S : Type 0} where
  fields_of_lem :
      (td : TupleDesc) (t : Tuple) (names : List Name) (s : S)
      → All (λ name. HasField td name t) names
      → fields_of td t names s ≡ ok (project td names t) s
  unfolding fields_of project
  fields_of_lem td t [] s h = refl
  fields_of_lem td t (name ∷ names) s ((field, e), more) =
      rw (◌>>=◌, field_of_lem td t name field s e, fields_of_lem td t names s more, project, e)

module _ {S : Type 0} (Inv : List Tuple → S → Type 0) (inp out : Table S)
    (At : Iterator → List Tuple → Type 0) (rows : List Tuple) (Accepts : Tuple → Type 0)
    (scan : IsScan Inv inp At rows) (sink : IsSink Inv out Accepts) where
  -- `projection` with at least as many rounds as the input has rows, where every row has the fields
  -- and the output takes the projected rows: it returns, and what it has inserted is the list of the
  -- projections of the rows, in their order.
  pub projection_lem :
      (names : List Name) (fuel : ℕ) (done : List Tuple) (s : S)
      → length rows ≤ fuel
      → All
          (λ t. All (λ name. HasField inp.td name t) names × Accepts (project inp.td names t))
          rows
      → Inv done s
      → Returns
          (projection fuel inp out names)
          s
          (λ _ s'. Inv (done ++ map (project inp.td names) rows) s')
  unfolding projection
  projection_lem names fuel done s enough fine inv =
      subst (λ l. Returns (projection fuel inp out names) s (λ _ s'. Inv (done ++ l) s'))
        (flat_map-map (project inp.td names) rows)
        (for_each-flat_map Inv inp At rows scan _ (λ t. project inp.td names t ∷ []) _
          (λ t behind s1 (has, accepts) i.
            let (b, s2, run, i2) = sink.inserts behind s1 (project inp.td names t) i accepts in
            (b, s2, rw (◌>>=◌, fields_of_lem inp.td t names s1 has) run, i2))
          fuel done s enough fine inv)
