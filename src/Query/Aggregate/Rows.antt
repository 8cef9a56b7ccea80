-- ===== src/Query/Aggregate/Rows.antt =====
-- `aggregate` of src/db/Query.cpp against lists of rows.
use cs660_spring2025_pa.Base.{
  ℕ, ◌≤◌, ◌≡◌, refl, sym, ap, subst, ◌∙◌, List, [], ◌∷◌, ◌++◌, map, Option, none, some, length, All,
  get_elem?, append_assoc, append-nil, ok, Returns, ◌>>=◌,
}
use cs660_spring2025_pa.Base.Assoc.{lookup}
use cs660_spring2025_pa.Base.Int.{pos}
use cs660_spring2025_pa.Tuple.{Field, Tuple, Name, Name-discrete, get_field, index_of}
use cs660_spring2025_pa.Iterator.{Iterator}
use cs660_spring2025_pa.Double.{Double}
use cs660_spring2025_pa.Table.{Table}
use cs660_spring2025_pa.Table.Scan.{IsScan, IsSink, for_each_lem}
use cs660_spring2025_pa.Query.Aggregate.{
  Aggregate, Group, add_grouped, add_ungrouped, collect_row, out_fields, result_of, emit,
  group_index_of, collect_groups, aggregate,
}
use cs660_spring2025_pa.Query.Aggregate.Groups.{IsKey, groups_of, collect, collect_lem}

-- The key and the value of a row; with no group field the key is `field_t()`.
abbrev pub HasPair : Option ℕ → ℕ → Tuple → Field × Field → Type 0
HasPair none vi t r = (Field.int (pos 0) ≡ r.0) × (get_elem? t vi ≡ some (r.1))
HasPair (some gi) vi t r = (get_elem? t gi ≡ some (r.0)) × (get_elem? t vi ≡ some (r.1))

-- The rows of a file have the pairs of a list, in order.
abbrev pub HavePairs : Option ℕ → ℕ → List Tuple → List (Field × Field) → Type 0
HavePairs gi vi [] [] = Unit
HavePairs gi vi (t ∷ rows) (r ∷ pairs) = HasPair gi vi t r × HavePairs gi vi rows pairs
HavePairs gi vi rows pairs = ⊥

-- The groups of pairs: with no group field, one group if there is any pair.
abbrev pub groups_with : Double → Option ℕ → List (Field × Field) → List Group
groups_with fp none [] = []
groups_with fp none (r ∷ pairs) =
    record { key = Field.int (pos 0); vals = map (λ q. q.1) (r ∷ pairs) } ∷ []
groups_with fp (some gi) pairs = groups_of fp pairs

-- What is asked of the keys.
abbrev pub AreGrouped : Option ℕ → List (Field × Field) → Type 0
AreGrouped none pairs = All (λ r. Field.int (pos 0) ≡ r.0) pairs
AreGrouped (some gi) pairs = All (λ r. IsKey (r.0)) pairs

module _ (fp : Double) where
  abbrev add_with : Option ℕ → Field × Field → List Group → List Group
  add_with none r groups = add_ungrouped (r.0) (r.1) groups
  add_with (some gi) r groups = add_grouped fp (r.0) (r.1) groups

  abbrev collect_with : Option ℕ → List (Field × Field) → List Group → List Group
  collect_with gi [] groups = groups
  collect_with gi (r ∷ pairs) groups = collect_with gi pairs (add_with gi r groups)

  collect_one :
      (key : Field) (vals : List Field) (pairs : List (Field × Field))
      → collect_with none pairs (record { key = key; vals = vals } ∷ [])
        ≡ record { key = key; vals = vals ++ map (λ q. q.1) pairs } ∷ []
  unfolding add_ungrouped
  collect_one key vals [] = ap (λ v. record { key = key; vals = v } ∷ []) (sym (append-nil vals))
  collect_one key vals (r ∷ pairs) =
      collect_one key (vals ++ r.1 ∷ []) pairs
      ∙ ap (λ v. record { key = key; vals = v } ∷ [])
          (append_assoc vals (r.1 ∷ []) (map (λ q. q.1) pairs))

  collect-some :
      (gi : ℕ) (pairs : List (Field × Field)) (groups : List Group)
      → collect_with (some gi) pairs groups ≡ collect fp pairs groups
  collect-some gi [] groups = refl
  collect-some gi (r ∷ pairs) groups = collect-some gi pairs (add_grouped fp (r.0) (r.1) groups)

  collect_with_lem :
      (gi : Option ℕ) (pairs : List (Field × Field))
      → AreGrouped gi pairs
      → collect_with gi pairs [] ≡ groups_with fp gi pairs
  unfolding add_ungrouped
  collect_with_lem none [] h = refl
  collect_with_lem none (r ∷ pairs) h =
      collect_one (r.0) (r.1 ∷ []) pairs
      ∙ ap (λ k. record { key = k; vals = map (λ q. q.1) (r ∷ pairs) } ∷ []) (sym h.0)
  collect_with_lem (some gi) pairs h = collect-some gi pairs [] ∙ collect_lem fp pairs h

  collect_row_lem :
      {S : Type 0} (gi : Option ℕ) (vi : ℕ) (t : Tuple) (r : Field × Field) (groups : List Group)
      (s : S)
      → HasPair gi vi t r
      → collect_row fp gi vi t groups s ≡ ok (add_with gi r groups) s
  unfolding collect_row get_field
  collect_row_lem none vi t r groups s h = rw (◌>>=◌, h.1, sym h.0)
  collect_row_lem (some gi) vi t r groups s h = rw (◌>>=◌, h.0, h.1)

  -- The loop invariant: the pairs of the rows left lead from the groups so far to all groups.
  abbrev Leads : Option ℕ → ℕ → List Group → List Tuple → List Group → Type 0
  Leads gi vi goal rest groups =
      (left : List (Field × Field)) × HavePairs gi vi rest left
      × (collect_with gi left groups ≡ goal)

  Leads-step :
      (gi : Option ℕ) (vi : ℕ) (goal : List Group) (t : Tuple) (rest : List Tuple)
      (groups : List Group)
      → Leads gi vi goal (t ∷ rest) groups
      → (r : Field × Field) × HasPair gi vi t r × Leads gi vi goal rest (add_with gi r groups)
  Leads-step gi vi goal t rest groups ([], h, e) = absurd h
  Leads-step gi vi goal t rest groups (r ∷ left, h, e) = (r, h.0, (left, h.1, e))

  Leads-end :
      (gi : Option ℕ) (vi : ℕ) (goal groups : List Group)
      → Leads gi vi goal [] groups
      → groups ≡ goal
  Leads-end gi vi goal groups ([], h, e) = e
  Leads-end gi vi goal groups (r ∷ left, h, e) = absurd h

-- The index of the group field, where there is one.
abbrev pub IsGroupIndex : {S : Type 0} → Table S → Option Name → Option ℕ → Type 0
IsGroupIndex inp none none = Unit
IsGroupIndex inp (some name) (some i) = lookup Name-discrete name inp.td.name_to_index ≡ some i
IsGroupIndex inp group gi = ⊥

module _ {S : Type 0} (Inv : List Tuple → S → Type 0) (out : Table S) (Accepts : Tuple → Type 0)
    (sink : IsSink Inv out Accepts) (fp : Double) (agg : Aggregate)
    (summary : List Field → Field) where
  -- A group has the result `summary`, and the output takes its row.
  abbrev pub IsEmitted : Group → Type 0
  IsEmitted g =
      ((s : S) → result_of fp agg.op g.vals s ≡ ok (summary g.vals) s)
      × Accepts (out_fields agg.group g (summary g.vals))

  emit_lem :
      (groups : List Group) (done : List Tuple) (s : S)
      → All IsEmitted groups
      → Inv done s
      → Returns
          (emit fp out agg groups)
          s
          (λ _ s'. Inv (done ++ map (λ g. out_fields agg.group g (summary g.vals)) groups) s')
  unfolding emit
  emit_lem [] done s h inv = (tt, s, refl, rw (append-nil) inv)
  emit_lem (g ∷ groups) done s h inv =
      let row : Tuple = out_fields agg.group g (summary g.vals) in
      let (x, s1, run, inv1) = sink.inserts done s row inv h.0.1 in
      let (y, s2, run2, inv2) = emit_lem groups (done ++ row ∷ []) s1 h.1 inv1 in
      (
        y,
        s2,
        rw (◌>>=◌, h.0.0 s, run) run2,
        subst (λ l. Inv l s2)
            (append_assoc done (row ∷ [])
              (map (λ g. out_fields agg.group g (summary g.vals)) groups))
            inv2,
      )

  module _ (inp : Table S) (At : Iterator → List Tuple → Type 0) (rows : List Tuple)
      (scan : IsScan Inv inp At rows) where
    collected :
        (gi : Option ℕ) (vi fuel : ℕ) (pairs : List (Field × Field)) (done : List Tuple) (s : S)
        → length rows ≤ fuel
        → HavePairs gi vi rows pairs
        → AreGrouped gi pairs
        → Inv done s
        → Returns
            (collect_groups fp fuel inp gi vi)
            s
            (λ groups s'. (groups ≡ groups_with fp gi pairs) × Inv done s')
    unfolding collect_groups
    collected gi vi fuel pairs done s enough have keys inv =
        let goal : List Group = groups_with fp gi pairs in
        let P : List Tuple → List Group → List Tuple → Type 0 =
          λ rest groups more. Leads fp gi vi goal rest groups × (more ≡ done) in
        let (it, s1, run, (at, inv1)) = scan.begins done s inv in
        let (groups, s2, run2, (more, (leads, kept), inv2)) =
          for_each_lem Inv inp At rows scan (collect_row fp gi vi) P
            (λ t rest b behind s' (leads, kept) i.
              let (r, pair, next) = Leads-step fp gi vi goal t rest b leads in
              (
                add_with fp gi r b,
                s',
                collect_row_lem fp gi vi t r b s' pair,
                (behind, (next, kept), i),
              ))
            fuel rows it [] done s1 enough at
            ((pairs, have, collect_with_lem fp gi pairs keys), refl) inv1 in
        (
          groups,
          s2,
          rw (◌>>=◌, run) run2,
          (Leads-end fp gi vi goal groups leads, subst (λ l. Inv l s2) kept inv2),
        )

    group_index_of_lem :
        (gi : Option ℕ) (group : Option Name) (s : S)
        → IsGroupIndex inp group gi
        → group ≡ agg.group
        → group_index_of inp agg s ≡ ok gi s
    unfolding group_index_of index_of
    group_index_of_lem none none s h e = rw (sym e)
    group_index_of_lem none (some name) s h e = absurd h
    group_index_of_lem (some i) none s h e = absurd h
    group_index_of_lem (some i) (some name) s h e = rw (sym e, ◌>>=◌, h)

    -- `aggregate` with at least as many rounds as the input has rows, where every row has the two
    -- fields and no key is a `double`, every group has a result and the output takes the rows: it
    -- returns. With a group field it has inserted one row for each key, in the order in which the keys
    -- first occur, with the key and the result of the values of the rows that have it. With none it
    -- has inserted one row, the result of all values, or nothing where the input has no row.
    pub aggregate_lem :
        (gi : Option ℕ) (vi fuel : ℕ) (pairs : List (Field × Field)) (done : List Tuple) (s : S)
        → IsGroupIndex inp agg.group gi
        → lookup Name-discrete agg.field inp.td.name_to_index ≡ some vi
        → length rows ≤ fuel
        → HavePairs gi vi rows pairs
        → AreGrouped gi pairs
        → All IsEmitted (groups_with fp gi pairs)
        → Inv done s
        → Returns (aggregate fp fuel inp out agg) s (λ _ s'.
          Inv
            (done ++ map (λ g. out_fields agg.group g (summary g.vals)) (groups_with fp gi pairs))
            s')
    unfolding aggregate index_of
    aggregate_lem gi vi fuel pairs done s hg hv enough have keys fine inv =
        let (groups, s1, run, (same, inv1)) =
          collected gi vi fuel pairs done s enough have keys inv in
        let (x, s2, run2, inv2) = emit_lem (groups_with fp gi pairs) done s1 fine inv1 in
        (x, s2, rw (◌>>=◌, group_index_of_lem gi agg.group s hg refl, hv, run, same) run2, inv2)
