-- ===== src/Query/Join.antt =====
-- `join` of src/db/Query.cpp against lists of rows.
use cs660_spring2025_pa.Base.{
  ℕ, suc, ◌<◌, ◌≡◌, Bool, false, List, [], ◌∷◌, ◌++◌, map, none, some, length, get_elem?, flat_map,
  select, remove_at, if◌then◌else◌,
}
use cs660_spring2025_pa.Tuple.{Tuple, desc_size}
use cs660_spring2025_pa.Iterator.{Iterator}
use cs660_spring2025_pa.Double.{Double}
use cs660_spring2025_pa.Table.{Table}
use cs660_spring2025_pa.Query.{PredicateOp, compare, is_eq}

-- The fields whose index is not skipped, for a list that starts at index `i`.
abbrev unskipped : (ℕ → Bool) → ℕ → Tuple → Tuple
unskipped skip i [] = []
unskipped skip i (x ∷ t) = if skip i then unskipped skip (suc i) t else x ∷ unskipped skip (suc i) t

-- The row that `join` makes of two rows.
unfoldable pub others : PredicateOp → ℕ → Tuple → Tuple
others op ridx r = if is_eq op then remove_at ridx r else r

abbrev pub join_row : PredicateOp → ℕ → Tuple → Tuple → Tuple
join_row op ridx l r = l ++ others op ridx r

-- The fields of two rows compare as the predicate asks.
unfoldable pub joins : Double → PredicateOp → ℕ → ℕ → Tuple → Tuple → Bool
joins fp op lidx ridx l r = elim (get_elem? l lidx) [
  | none ↦ false
  | some a ↦ elim (get_elem? r ridx) [ none ↦ false | some b ↦ compare fp a b op ]
]

-- The rows of the join, in the order of the left file and, for one of its rows, of the right one.
abbrev pub join_list : Double → PredicateOp → ℕ → ℕ → List Tuple → List Tuple → List Tuple
join_list fp op lidx ridx ls rs =
    flat_map (λ l. map (join_row op ridx l) (select (joins fp op lidx ridx l) rs)) ls

-- What is asked of a row of a file: as many fields as the file has, the key among them.
abbrev pub IsRow : {S : Type 0} → Table S → ℕ → Tuple → Type 0
IsRow file key t = (length t ≡ desc_size file.td) × (key < length t)
