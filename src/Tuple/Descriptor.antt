-- ===== src/Tuple/Descriptor.antt =====
-- The constructor of `TupleDesc` in src/db/Tuple.cpp: offsets, names, and what it refuses.
use cs660_spring2025_pa.Base.{
  ℕ, zero, suc, ◌+◌, ◌≤◌, ◌≡◌, ◌≢◌, ◌⊎◌, inl, inr, refl, ap, sym, subst, ◌∙◌, List, [], ◌∷◌, ◌++◌,
  none, some, if_pos, if_neg, length, All, All-map, get_elem?, arith, ok, throw, logic_error,
  Option-cases, ℕ_discrete,
}
use cs660_spring2025_pa.Base.Assoc.{lookup, insert}
use cs660_spring2025_pa.Base.Assoc.Laws.{lookup-insert}
use cs660_spring2025_pa.Tuple.{
  FieldType, Name, Name-discrete, TupleDesc, type_size, make_loop, make, index_of,
}

-- The offsets of fields of these types, one behind the other from `o`.
unfoldable pub offsets_from : List FieldType → ℕ → List ℕ
offsets_from [] o = []
offsets_from (ty ∷ types) o = o ∷ offsets_from types (o + type_size ty)

-- What the constructor makes of names, from index `i`.
indexed : List Name → ℕ → List (Name × ℕ) → List (Name × ℕ)
indexed [] i m = m
indexed (n ∷ ns) i m = indexed ns (suc i) (insert Name-discrete n i m)

abbrev pub IsDistinct : List Name → Type 0
IsDistinct [] = Unit
IsDistinct (n ∷ ns) = All (λ x. n ≢ x) ns × IsDistinct ns

append_cons : (xs ys : List ℕ) (x : ℕ) → (xs ++ x ∷ []) ++ ys ≡ xs ++ x ∷ ys
append_cons [] ys x = refl
append_cons (z ∷ xs) ys x = ap (◌∷◌ z) (append_cons xs ys x)

append_nil : (xs : List ℕ) → xs ++ [] ≡ xs
append_nil [] = refl
append_nil (x ∷ xs) = ap (◌∷◌ x) (append_nil xs)

make_loop_lem :
    (types : List FieldType) (names : List Name) (i o : ℕ) (td : TupleDesc)
    → length types ≡ length names
    → make_loop types names i o td ≡ record {
      types = td.types;
      offsets = td.offsets ++ offsets_from types o;
      name_to_index = indexed names i td.name_to_index;
    }
unfolding make_loop offsets_from indexed
make_loop_lem [] [] i o td h =
    ap (λ l. record { types = td.types; offsets = l; name_to_index = td.name_to_index })
      (sym (append_nil td.offsets))
make_loop_lem [] (n ∷ ns) i o td h = absurd (omega arith)
make_loop_lem (ty ∷ types) [] i o td h = absurd (omega arith)
make_loop_lem (ty ∷ types) (n ∷ ns) i o td h =
    make_loop_lem types ns (suc i) (o + type_size ty) _ (omega arith)
    ∙ ap
        (λ l. record {
          types = td.types;
          offsets = l;
          name_to_index = indexed ns (suc i) (insert Name-discrete n i td.name_to_index);
        })
        (append_cons td.offsets (offsets_from types (o + type_size ty)) o)

length-insert_absent :
    (k : Name) (v : ℕ) (m : List (Name × ℕ))
    → lookup Name-discrete k m ≡ none
    → length (insert Name-discrete k v m) ≡ suc (length m)
unfolding lookup insert
length-insert_absent k v [] h = refl
length-insert_absent k v ((j, w) ∷ m) h = ground (arith, length-insert_absent k v m)

length-insert_present :
    (k : Name) (v w : ℕ) (m : List (Name × ℕ))
    → lookup Name-discrete k m ≡ some w
    → length (insert Name-discrete k v m) ≡ length m
unfolding lookup insert
length-insert_present k v w [] h = cc
length-insert_present k v w ((j, u) ∷ m) h = ground (arith, length-insert_present k v w m)

lookup-indexed_absent :
    (q : Name) (ns : List Name) (i : ℕ) (m : List (Name × ℕ))
    → All (λ x. q ≢ x) ns
    → lookup Name-discrete q (indexed ns i m) ≡ lookup Name-discrete q m
unfolding indexed
lookup-indexed_absent q [] i m a = refl
lookup-indexed_absent q (n ∷ ns) i m a =
    lookup-indexed_absent q ns (suc i) (insert Name-discrete n i m) a.1
    ∙ lookup-insert Name-discrete q n i m
    ∙ if_neg (Name-discrete n q) (λ e. a.0 (sym e)) (some i) (lookup Name-discrete q m)

lookup-indexed :
    (q : Name) (ns : List Name) (i j : ℕ) (m : List (Name × ℕ))
    → IsDistinct ns
    → get_elem? ns j ≡ some q
    → lookup Name-discrete q (indexed ns i m) ≡ some (i + j)
unfolding indexed
lookup-indexed q [] i j m d h = cc
lookup-indexed q (n ∷ ns) i zero m d h =
    let e : n ≡ q = cc in
    lookup-indexed_absent q ns (suc i) (insert Name-discrete n i m)
      (subst (λ x. All (λ y. x ≢ y) ns) e d.0)
    ∙ lookup-insert Name-discrete q n i m
    ∙ if_pos (Name-discrete n q) e (some i) (lookup Name-discrete q m)
    ∙ ap some (omega arith)
lookup-indexed q (n ∷ ns) i (suc j) m d h =
    lookup-indexed q ns (suc i) j (insert Name-discrete n i m) d.1 h ∙ ap some (omega arith)

length-indexed-le :
    (ns : List Name) (i : ℕ) (m : List (Name × ℕ)) → length (indexed ns i m) ≤ length m + length ns
unfolding indexed
length-indexed-le [] i m = omega arith
length-indexed-le (n ∷ ns) i m = elim (Option-cases (lookup Name-discrete n m)) [
  | inl out ↦ omega (
    arith,
    length-insert_absent n i m out,
    length-indexed-le ns (suc i) (insert Name-discrete n i m),
  )
  | inr (w, h) ↦ omega (
    arith,
    length-insert_present n i w m h,
    length-indexed-le ns (suc i) (insert Name-discrete n i m),
  )
]

length-indexed :
    (ns : List Name) (i : ℕ) (m : List (Name × ℕ))
    → IsDistinct ns
    → All (λ x. lookup Name-discrete x m ≡ none) ns
    → length (indexed ns i m) ≡ length m + length ns
unfolding indexed
length-indexed [] i m d a = omega arith
length-indexed (n ∷ ns) i m (new, d) (out, a) = omega (
  arith,
  length-insert_absent n i m out,
  length-indexed ns (suc i) (insert Name-discrete n i m) d (still ns new a),
)
  where
    still :
        (l : List Name)
        → All (λ x. n ≢ x) l
        → All (λ x. lookup Name-discrete x m ≡ none) l
        → All (λ x. lookup Name-discrete x (insert Name-discrete n i m) ≡ none) l
    still [] ne abs = tt
    still (x ∷ l) ne abs = (
      lookup-insert Name-discrete x n i m
          ∙ if_neg (Name-discrete n x) ne.0 (some i) (lookup Name-discrete x m)
          ∙ abs.0,
      still l ne.1 abs.1,
    )

-- Where every name got an entry of its own, no name stands twice.
IsDistinct-of_length :
    (ns : List Name) (i : ℕ) (m : List (Name × ℕ))
    → length (indexed ns i m) ≡ length m + length ns
    → All (λ x. lookup Name-discrete x m ≡ none) ns × IsDistinct ns
unfolding indexed
IsDistinct-of_length [] i m h = (tt, tt)
IsDistinct-of_length (n ∷ ns) i m h = elim (Option-cases (lookup Name-discrete n m)) [
  | inr (w, k) ↦ absurd (
      omega (
        arith,
        length-insert_present n i w m k,
        length-indexed-le ns (suc i) (insert Name-discrete n i m),
      ))
  | inl out ↦
      let (a, d) =
        IsDistinct-of_length ns (suc i) (insert Name-discrete n i m)
          (omega (arith, length-insert_absent n i m out)) in
      ((out, All-map ns old a), (All-map ns new a, d))
]
  where
    here : (x : Name) → n ≡ x → ¬ (lookup Name-discrete x (insert Name-discrete n i m) ≡ none)
    here x e z = cc (
      lookup-insert Name-discrete x n i m,
      if_pos (Name-discrete n x) e (some i) (lookup Name-discrete x m),
    )

    new : (x : Name) → lookup Name-discrete x (insert Name-discrete n i m) ≡ none → n ≢ x
    new x z e = here x e z

    old :
        (x : Name)
        → lookup Name-discrete x (insert Name-discrete n i m) ≡ none
        → lookup Name-discrete x m ≡ none
    old x z =
        sym (
          lookup-insert Name-discrete x n i m
          ∙ if_neg (Name-discrete n x) (new x z) (some i) (lookup Name-discrete x m))
        ∙ z

abbrev no_entries : List (Name × ℕ)
no_entries = []

All-absent : (l : List Name) → All (λ x. lookup Name-discrete x no_entries ≡ none) l
unfolding lookup
All-absent [] = tt
All-absent (x ∷ l) = (refl, All-absent l)

module _ {S : Type 0} (s : S) where
  -- A descriptor as the constructor makes it: the types, the offsets of fields that stand one behind
  -- the other, and each name at its index.
  pub record IsDesc (types : List FieldType) (names : List Name) (td : TupleDesc) : Type 0 where
    pub same_length : length types ≡ length names
    pub distinct : IsDistinct names
    pub types_eq : td.types ≡ types
    pub offsets_eq : td.offsets ≡ offsets_from types 0
    pub index : (i : ℕ) (n : Name) → get_elem? names i ≡ some n → index_of td n s ≡ ok i s

  -- The constructor of `TupleDesc`, for all types and names: it returns such a descriptor, or it
  -- throws `logic_error`, and then the numbers of types and names differ or a name stands twice.
  pub make_lem :
      (types : List FieldType) (names : List Name)
      → ((td : TupleDesc) × (make types names s ≡ ok td s) × IsDesc types names td)
        ⊎ ((make types names s ≡ throw logic_error s)
            × ((length types ≢ length names) ⊎ (¬ IsDistinct names)))
  unfolding make index_of
  make_lem types names = elim (ℕ_discrete (length types) (length names)) [
    | no ne ↦ inr (ground arith, inl ne)
    | yes e ↦
        let start : TupleDesc = record { types = types; offsets = []; name_to_index = [] } in
        let made = make_loop_lem types names 0 0 start e in
        elim (ℕ_discrete (length (indexed names 0 [])) (length names)) [
          | yes full ↦
              let (absent, distinct) = IsDistinct-of_length names 0 [] (omega arith) in
              inl (
                record {
                  types = types;
                  offsets = offsets_from types 0;
                  name_to_index = indexed names 0 [];
                },
                ground (arith, made),
                record {
                  same_length = e;
                  distinct = distinct;
                  types_eq = refl;
                  offsets_eq = refl;
                  index = λ i n h.
                      rw (lookup-indexed n names 0 i [] distinct h)
                        (ap (λ k. ok k s) (omega arith));
                },
              )
          | no short ↦ inr (
            ground (arith, made),
            inr (λ distinct.
                short (length-indexed names 0 [] distinct (All-absent names) ∙ omega arith)),
          )
        ]
  ]
