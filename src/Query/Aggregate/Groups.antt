-- ===== src/Query/Aggregate/Groups.antt =====
-- The groups that `aggregate` of src/db/Query.cpp collects: one for each key, in the order in which
-- the keys first occur, with the values of the rows of that key in their order.
use cs660_spring2025_pa.Base.{
  ◌≡◌, ◌↔◌, inl, inr, refl, sym, ap, ap₂, subst, ◌∙◌, true, false, List, [], ◌∷◌, ◌++◌, map, All,
  select, if◌then◌else◌, Bool-cases, append-nil, append_assoc, arith,
}
use cs660_spring2025_pa.Base.Int.{eqb_ℤ_iff}
use cs660_spring2025_pa.Tuple.{Field}
use cs660_spring2025_pa.Double.{Double}
use cs660_spring2025_pa.Query.Compare.{eqb_string_iff}
use cs660_spring2025_pa.Query.Aggregate.{Group, eq_field, add_grouped}

-- A value that `==` identifies by what it is: `double` has two zeros, and NaNs.
abbrev pub IsKey : Field → Type 0
IsKey (Field.int z) = Unit
IsKey (Field.double d) = ⊥
IsKey (Field.string s) = Unit

module _ (fp : Double) where
  eq_field_iff : (a b : Field) → IsKey a → IsKey b → (eq_field fp a b ≡ true) ↔ (a ≡ b)
  unfolding eq_field
  eq_field_iff (Field.int a) (Field.int b) h k = grind (arith, eqb_ℤ_iff a b)
  eq_field_iff (Field.int a) (Field.double b) h k = absurd k
  eq_field_iff (Field.int a) (Field.string b) h k = grind arith
  eq_field_iff (Field.double a) b h k = absurd h
  eq_field_iff (Field.string a) (Field.int b) h k = grind arith
  eq_field_iff (Field.string a) (Field.double b) h k = absurd k
  eq_field_iff (Field.string a) (Field.string b) h k = grind (arith, eqb_string_iff a b)

  eq_field_flip :
      (a b : Field) → IsKey a → IsKey b → eq_field fp a b ≡ false → eq_field fp b a ≡ false
  eq_field_flip a b h k e = elim (Bool-cases (eq_field fp b a)) [
    | inl same ↦
        let other : eq_field fp a b ≡ true =
          (eq_field_iff a b h k).1 (sym ((eq_field_iff b a k h).0 same)) in
        absurd (ground (arith, e, other))
    | inr differ ↦ differ
  ]

  -- The values of the rows with a key.
  abbrev pub values_of : Field → List (Field × Field) → List Field
  values_of key rows = map (λ r. r.1) (select (λ r. eq_field fp key (r.0)) rows)

  -- The keys, each where it first occurs.
  abbrev pub add_key : Field → List Field → List Field
  add_key key [] = key ∷ []
  add_key key (j ∷ keys) = if eq_field fp j key then j ∷ keys else j ∷ add_key key keys

  abbrev pub first_keys : List Field → List (Field × Field) → List Field
  first_keys keys [] = keys
  first_keys keys (r ∷ rows) = first_keys (add_key (r.0) keys) rows

  -- The groups of rows.
  abbrev pub group_of : List (Field × Field) → Field → Group
  group_of rows key = record { key = key; vals = values_of key rows }

  abbrev pub groups_of : List (Field × Field) → List Group
  groups_of rows = map (group_of rows) (first_keys [] rows)

  abbrev pub collect : List (Field × Field) → List Group → List Group
  collect [] groups = groups
  collect (r ∷ rows) groups = collect rows (add_grouped fp (r.0) (r.1) groups)

  -- No key of a list is the key; no two keys of a list are the same.
  abbrev Absent : Field → List Field → Type 0
  Absent key keys = All (λ j. eq_field fp j key ≡ false) keys

  abbrev IsUnique : List Field → Type 0
  IsUnique [] = Unit
  IsUnique (j ∷ keys) = All (λ i. eq_field fp i j ≡ false) keys × IsUnique keys

  -- What the keys collected from rows are.
  record AreKeys (rows : List (Field × Field)) (keys : List Field) : Type 0 where
    valid : All IsKey keys
    unique : IsUnique keys
    complete : (key : Field) → IsKey key → Absent key keys → values_of key rows ≡ []

  values_append :
      (j : Field) (rows : List (Field × Field)) (r : Field × Field)
      → values_of j (rows ++ r ∷ [])
        ≡ values_of j rows ++ (if eq_field fp j (r.0) then r.1 ∷ [] else [])
  values_append j [] r = elim (Bool-cases (eq_field fp j (r.0))) [ inl h ↦ rw h | inr h ↦ rw h ]
  values_append j (q ∷ rows) r = elim (Bool-cases (eq_field fp j (q.0))) [
    | inl h ↦ rw h (ap (◌∷◌ (q.1)) (values_append j rows r))
    | inr h ↦ rw h (values_append j rows r)
  ]

  values_other :
      (j : Field) (rows : List (Field × Field)) (r : Field × Field)
      → eq_field fp j (r.0) ≡ false
      → values_of j (rows ++ r ∷ []) ≡ values_of j rows
  values_other j rows r h = rw (values_append j rows r, h) (append-nil (values_of j rows))

  groups_other :
      (rows : List (Field × Field)) (r : Field × Field) (keys : List Field)
      → Absent (r.0) keys
      → map (group_of (rows ++ r ∷ [])) keys ≡ map (group_of rows) keys
  groups_other rows r [] h = refl
  groups_other rows r (j ∷ keys) h =
      ap₂ (λ v gs. record { key = j; vals = v } ∷ gs) (values_other j rows r h.0)
        (groups_other rows r keys h.1)

  add_grouped_lem :
      (rows : List (Field × Field)) (r : Field × Field) (keys : List Field)
      → IsKey (r.0)
      → All IsKey keys
      → IsUnique keys
      → (Absent (r.0) keys → values_of (r.0) rows ≡ [])
      → add_grouped fp (r.0) (r.1) (map (group_of rows) keys)
        ≡ map (group_of (rows ++ r ∷ [])) (add_key (r.0) keys)
  unfolding add_grouped
  add_grouped_lem rows r [] hk hs u none_yet =
      let same : eq_field fp (r.0) (r.0) ≡ true = (eq_field_iff (r.0) (r.0) hk hk).1 refl in
      let values : values_of (r.0) (rows ++ r ∷ []) ≡ r.1 ∷ [] =
        rw (values_append (r.0) rows r, same, none_yet tt) in
      ap (λ v. record { key = r.0; vals = v } ∷ []) (sym values)
  add_grouped_lem rows r (j ∷ keys) hk hs u none_yet = elim (Bool-cases (eq_field fp j (r.0))) [
    | inl h ↦
        let same : j ≡ r.0 = (eq_field_iff j (r.0) hs.0 hk).0 h in
        let rest = groups_other rows r keys (subst (λ x. Absent x keys) same u.0) in
        let values : values_of j (rows ++ r ∷ []) ≡ values_of j rows ++ r.1 ∷ [] =
          rw (values_append j rows r, h) in
        rw h (ap₂ (λ v gs. record { key = j; vals = v } ∷ gs) (sym values) (sym rest))
    | inr h ↦
        let more = add_grouped_lem rows r keys hk hs.1 u.1 (λ absent. none_yet (h, absent)) in
        rw h (ap₂ (λ v gs. record { key = j; vals = v } ∷ gs) (sym (values_other j rows r h)) more)
  ]

  add_key-All :
      (P : Field → Type 0) (key : Field) (keys : List Field)
      → P key
      → All P keys
      → All P (add_key key keys)
  add_key-All P key [] h hs = (h, tt)
  add_key-All P key (j ∷ keys) h hs = elim (Bool-cases (eq_field fp j key)) [
    | inl e ↦ rw e hs
    | inr e ↦ rw e (hs.0, add_key-All P key keys h hs.1)
  ]

  add_key-IsUnique :
      (key : Field) (keys : List Field)
      → IsKey key
      → All IsKey keys
      → IsUnique keys
      → IsUnique (add_key key keys)
  add_key-IsUnique key [] hk hs u = (tt, tt)
  add_key-IsUnique key (j ∷ keys) hk hs u = elim (Bool-cases (eq_field fp j key)) [
    | inl e ↦ rw e u
    | inr e ↦ rw e (
      add_key-All (λ i. eq_field fp i j ≡ false) key keys (eq_field_flip j key hs.0 hk e) u.0,
      add_key-IsUnique key keys hk hs.1 u.1,
    )
  ]

  -- A key that is not among the keys with `key` added is not among the keys, and is not `key`.
  Absent-add_key :
      (k key : Field) (keys : List Field)
      → IsKey k
      → IsKey key
      → All IsKey keys
      → Absent k (add_key key keys)
      → Absent k keys × (eq_field fp k key ≡ false)
  Absent-add_key k key [] hk h hs absent = (tt, eq_field_flip key k h hk absent.0)
  Absent-add_key k key (j ∷ keys) hk h hs absent = elim (Bool-cases (eq_field fp j key)) [
    | inl e ↦
        let all : Absent k (j ∷ keys) =
          subst (λ b. Absent k (if b then j ∷ keys else j ∷ add_key key keys)) e absent in
        let same : j ≡ key = (eq_field_iff j key hs.0 h).0 e in
        (all, subst (λ x. eq_field fp k x ≡ false) same (eq_field_flip j k hs.0 hk all.0))
    | inr e ↦
        let all : Absent k (j ∷ add_key key keys) =
          subst (λ b. Absent k (if b then j ∷ keys else j ∷ add_key key keys)) e absent in
        let (rest, differ) = Absent-add_key k key keys hk h hs.1 all.1 in ((all.0, rest), differ)
  ]

  add_key-AreKeys :
      (rows : List (Field × Field)) (r : Field × Field) (keys : List Field)
      → IsKey (r.0)
      → AreKeys rows keys
      → AreKeys (rows ++ r ∷ []) (add_key (r.0) keys)
  add_key-AreKeys rows r keys h a = record {
    valid = add_key-All IsKey (r.0) keys h a.valid;
    unique = add_key-IsUnique (r.0) keys h a.valid a.unique;
    complete = λ k hk absent.
        let (before, differ) = Absent-add_key k (r.0) keys hk h a.valid absent in
        values_other k rows r differ ∙ a.complete k hk before;
  }

  collect_from :
      (rest rows : List (Field × Field)) (keys : List Field)
      → All (λ r. IsKey (r.0)) rest
      → AreKeys rows keys
      → collect rest (map (group_of rows) keys)
        ≡ map (group_of (rows ++ rest)) (first_keys keys rest)
  collect_from [] rows keys h a = ap (λ l. map (group_of l) keys) (sym (append-nil rows))
  collect_from (r ∷ rest) rows keys h a =
      let step = add_grouped_lem rows r keys h.0 a.valid a.unique (a.complete (r.0) h.0) in
      ap (collect rest) step
      ∙ collect_from rest (rows ++ r ∷ []) (add_key (r.0) keys) h.1
          (add_key-AreKeys rows r keys h.0 a)
      ∙ ap (λ l. map (group_of l) (first_keys (add_key (r.0) keys) rest))
          (append_assoc rows (r ∷ []) rest)

  -- Rows of which no key is a `double` are collected into one group for each key, in the order in
  -- which the keys first occur, and a group has the values of the rows with its key, in their order.
  pub collect_lem :
      (rows : List (Field × Field)) → All (λ r. IsKey (r.0)) rows → collect rows [] ≡ groups_of rows
  collect_lem rows h =
      collect_from rows [] [] h
        (record { valid = tt; unique = tt; complete = λ key hk absent. refl })
