-- ===== src/Query/Compare.antt =====
-- The value of `compare`, and the fields that the operators look up by name.
use cs660_spring2025_pa.Base.{
  ℕ, ◌≡◌, ◌↔◌, ◌⊎◌, inl, inr, refl, true, false, List, [], ◌∷◌, Option, none, some, ==_iff, arith,
  ok, get_elem?, Option-cases, subst, ◌>>=◌,
}
use cs660_spring2025_pa.Base.Assoc.{lookup}
use cs660_spring2025_pa.Tuple.{Field, Tuple, TupleDesc, Name, Name-discrete, get_field, index_of}
use cs660_spring2025_pa.Query.{eqb_string, ltb_string, field_of}

-- The value of a named field of a row.
unfoldable pub named : TupleDesc → Tuple → Name → Option Field
named td t name = elim (lookup Name-discrete name td.name_to_index) [
  | none ↦ none
  | some i ↦ get_elem? t i
]

abbrev pub HasField : TupleDesc → Name → Tuple → Type 0
HasField td name t = (field : Field) × (named td t name ≡ some field)

pub field_of_lem :
    {S : Type 0} (td : TupleDesc) (t : Tuple) (name : Name) (field : Field) (s : S)
    → named td t name ≡ some field
    → field_of td t name s ≡ ok field s
unfolding named field_of get_field index_of
field_of_lem td t name field s h =
    elim (Option-cases (lookup Name-discrete name td.name_to_index)) [
      | inl e ↦ ground (arith, h, e)
      | inr (i, e) ↦
          rw (
            e,
            ◌>>=◌,
            subst (λ o. elim o [ none ↦ none | some j ↦ get_elem? t j ] ≡ some field) e h,
          )
    ]

pub eqb_string_iff : (s t : List ℕ) → (eqb_string s t ≡ true) ↔ (s ≡ t)
unfolding eqb_string
eqb_string_iff [] [] = (λ h. refl, λ h. refl)
eqb_string_iff [] (d ∷ t) = ground arith
eqb_string_iff (c ∷ s) [] = ground arith
eqb_string_iff (c ∷ s) (d ∷ t) = grind (arith, eqb_string_iff s t, ==_iff c d)

pub ltb_string_trans :
    (r s t : List ℕ) → ltb_string r s ≡ true → ltb_string s t ≡ true → ltb_string r t ≡ true
unfolding ltb_string
ltb_string_trans r [] t h k = ground arith
ltb_string_trans r (c ∷ s) [] h k = ground arith
ltb_string_trans [] (c ∷ s) (d ∷ t) h k = refl
ltb_string_trans (b ∷ r) (c ∷ s) (d ∷ t) h k = ground (arith, ltb_string_trans r s t)

-- Of two strings one is less, or they are the same; never two of these.
pub ltb_string_cases :
    (s t : List ℕ)
    → ((ltb_string s t ≡ true) × (ltb_string t s ≡ false) × (eqb_string s t ≡ false))
      ⊎ (((ltb_string s t ≡ false) × (ltb_string t s ≡ true) × (eqb_string s t ≡ false))
          ⊎ ((ltb_string s t ≡ false) × (ltb_string t s ≡ false) × (eqb_string s t ≡ true)))
unfolding ltb_string eqb_string
ltb_string_cases [] [] = inr (inr (refl, refl, refl))
ltb_string_cases [] (d ∷ t) = inl (refl, refl, refl)
ltb_string_cases (c ∷ s) [] = inr (inl (refl, refl, refl))
ltb_string_cases (c ∷ s) (d ∷ t) = ground (arith, ltb_string_cases s t)
