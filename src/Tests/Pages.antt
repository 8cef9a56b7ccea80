-- ===== src/Tests/Pages.antt =====
-- Tuples and heap pages at a descriptor of an `int` and a `double`.
use cs660_spring2025_pa.Base.{
  ◌==◌, if◌then◌else◌, ℕ, ◌<◌, ◌≤◌, ◌≡◌, ◌≢◌, refl, ◌⊎◌, [], ◌∷◌, ok, throw, runtime_error, arith,
  true, false,
}
use cs660_spring2025_pa.Base.Int.{negsuc}
use cs660_spring2025_pa.Memory.{Page, zero_page}
use cs660_spring2025_pa.Memory.Laws.{Apart}
use cs660_spring2025_pa.Tuple.{
  Field, FieldType, FieldType-discrete, Tuple, TupleDesc, compatible, desc_length, serialize,
  deserialize,
}
use cs660_spring2025_pa.Tuple.RoundTrip.{deserialize-serialize}
use cs660_spring2025_pa.HeapPage.{HeapPage, wrap, empty, insert_tuple, delete_tuple, begin}
use cs660_spring2025_pa.HeapPage.Layout.{Fitting, wrap-Fitting}
use cs660_spring2025_pa.HeapPage.Slots.{SameSlot, IsHeader}
use cs660_spring2025_pa.HeapPage.Insert.{Inserted, insert_tuple_lem, delete_tuple_lem}
use cs660_spring2025_pa.HeapPage.Iterate.{visited, used_from, visited_all}

abbrev pub pair_desc : TupleDesc
pair_desc = record {
  types = FieldType.int ∷ FieldType.double ∷ [];
  offsets = 0 ∷ 4 ∷ [];
  name_to_index = (1 ∷ [], 0) ∷ (2 ∷ [], 1) ∷ [];
}

abbrev pub pair : Tuple
pair = Field.int (negsuc 41) ∷ Field.double 77 ∷ []

pub pair-compatible : compatible pair_desc pair ≡ true
unfolding compatible FieldType-discrete
pair-compatible = ground arith

deserialize-serialize_example :
    (q : Page) × (serialize pair_desc 100 pair zero_page ≡ ok tt q)
    × (deserialize pair_desc 100 q ≡ ok pair q)
    × ((i : ℕ) → Apart i 1 100 (desc_length pair_desc) → q i ≡ zero_page i)
unfolding desc_length
deserialize-serialize_example =
    deserialize-serialize pair_desc pair 100 zero_page pair-compatible (omega arith) (omega arith)

wrap-Fitting_example :
    Fitting (desc_length pair_desc) (wrap pair_desc).capacity (wrap pair_desc).start
wrap-Fitting_example = wrap-Fitting pair_desc

abbrev heap_page : HeapPage
heap_page = record { td = pair_desc; capacity = 337; start = 52 }

wrap_pair : wrap pair_desc ≡ heap_page
unfolding wrap desc_length
wrap_pair = refl

heap_page-Fitting : Fitting (desc_length pair_desc) 337 52
unfolding desc_length
heap_page-Fitting = record { header = λ slot h. omega arith; inside = omega arith }

-- Slot 0 is in use.
abbrev pub used_page : Page
used_page i = if i == 0 then 128 else 0

used_page-IsHeader : IsHeader heap_page used_page
used_page-IsHeader slot h = ground arith

insert_tuple_lem_example :
    ((insert_tuple heap_page pair used_page ≡ ok false used_page)
      × ((s : ℕ) → s < 337 → empty used_page s ≡ false))
    ⊎ ((slot : ℕ) × (q : Page) × (insert_tuple heap_page pair used_page ≡ ok true q)
        × Inserted heap_page heap_page-Fitting used_page q pair slot)
insert_tuple_lem_example =
    insert_tuple_lem heap_page heap_page-Fitting used_page used_page-IsHeader pair pair-compatible
      (omega arith)

delete_tuple_lem_example :
    ((delete_tuple heap_page 0 used_page ≡ throw runtime_error used_page)
      × ((337 ≤ 0) ⊎ (empty used_page 0 ≡ true)))
    ⊎ ((q : Page) × (delete_tuple heap_page 0 used_page ≡ ok tt q)
        × (0 < 337)
        × (empty used_page 0 ≡ false)
        × (empty q 0 ≡ true)
        × IsHeader heap_page q
        × ((s : ℕ) → s < 337 → 0 ≢ s → SameSlot heap_page used_page q s))
delete_tuple_lem_example =
    delete_tuple_lem heap_page heap_page-Fitting used_page 0 used_page-IsHeader

visited_all_example :
    visited heap_page used_page 338 (begin heap_page used_page)
    ≡ used_from heap_page used_page 337 0
visited_all_example = visited_all heap_page used_page
