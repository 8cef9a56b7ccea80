-- ===== src/Tuple/RoundTrip.antt =====
-- `serialize` and `deserialize` of src/db/Tuple.cpp, one after the other.
use cs660_spring2025_pa.Base.{ℕ, ◌+◌, ◌≤◌, ◌≡◌, sym, ap, ◌∙◌, true, All, length, ok, arith}
use cs660_spring2025_pa.Memory.{Page, page_size, load, store}
use cs660_spring2025_pa.Memory.Laws.{Apart, store_outside, load-store_self}
use cs660_spring2025_pa.Tuple.{Tuple, TupleDesc, compatible, desc_length, serialize, deserialize}
use cs660_spring2025_pa.Tuple.Bytes.{
  Fits, tuple_bytes, length-tuple_bytes, compatible-Agrees, serialize-store, deserialize-load,
}

pub length-compatible :
    (td : TupleDesc) (t : Tuple) → compatible td t ≡ true → length (tuple_bytes t) ≡ desc_length td
unfolding desc_length
length-compatible td t h = length-tuple_bytes td.types t (compatible-Agrees td t h)

-- A tuple that is compatible with a descriptor and whose values fit their fields, serialized to a
-- place inside the page: `serialize` returns, `deserialize` from the same place returns the tuple,
-- and every byte outside the `length()` bytes from there is as it was.
pub deserialize-serialize :
    (td : TupleDesc) (t : Tuple) (o : ℕ) (p : Page)
    → compatible td t ≡ true
    → All Fits t
    → o + desc_length td ≤ page_size
    → (q : Page) × (serialize td o t p ≡ ok tt q)
      × (deserialize td o q ≡ ok t q)
      × ((i : ℕ) → Apart i 1 o (desc_length td) → q i ≡ p i)
deserialize-serialize td t o p h f b = (
  store p o (tuple_bytes t),
  serialize-store td t o p h,
  deserialize-load td t o _ h f b (
      ap (λ n. load n (store p o (tuple_bytes t)) o) (sym (length-compatible td t h))
      ∙ load-store_self p o (tuple_bytes t)),
  λ i a. store_outside p o (tuple_bytes t) i (omega (arith, length-compatible td t h)),
)
