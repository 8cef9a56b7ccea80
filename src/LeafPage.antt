-- ===== src/LeafPage.antt =====
-- include/db/LeafPage.hpp and src/db/LeafPage.cpp: a leaf of a B+ tree, a page of tuples in the order
-- of a key field of type `int`. `header` is the start of the page: `next_leaf` has its first 8 bytes
-- and `size` the two bytes after them, and with its padding the header has 16 bytes. `data` is an
-- offset into the page. A method is a call on the page; `split` is one on two pages.
--
-- `td.length()` is not 0, since the key field is an `int`.
pub mod Contents
pub mod Room
pub mod Insert
pub mod Split
use cs660_spring2025_pa.Base.{
  ℕ, zero, suc, ◌+◌, ◌-◌, ◌*◌, ◌/◌, ◌%◌, ◌^◌, Bool, true, false, not, ◌||◌, leb, ◌==◌,
  if◌then◌else◌, M, Outcome, ok, throw, ◌>>=◌, ◌>>◌, pure, fail, get, modify, zoom,
  bad_variant_access, out_of_range,
}
use cs660_spring2025_pa.Base.Int.{ℤ, ltb_ℤ, eqb_ℤ}
use cs660_spring2025_pa.Memory.{Page, page_size, copy_bytes, read_uint, write_uint, read_int}
use cs660_spring2025_pa.Tuple.{
  Field, Tuple, TupleDesc, desc_length, get_field, offset_of, serialize, deserialize,
}
use cs660_spring2025_pa.Search.{lower_bound}

pub record LeafPage : Type 0 where
  pub td : TupleDesc
  pub key_index : ℕ
  pub capacity : ℕ
  pub start : ℕ

-- `sizeof(LeafPageHeader)`.
abbrev pub header_size : ℕ
header_size = 16

-- The fields `next_leaf` and `size` of the header.
unfoldable pub next_leaf : Page → ℕ
next_leaf p = read_uint 8 p 0

unfoldable pub set_next_leaf : ℕ → Page → Page
set_next_leaf n p = write_uint 8 p 0 n

unfoldable pub get_size : Page → ℕ
get_size p = read_uint 2 p 8

unfoldable pub set_size : ℕ → Page → Page
set_size n p = write_uint 2 p 8 n

-- The constructor; `capacity` is a `uint16_t`, and `start` is the member `data`.
unfoldable pub wrap : TupleDesc → ℕ → LeafPage
wrap td key_index =
    let capacity : ℕ = (page_size - header_size) / desc_length td % 2 ^ 16 in
    record {
      td = td;
      key_index = key_index;
      capacity = capacity;
      start = page_size - desc_length td * capacity;
    }

-- `std::get<int>(t.get_field(key_index))`.
unfoldable pub int_field : {S : Type 0} → Tuple → ℕ → M S ℤ
int_field t i = get_field t i >>= λ field. elim field [
  | Field.int z ↦ pure z
  | Field.double d ↦ fail bad_variant_access
  | Field.string s ↦ fail bad_variant_access
]

module _ (lp : LeafPage) where
  -- `data + slot * td.length()`.
  abbrev pub slot_offset : ℕ → ℕ
  slot_offset slot = lp.start + slot * desc_length lp.td

  -- What an `Iterator` over the keys shows at a slot, for the offset of the key in a tuple.
  unfoldable pub key_at : ℕ → Page → ℕ → ℤ
  key_at offset p slot = read_int p (lp.start + offset + slot * desc_length lp.td)

  -- The tuples from `slot` on are moved up by one, and `size` grows.
  unfoldable pub make_room : ℕ → Page → Page
  make_room slot p = set_size (suc (get_size p)) (
      copy_bytes ((get_size p - slot) * desc_length lp.td) p (slot_offset slot) p
        (slot_offset (suc slot)))

  unfoldable pub insert_tuple : Tuple → M Page Bool
  insert_tuple t = do
    key ← int_field t lp.key_index
    offset ← offset_of lp.td lp.key_index
    p ← get
    let slot = lower_bound (λ i. ltb_ℤ (key_at offset p i) key) (get_size p)
    if leb (get_size p) slot || not (eqb_ℤ key (key_at offset p slot))
        then modify (make_room slot)
        else pure tt
    serialize lp.td (slot_offset slot) t
    p' ← get
    pure (get_size p' == lp.capacity)

  unfoldable pub get_tuple : ℕ → M Page Tuple
  get_tuple slot p =
      if leb (get_size p) slot then throw out_of_range p else deserialize lp.td (slot_offset slot) p

  -- The writes of `split`, to this page and to the new one.
  unfoldable pub split_pages : LeafPage → Page × Page → Page × Page
  split_pages new (p, q) =
      let half : ℕ = get_size p / 2 in
      (
        set_size half p,
        copy_bytes ((get_size p - half) * desc_length lp.td) p (slot_offset half)
            (set_next_leaf (next_leaf p) (set_size (get_size p - half) q)) new.start,
      )

  -- `split`, on this page and the new one: the key is read from the new page.
  unfoldable pub split : LeafPage → M (Page × Page) ℤ
  split new = do
    modify (split_pages new)
    t ← zoom (λ (s : Page × Page). s.1) (λ q s. (s.0, q)) (deserialize lp.td new.start)
    int_field t lp.key_index
