-- ===== src/LeafPage/Room.antt =====
-- The bytes of a leaf page after `insertTuple`: a tuple in the place of another, or put in before it.
use cs660_spring2025_pa.Base.{
  ℕ, suc, ◌+◌, ◌-◌, ◌*◌, ◌^◌, ◌≤◌, ◌<◌, ◌≡◌, ◌∙◌, ◌⊎◌, inl, inr, List, length, set, tabulate,
  tabulate-cong, insert_at, arith,
}
use cs660_spring2025_pa.Memory.{Page, store, read_uint, write_uint}
use cs660_spring2025_pa.Memory.Laws.{
  store_outside, load-cong, read-write_uint, read-write_uint-Apart, copy_bytes_outside,
  length-encode_le,
}
use cs660_spring2025_pa.Memory.Rows.{store-cong, shifted, rows-shifted, rows-store}
use cs660_spring2025_pa.Tuple.{desc_length}
use cs660_spring2025_pa.LeafPage.{LeafPage, next_leaf, get_size, set_size, slot_offset, make_room}
use cs660_spring2025_pa.LeafPage.Contents.{IsLeaf, leaf_row}

-- `size` is written to the bytes 8 and 9.
pub set_size_outside : (n : ℕ) (p : Page) (i : ℕ) → (i < 8) ⊎ (10 ≤ i) → set_size n p i ≡ p i
unfolding set_size write_uint
set_size_outside n p i h = store_outside p 8 _ i (omega (arith, length-encode_le 2 n))

pub get_size-set_size : (n : ℕ) (p : Page) → n < 2 ^ 16 → get_size (set_size n p) ≡ n
unfolding get_size set_size
get_size-set_size n p h = read-write_uint 2 p 8 n h

pub next_leaf-set_size : (n : ℕ) (p : Page) → next_leaf (set_size n p) ≡ next_leaf p
unfolding next_leaf set_size
next_leaf-set_size n p = read-write_uint-Apart 8 2 p 0 8 n (inl (omega arith))

-- The header is read from the first 16 bytes.
pub get_size-cong : (p q : Page) → ((i : ℕ) → i < 16 → p i ≡ q i) → get_size p ≡ get_size q
unfolding get_size read_uint
get_size-cong p q h = rw (load-cong 2 p q 8 (λ i a b. h i (omega arith)))

pub next_leaf-cong : (p q : Page) → ((i : ℕ) → i < 16 → p i ≡ q i) → next_leaf p ≡ next_leaf q
unfolding next_leaf read_uint
next_leaf-cong p q h = rw (load-cong 8 p q 0 (λ i a b. h i (omega arith)))

module _ (lp : LeafPage) (leaf : IsLeaf lp) (p : Page) (slot : ℕ) (bs : List ℕ)
    (size : length bs ≡ desc_length lp.td) where
  w : ℕ
  w = desc_length lp.td

  header_kept : (q : Page) (i : ℕ) → i < 16 → store q (slot_offset lp slot) bs i ≡ q i
  header_kept q i h = store_outside q (slot_offset lp slot) bs i (omega (arith, leaf.behind))

  -- A tuple written over the one at a slot.
  pub replaced_rows :
      (n : ℕ)
      → slot < n
      → tabulate (leaf_row lp (store p (slot_offset lp slot) bs)) n
        ≡ set (tabulate (leaf_row lp p) n) slot bs
  replaced_rows n lt = rows-store lp.start (desc_length lp.td) p slot n bs lt size

  pub replaced_size : get_size (store p (slot_offset lp slot) bs) ≡ get_size p
  replaced_size = get_size-cong _ p (header_kept p)

  pub replaced_next : next_leaf (store p (slot_offset lp slot) bs) ≡ next_leaf p
  replaced_next = next_leaf-cong _ p (header_kept p)

  -- A tuple put in at a slot.
  module _ (le : slot ≤ get_size p) (room : get_size p < lp.capacity) where
    inserted : Page
    inserted = store (make_room lp slot p) (slot_offset lp slot) bs

    behind_header :
        (i : ℕ)
        → 16 ≤ i
        → inserted i ≡ shifted lp.start (desc_length lp.td) p slot (get_size p) bs i
    unfolding inserted make_room
    behind_header i h =
        store-cong _ _ (slot_offset lp slot) bs i (set_size_outside _ _ i (inr (omega arith)))

    pub inserted_rows :
        tabulate
          (leaf_row lp (store (make_room lp slot p) (slot_offset lp slot) bs))
          (suc (get_size p))
        ≡ insert_at (tabulate (leaf_row lp p) (get_size p)) slot bs
    unfolding inserted
    inserted_rows =
        tabulate-cong (leaf_row lp inserted)
          (leaf_row lp (shifted lp.start (desc_length lp.td) p slot (get_size p) bs))
          (suc (get_size p))
          (λ i h.
            load-cong (desc_length lp.td) inserted _ (lp.start + i * desc_length lp.td)
              (λ k a b. behind_header k (omega (arith, leaf.behind))))
        ∙ rows-shifted lp.start (desc_length lp.td) p slot (get_size p) bs le size

    pub inserted_size :
        get_size (store (make_room lp slot p) (slot_offset lp slot) bs) ≡ suc (get_size p)
    unfolding make_room
    inserted_size =
        get_size-cong _ (make_room lp slot p) (header_kept (make_room lp slot p))
        ∙ get_size-set_size (suc (get_size p)) _ (omega (arith, leaf.small))

    pub inserted_next :
        next_leaf (store (make_room lp slot p) (slot_offset lp slot) bs) ≡ next_leaf p
    unfolding make_room
    inserted_next =
        next_leaf-cong _ (make_room lp slot p) (header_kept (make_room lp slot p))
        ∙ next_leaf-set_size (suc (get_size p)) _
        ∙ next_leaf-cong _ p (λ i h.
          copy_bytes_outside ((get_size p - slot) * desc_length lp.td) p (slot_offset lp slot) p
            (slot_offset lp (suc slot)) i (inl (omega (arith, leaf.behind))))
