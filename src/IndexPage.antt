-- ===== src/IndexPage.antt =====
-- include/db/IndexPage.hpp and src/db/IndexPage.cpp: an inner node of a B+ tree, a page with an array
-- of keys (`int`) and an array of page numbers of its children (`size_t`), one more than keys. The
-- header is `size` in the first two bytes and `index_children` in the third; with its padding it has
-- 4 bytes. `keys` and `children` are offsets; the constructor computes the same for every page.
pub mod Contents
pub mod Insert
pub mod Split
use cs660_spring2025_pa.Base.{
  ℕ, suc, ◌+◌, ◌-◌, ◌*◌, ◌/◌, ◌^◌, Bool, true, false, not, ◌==◌, if◌then◌else◌, M, Outcome, ok,
}
use cs660_spring2025_pa.Base.Int.{ℤ, ltb_ℤ}
use cs660_spring2025_pa.Memory.{
  Page, page_size, put_byte, copy_bytes, read_uint, write_uint, read_int, write_int,
}
use cs660_spring2025_pa.Search.{lower_bound}

-- `sizeof(IndexPageHeader)`, and the members that the constructor sets.
abbrev pub header_size : ℕ
header_size = 4

abbrev pub capacity : ℕ
capacity = (page_size - header_size - 4) / (4 + 8)

abbrev pub keys : ℕ
keys = header_size

abbrev pub children : ℕ
children = keys + (capacity + 1) * 4

unfoldable pub get_size : Page → ℕ
get_size p = read_uint 2 p 0

unfoldable pub set_size : ℕ → Page → Page
set_size n p = write_uint 2 p 0 n

unfoldable pub index_children : Page → Bool
index_children p = not (p 2 == 0)

unfoldable pub set_index_children : Bool → Page → Page
set_index_children b p = put_byte p 2 (if b then 1 else 0)

unfoldable pub key_at : Page → ℕ → ℤ
key_at p i = read_int p (keys + i * 4)

unfoldable pub child_at : Page → ℕ → ℕ
child_at p i = read_uint 8 p (children + i * 8)

unfoldable pub set_key : ℕ → ℤ → Page → Page
set_key i key p = write_int p (keys + i * 4) key

unfoldable pub set_child : ℕ → ℕ → Page → Page
set_child i child p = write_uint 8 p (children + i * 8) child

-- The two `move_backward` of `insert`.
unfoldable pub move_keys : ℕ → Page → Page
move_keys slot p = copy_bytes ((get_size p - slot) * 4) p (keys + slot * 4) p (keys + suc slot * 4)

unfoldable pub move_children : ℕ → Page → Page
move_children slot p =
    copy_bytes ((suc (get_size p) - suc slot) * 8) p (children + suc slot * 8) p
      (children + suc (suc slot) * 8)

-- The page after an insertion at a slot.
unfoldable pub insert_page : ℕ → ℤ → ℕ → Page → Page
insert_page slot key child p =
    set_size (suc (get_size p))
      (set_child (suc slot) child (set_key slot key (move_children slot (move_keys slot p))))

unfoldable pub insert : ℤ → ℕ → M Page Bool
insert key child p =
    let slot : ℕ = lower_bound (λ i. ltb_ℤ (key_at p i) key) (get_size p) in
    let p' : Page = insert_page slot key child p in ok (get_size p' == capacity) p'

-- The writes of `split`, to this page and to the new one. A `size` of 0 would wrap to 2^16 - 1.
unfoldable pub split_pages : Page × Page → Page × Page
split_pages (p, q) =
    let half : ℕ = get_size p / 2 in
    let q1 : Page = set_size (get_size p + 2 ^ 16 - half - 1) q in
    let q2 : Page = set_index_children (index_children p) q1 in
    let q3 : Page = copy_bytes ((get_size p - suc half) * 4) p (keys + suc half * 4) q2 keys in
    let q4 : Page =
      copy_bytes ((suc (get_size p) - suc half) * 8) p (children + suc half * 8) q3 children in
    (set_size half p, q4)

-- `split`, on this page and the new one.
unfoldable pub split : M (Page × Page) ℤ
split (p, q) = let (p', q') = split_pages (p, q) in ok (key_at p' (get_size p / 2)) (p', q')
