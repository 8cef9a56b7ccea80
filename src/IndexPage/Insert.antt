-- ===== src/IndexPage/Insert.antt =====
-- `insert` of src/db/IndexPage.cpp on the list of entries.
use cs660_spring2025_pa.Base.{
  ℕ, suc, ◌+◌, ◌-◌, ◌*◌, ◌^◌, ◌≤◌, ◌<◌, ◌≡◌, ◌≢◌, ap, ap₂, sym, subst, ◌∙◌, ◌⊎◌, inl, inr, List,
  ◌∷◌, map, length, All, ok, tabulate, insert_at, map-insert_at, length-insert_at, map-tabulate_at,
  lt_of_get_elem?, arith, ◌==◌,
}
use cs660_spring2025_pa.Base.Int.{ℤ, IsInt, ltb_ℤ, to_u32}
use cs660_spring2025_pa.Memory.{Page, encode_le, decode_le, copy_bytes, write_int, write_uint}
use cs660_spring2025_pa.Memory.Laws.{
  load-cong, length-encode_le, copy_bytes_outside, decode_le-encode_le,
}
use cs660_spring2025_pa.Memory.Rows.{store-cong, copy_bytes-cong, shifted, rows-shifted}
use cs660_spring2025_pa.Search.{lower_bound}
use cs660_spring2025_pa.Search.Bound.{Splits}
use cs660_spring2025_pa.Search.Keys.{IsSorted, search-Splits, put, put-Splits, put-IsSorted}
use cs660_spring2025_pa.IndexPage.{
  capacity, keys, children, get_size, index_children, key_at, child_at, set_key, set_child,
  move_keys, move_children, insert_page, insert,
}
use cs660_spring2025_pa.IndexPage.Contents.{
  Entry, key, child, Holds, key_row, child_row, int_value, key_at-rows, child_at-rows,
  key_rows-cong, child_rows-cong, set_size_outside, get_size-set_size, get_size-cong,
  index_children-cong, set_key_outside, set_child_outside, int_value-encode,
}

module _ (p : Page) (slot : ℕ) (k : ℤ) (c : ℕ) (le : slot ≤ get_size p)
    (room : get_size p < capacity) where
  p1 : Page
  p1 = move_keys slot p

  p2 : Page
  p2 = move_children slot p1

  abbrev n : ℕ
  n = get_size p

  p1_outside : (i : ℕ) → (i < keys) ⊎ (keys + suc n * 4 ≤ i) → p1 i ≡ p i
  unfolding p1 move_keys
  p1_outside i h =
      copy_bytes_outside ((get_size p - slot) * 4) p (keys + slot * 4) p (keys + suc slot * 4) i
        (omega arith)

  p1_size : get_size p1 ≡ n
  p1_size = get_size-cong p1 p (λ i h. p1_outside i (inl (omega arith)))

  p2_low : (i : ℕ) → i < children → p2 i ≡ p1 i
  unfolding p2 move_children
  p2_low i h =
      copy_bytes_outside ((suc (get_size p1) - suc slot) * 8) p1 (children + suc slot * 8) p1
        (children + suc (suc slot) * 8) i (inl (omega arith))

  -- On the keys the page is one with the later keys moved up and the key written.
  insert_keys :
      (i : ℕ)
      → keys ≤ i
      → i < keys + suc n * 4
      → insert_page slot k c p i ≡ shifted keys 4 p slot n (encode_le 4 (to_u32 k)) i
  unfolding insert_page p1 p2
  insert_keys i a b =
      set_size_outside _ _ i (omega arith)
      ∙ set_child_outside (suc slot) c _ i (omega arith)
      ∙ written
    where
      written : set_key slot k p2 i ≡ shifted keys 4 p slot (get_size p) (encode_le 4 (to_u32 k)) i
      written =
          unfold set_key in
          unfold write_int in
          unfold write_uint in
          unfold move_keys in
          store-cong p2 p1 (keys + slot * 4) (encode_le 4 (to_u32 k)) i
            (p2_low i (omega (arith, room)))

  -- And the same on the children, one place further.
  insert_children :
      (i : ℕ)
      → children ≤ i
      → insert_page slot k c p i ≡ shifted children 8 p (suc slot) (suc n) (encode_le 8 c) i
  unfolding insert_page p1 p2
  insert_children i a = set_size_outside _ _ i (omega arith) ∙ written
    where
      moved :
          move_children slot p1 i
          ≡ copy_bytes
              ((suc (get_size p) - suc slot) * 8)
              p
              (children + suc slot * 8)
              p
              (children + suc (suc slot) * 8)
              i
      moved =
          unfold move_children in
          ap
            (λ (m : ℕ).
              copy_bytes ((suc m - suc slot) * 8) p1 (children + suc slot * 8) p1
                (children + suc (suc slot) * 8) i)
            p1_size
          ∙ copy_bytes-cong _ p1 p (children + suc slot * 8) (children + suc (suc slot) * 8) i
              (load-cong _ p1 p (children + suc slot * 8)
                (λ j x y. p1_outside j (inr (omega (arith, room)))))
              (p1_outside i (inr (omega (arith, room))))

      written :
          set_child (suc slot) c (set_key slot k p2) i
          ≡ shifted children 8 p (suc slot) (suc (get_size p)) (encode_le 8 c) i
      written =
          unfold set_child in
          unfold write_uint in
          store-cong _ _ (children + suc slot * 8) (encode_le 8 c) i
            (set_key_outside slot k p2 i (inr (omega (arith, room))) ∙ moved)

  pub insert_page_size : get_size (insert_page slot k c p) ≡ suc n
  unfolding insert_page p1
  insert_page_size = get_size-set_size (suc (get_size p)) _ (omega (arith, room))

  insert_page_kind : index_children (insert_page slot k c p) ≡ index_children p
  unfolding insert_page p1 p2
  insert_page_kind = index_children-cong _ p (
      set_size_outside _ _ 2 (omega arith)
      ∙ set_child_outside (suc slot) c _ 2 (omega arith)
      ∙ set_key_outside slot k p2 2 (inl (omega arith))
      ∙ p2_low 2 (omega arith)
      ∙ p1_outside 2 (inl (omega arith)))

  pub insert_page_keys :
      IsInt k
      → tabulate (key_at (insert_page slot k c p)) (suc n)
        ≡ insert_at (tabulate (key_at p) n) slot k
  insert_page_keys small =
      key_at-rows (insert_page slot k c p) (suc (get_size p))
      ∙ ap (map int_value) (
          key_rows-cong (insert_page slot k c p)
            (shifted keys 4 p slot (get_size p) (encode_le 4 (to_u32 k))) (suc (get_size p))
            insert_keys
          ∙ rows-shifted keys 4 p slot (get_size p) (encode_le 4 (to_u32 k)) le
              (length-encode_le 4 (to_u32 k)))
      ∙ map-insert_at int_value (tabulate (key_row p) (get_size p)) slot (encode_le 4 (to_u32 k))
      ∙ ap₂ (λ l x. insert_at l slot x) (sym (key_at-rows p (get_size p)))
          (int_value-encode k small)

  pub insert_page_children :
      c < 256 ^ 8
      → tabulate (child_at (insert_page slot k c p)) (suc (suc n))
        ≡ insert_at (tabulate (child_at p) (suc n)) (suc slot) c
  insert_page_children small =
      child_at-rows (insert_page slot k c p) (suc (suc (get_size p)))
      ∙ ap (map decode_le) (
          child_rows-cong (insert_page slot k c p)
            (shifted children 8 p (suc slot) (suc (get_size p)) (encode_le 8 c))
            (suc (suc (get_size p))) insert_children
          ∙ rows-shifted children 8 p (suc slot) (suc (get_size p)) (encode_le 8 c) (omega arith)
              (length-encode_le 8 c))
      ∙ map-insert_at decode_le (tabulate (child_row p) (suc (get_size p))) (suc slot)
          (encode_le 8 c)
      ∙ ap₂ (λ l x. insert_at l (suc slot) x) (sym (child_at-rows p (suc (get_size p))))
          (decode_le-encode_le 8 c small)

module _ (p : Page) (first : ℕ) (es : List Entry) (h : Holds p first es) (k : ℤ) (c : ℕ) where
  place : ℕ
  place = lower_bound (λ i. ltb_ℤ (key_at p i) k) (get_size p)

  place-Splits : Splits (λ i. ltb_ℤ (key_at p i) k) 0 (length es) place
  unfolding place
  place-Splits =
      rw h.size (search-Splits (key_at p) (length es) k (subst IsSorted (sym h.key_list) h.sorted))

  put-place : put key (k, c) es ≡ insert_at es place (k, c)
  put-place =
      let s = place-Splits in
      put-Splits key (k, c) es place s.below
        (λ i x lt e.
          ap (λ j. ltb_ℤ j k) (sym (map-tabulate_at key (key_at p) es h.key_list i x e))
          ∙ s.low i (omega arith) lt)
        (λ i x ge e.
          ap (λ j. ltb_ℤ j k) (sym (map-tabulate_at key (key_at p) es h.key_list i x e))
          ∙ s.high i ge (lt_of_get_elem? es i x e))

  -- `insert` of a new key with its child into a node that is not full: it returns, the node holds its
  -- first child and the entries that it held in the order of their keys, with the new one among them;
  -- the result is whether the node is full now, and `index_children` is as before.
  pub insert-put :
      length es < capacity
      → IsInt k
      → c < 256 ^ 8
      → All (λ j. j ≢ k) (map key es)
      → (q : Page) × (insert k c p ≡ ok (length (put key (k, c) es) == capacity) q)
        × Holds q first (put key (k, c) es)
        × (index_children q ≡ index_children p)
  unfolding insert place insert_at
  insert-put room int small new =
      let s = place-Splits in
      let le : place ≤ get_size p = omega (arith, s.below, h.size) in
      let fits : get_size p < capacity = omega (arith, h.size) in
      let q : Page = insert_page place k c p in
      let count : length (put key (k, c) es) ≡ suc (length es) =
        ap length put-place ∙ length-insert_at es place (k, c) in
      let size : get_size q ≡ length (put key (k, c) es) =
        insert_page_size p place k c le fits ∙ ap suc h.size ∙ sym count in
      (
        q,
        ap (λ m. ok (m == capacity) q) size,
        record {
          size = size;
          key_list =
              ap (tabulate (key_at q)) (count ∙ ap suc (sym h.size))
              ∙ insert_page_keys p place k c le fits int
              ∙ ap (λ m. insert_at (tabulate (key_at p) m) place k) h.size
              ∙ ap (λ l. insert_at l place k) h.key_list
              ∙ sym (map-insert_at key es place (k, c))
              ∙ ap (map key) (sym put-place);
          child_list =
              ap (λ m. tabulate (child_at q) (suc m)) (count ∙ ap suc (sym h.size))
              ∙ insert_page_children p place k c le fits small
              ∙ ap (λ m. insert_at (tabulate (child_at p) (suc m)) (suc place) c) h.size
              ∙ ap (λ l. insert_at l (suc place) c) h.child_list
              ∙ ap (◌∷◌ first) (sym (map-insert_at child es place (k, c)))
              ∙ ap (λ l. first ∷ map child l) (sym put-place);
          sorted = put-IsSorted key (k, c) es h.sorted new;
        },
        insert_page_kind p place k c le fits,
      )
