-- ===== src/IndexPage/Split.antt =====
-- `split` of src/db/IndexPage.cpp on the list of entries.
use cs660_spring2025_pa.Base.{
  ℕ, zero, suc, ◌+◌, ◌-◌, ◌*◌, ◌/◌, ◌%◌, ◌^◌, ◌≤◌, ◌<◌, ◌≡◌, ap, sym, subst, ◌∙◌, inl, Bool, true,
  false, List, [], ◌∷◌, map, length, All, get_elem?, get_elem?_of_lt, some, ok, take, drop,
  tabulate, tabulate-cong, tabulate-take, tabulate-drop, map-take, map-drop, length-take,
  length-drop, map-tabulate_at, arith,
}
use cs660_spring2025_pa.Base.Int.{◌<ℤ◌}
use cs660_spring2025_pa.Memory.{
  Page, store, encode_le, copy_bytes, write_uint, read_int, read_uint, decode_le,
}
use cs660_spring2025_pa.Memory.Laws.{load-cong, copy_bytes_outside}
use cs660_spring2025_pa.Memory.Rows.{row-copied}
use cs660_spring2025_pa.Search.Keys.{IsSorted, IsSorted-take, IsSorted-drop, take-lt-drop}
use cs660_spring2025_pa.IndexPage.{
  capacity, keys, children, get_size, set_size, index_children, set_index_children, key_at,
  child_at, split_pages, split,
}
use cs660_spring2025_pa.IndexPage.Contents.{
  Entry, key, child, Holds, int_value, set_size_outside, get_size-set_size, get_size-cong,
  index_children-cong,
}

drop-get_elem? :
    {A : Type 0} (l : List A) (n : ℕ) (a : A)
    → get_elem? l n ≡ some a
    → drop n l ≡ a ∷ drop (suc n) l
unfolding drop
drop-get_elem? [] n a h = cc
drop-get_elem? (x ∷ []) zero a h = ap (λ y. y ∷ []) (cc)
drop-get_elem? (x ∷ y ∷ l) zero a h = ap (λ z. z ∷ y ∷ l) (cc)
drop-get_elem? (x ∷ l) (suc n) a h = drop-get_elem? l n a h

-- `uint16_t` arithmetic: 2^16 more is the same value.
set_size_wrap : (n : ℕ) (p : Page) → set_size (n + 2 ^ 16) p ≡ set_size n p
unfolding set_size write_uint encode_le
set_size_wrap n p =
    ap (λ a. store p 0 (a ∷ (n + 2 ^ 16) / 256 % 256 ∷ [])) {x = (n + 2 ^ 16) % 256} {y = n % 256}
      (omega arith)
    ∙ ap (λ b. store p 0 (n % 256 ∷ b ∷ [])) {x = (n + 2 ^ 16) / 256 % 256} {y = n / 256 % 256}
        (omega arith)

index_children-set : (b : Bool) (p : Page) → index_children (set_index_children b p) ≡ b
unfolding index_children set_index_children
index_children-set true p = ground arith
index_children-set false p = ground arith

module _ (p q : Page) (first : ℕ) (es : List Entry) (h : Holds p first es) (mid : Entry)
    (found : get_elem? es (length es / 2) ≡ some mid) (some_left : 0 < length es)
    (within : length es ≤ capacity) where
  abbrev half : ℕ
  half = length es / 2

  p' : Page
  p' = set_size half p

  kept-Holds : Holds p' first (take half es)
  unfolding p' key_at child_at read_int read_uint
  kept-Holds = record {
    size = get_size-set_size half p (omega arith) ∙ sym (length-take half es (omega arith));
    key_list = rw (length-take half es (omega arith)) (
        tabulate-cong (key_at p') (key_at p) half (λ i lt.
          rw (load-cong 4 p' p (keys + i * 4) (λ k a b. set_size_outside half p k (omega arith))))
        ∙ tabulate-take (key_at p) (length es) half (omega arith)
        ∙ ap (take half) h.key_list
        ∙ sym (map-take key half es));
    child_list = rw (length-take half es (omega arith)) (
        tabulate-cong (child_at p') (child_at p) (suc half) (λ i lt.
          rw (
            load-cong 8 p' p (children + i * 8) (λ k a b. set_size_outside half p k (omega arith))))
        ∙ tabulate-take (child_at p) (suc (length es)) (suc half) (omega arith)
        ∙ ap (take (suc half)) h.child_list
        ∙ ap (◌∷◌ first) (sym (map-take child half es)));
    sorted = subst IsSorted (sym (map-take key half es)) (IsSorted-take half (map key es) h.sorted);
  }

  -- The new page, write by write.
  q2 : Page
  q2 = set_index_children (index_children p) (set_size (length es + 2 ^ 16 - half - 1) q)

  q3 : Page
  q3 = copy_bytes ((length es - suc half) * 4) p (keys + suc half * 4) q2 keys

  q4 : Page
  q4 = copy_bytes ((suc (length es) - suc half) * 8) p (children + suc half * 8) q3 children

  low : (i : ℕ) → i < children → q4 i ≡ q3 i
  unfolding q4
  low i lt = copy_bytes_outside _ p _ q3 children i (inl (omega arith))

  header : (i : ℕ) → i < keys → q4 i ≡ q2 i
  unfolding q3
  header i lt = low i (omega arith) ∙ copy_bytes_outside _ p _ q2 keys i (inl (omega arith))

  moved_key : (i : ℕ) → i < length es - suc half → key_at q4 i ≡ key_at p (suc half + i)
  unfolding key_at read_int read_uint q3
  moved_key i lt = ap int_value (
      load-cong 4 q4 q3 (keys + i * 4) (λ k a b. low k (omega arith))
      ∙ row-copied keys 4 (length es - suc half) p q2 (suc half) i lt)

  moved_child : (i : ℕ) → i < suc (length es) - suc half → child_at q4 i ≡ child_at p (suc half + i)
  unfolding child_at read_uint q4
  moved_child i lt =
      ap decode_le (row-copied children 8 (suc (length es) - suc half) p q3 (suc half) i lt)

  moved-Holds : Holds q4 (child mid) (drop (suc half) es)
  unfolding q2 drop
  moved-Holds = record {
    size =
        get_size-cong q4 q2 (λ i lt. header i (omega arith))
        ∙ kind_size
        ∙ ap (λ n. get_size (set_size n q)) {x = length es + 2 ^ 16 - half - 1}
            {y = length es - half - 1 + 2 ^ 16} (omega arith)
        ∙ ap get_size (set_size_wrap (length es - half - 1) q)
        ∙ get_size-set_size (length es - half - 1) q (omega arith)
        ∙ omega (arith, length-drop (suc half) es);
    key_list = rw (length-drop (suc half) es) (
        tabulate-cong (key_at q4) (λ i. key_at p (suc half + i)) (length es - suc half) moved_key
        ∙ tabulate-drop (key_at p) (length es) (suc half) (omega arith)
        ∙ ap (drop (suc half)) h.key_list
        ∙ sym (map-drop key (suc half) es));
    child_list =
        ap (tabulate (child_at q4)) {x = suc (length (drop (suc half) es))}
          {y = suc (length es) - suc half} (omega (arith, length-drop (suc half) es))
        ∙ tabulate-cong (child_at q4) (λ i. child_at p (suc half + i)) (suc (length es) - suc half)
            moved_child
        ∙ tabulate-drop (child_at p) (suc (length es)) (suc half) (omega arith)
        ∙ ap (drop (suc half)) h.child_list
        ∙ sym (map-drop child half es)
        ∙ ap (map child) (drop-get_elem? es half mid found);
    sorted =
        subst IsSorted (sym (map-drop key (suc half) es))
          (IsSorted-drop (suc half) (map key es) h.sorted);
  }
    where
      kind_size : get_size q2 ≡ get_size (set_size (length es + 2 ^ 16 - half - 1) q)
      kind_size = get_size-cong q2 _ (λ i lt. unfold set_index_children in ground arith)

  kind_kept : index_children q4 ≡ index_children p
  unfolding q2
  kind_kept =
      index_children-cong q4 q2 (header 2 (omega arith))
      ∙ index_children-set (index_children p) (set_size (length es + 2 ^ 16 - half - 1) q)

  -- What the code computes, with the number of entries for `size`.
  split_run : split (p, q) ≡ ok (key_at p' half) (p', q4)
  unfolding split split_pages p' q2 q3 q4
  split_run = rw h.size

  middle : key_at p' half ≡ key mid
  unfolding p' key_at read_int read_uint
  middle =
      ap int_value
        (load-cong 4 p' p (keys + half * 4) (λ k a b. set_size_outside half p k (omega arith)))
      ∙ map-tabulate_at key (key_at p) es h.key_list half mid found

-- `split` of a node with entries, onto a new page: it returns the middle key. The entries before it
-- stay; the new node has those behind it, with the child of the middle entry first, and the same
-- `index_children`. The middle key is above the keys that stay and below those that are moved.
pub split-entries :
    (p q : Page) (first : ℕ) (es : List Entry)
    → Holds p first es
    → 0 < length es
    → length es ≤ capacity
    → (mid : Entry) × (p' : Page) × (q' : Page) × (split (p, q) ≡ ok (key mid) (p', q'))
      × (get_elem? es (length es / 2) ≡ some mid)
      × Holds p' first (take (length es / 2) es)
      × Holds q' (child mid) (drop (suc (length es / 2)) es)
      × (index_children p' ≡ index_children p)
      × (index_children q' ≡ index_children p)
      × All (λ k. k <ℤ key mid) (map key (take (length es / 2) es))
      × All (λ k. key mid <ℤ k) (map key (drop (suc (length es / 2)) es))
split-entries p q first es h some_left within =
    let half : ℕ = length es / 2 in
    let (mid, found) = get_elem?_of_lt es half (omega arith) in
    let cut : drop half (map key es) ≡ key mid ∷ map key (drop (suc half) es) =
      sym (map-drop key half es) ∙ ap (map key) (drop-get_elem? es half mid found) in
    (
      mid,
      p' p q first es h mid found some_left within,
      q4 p q first es h mid found some_left within,
      split_run p q first es h mid found some_left within
          ∙ ap
              (λ k. ok k (
                p' p q first es h mid found some_left within,
                q4 p q first es h mid found some_left within,
              ))
              (middle p q first es h mid found some_left within),
      found,
      kept-Holds p q first es h mid found some_left within,
      moved-Holds p q first es h mid found some_left within,
      (unfold p' in index_children-cong _ p (set_size_outside half p 2 (omega arith))),
      kind_kept p q first es h mid found some_left within,
      subst (All (λ k. k <ℤ key mid)) (sym (map-take key half es))
          (take-lt-drop half (map key es) (map key (drop (suc half) es)) (key mid) h.sorted cut),
      (subst IsSorted cut (IsSorted-drop half (map key es) h.sorted)).0,
    )
