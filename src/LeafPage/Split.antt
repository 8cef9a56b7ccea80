-- ===== src/LeafPage/Split.antt =====
-- `split` and `getTuple` of src/db/LeafPage.cpp.
use cs660_spring2025_pa.Base.{
  ℕ, suc, ◌+◌, ◌-◌, ◌*◌, ◌/◌, ◌^◌, ◌≤◌, ◌<◌, ◌≡◌, refl, ap, sym, subst, ◌∙◌, ◌⊎◌, inl, inr, List,
  [], ◌∷◌, map, some, ok, throw, out_of_range, length, All, get_elem?, take, drop, tabulate-cong,
  tabulate-take, tabulate-drop, map-take, map-drop, length-take, length-drop, All-take, All-drop,
  lt_of_get_elem?, All-get_elem?, get_elem?_of_lt, false, arith, leb, dec_lt, ◌>>=◌, zoom,
}
use cs660_spring2025_pa.Base.Int.{◌<ℤ◌}
use cs660_spring2025_pa.Memory.{Page, copy_bytes}
use cs660_spring2025_pa.Memory.Laws.{
  load-cong, read-write_uint, read-write_uint-Apart, copy_bytes_outside,
}
use cs660_spring2025_pa.Memory.Rows.{row-copied}
use cs660_spring2025_pa.Tuple.{Tuple, desc_length, deserialize}
use cs660_spring2025_pa.Tuple.Bytes.{tuple_bytes, deserialize-load}
use cs660_spring2025_pa.Search.Keys.{IsSorted, IsSorted-take, IsSorted-drop, take-lt-drop}
use cs660_spring2025_pa.LeafPage.{
  LeafPage, next_leaf, set_next_leaf, get_size, set_size, slot_offset, split_pages, split,
  get_tuple,
}
use cs660_spring2025_pa.LeafPage.Contents.{
  IsLeaf, IsRow, Holds, key, leaf_row, int_field_lem, at_index,
}
use cs660_spring2025_pa.LeafPage.Room.{
  set_size_outside, get_size-set_size, next_leaf-set_size, get_size-cong, next_leaf-cong,
}

pub split_first :
    {A : Type 0} (l : List A) → 0 < length l → (a : A) × (rest : List A) × (l ≡ a ∷ rest)
split_first [] h = absurd (omega arith)
split_first (a ∷ l) h = (a, l, refl)

get_size-set_next_leaf : (n : ℕ) (p : Page) → get_size (set_next_leaf n p) ≡ get_size p
unfolding get_size set_next_leaf
get_size-set_next_leaf n p = read-write_uint-Apart 2 8 p 8 0 n (inr (omega arith))

next_leaf-set_next_leaf : (n : ℕ) (p : Page) → n < 256 ^ 8 → next_leaf (set_next_leaf n p) ≡ n
unfolding next_leaf set_next_leaf
next_leaf-set_next_leaf n p h = read-write_uint 8 p 0 n h

mul-le : (a b w : ℕ) → a ≤ b → a * w ≤ b * w
mul-le a b w h = grind arith

add-mul : (a b w : ℕ) → (a + b) * w ≡ a * w + b * w
add-mul a b w = grind arith

-- The bytes of a tuple of the leaf are read back as that tuple.
pub read_row :
    (lp : LeafPage) (leaf : IsLeaf lp) (p : Page) (ts : List Tuple)
    → Holds lp p ts
    → length ts ≤ lp.capacity
    → (i : ℕ) (t : Tuple) → get_elem? ts i ≡ some t
    → deserialize lp.td (slot_offset lp i) p ≡ ok t p
read_row lp leaf p ts h within i t e =
    let r = All-get_elem? (IsRow lp) ts i t h.rows e in
    deserialize-load lp.td t (slot_offset lp i) p r.0 r.1
      (omega (
        arith,
        leaf.inside,
        lt_of_get_elem? ts i t e,
        mul-le (suc i) lp.capacity (desc_length lp.td) (omega (arith, lt_of_get_elem? ts i t e)),
        add-mul 1 i (desc_length lp.td),
        ap (λ (n : ℕ). n * desc_length lp.td) {x = suc i} {y = 1 + i} (omega arith),
      ))
      (at_index lp (leaf_row lp p) (leaf_row lp p) tuple_bytes ts h.bytes h.rows (λ j s k b. b) i t
        e)

-- `getTuple` of a leaf: of a slot in use it returns the tuple there, and of any other it throws; the
-- page is as it was.
pub get_tuple-Holds :
    (lp : LeafPage) (leaf : IsLeaf lp) (p : Page) (ts : List Tuple)
    → Holds lp p ts
    → length ts ≤ lp.capacity
    → (slot : ℕ)
    → ((t : Tuple) × (get_elem? ts slot ≡ some t) × (get_tuple lp slot p ≡ ok t p))
      ⊎ ((length ts ≤ slot) × (get_tuple lp slot p ≡ throw out_of_range p))
unfolding get_tuple
get_tuple-Holds lp leaf p ts h within slot = elim (dec_lt slot (length ts)) [
  | no ge ↦ inr (omega arith, ground (arith, h.size))
  | yes lt ↦
      let (t, e) = get_elem?_of_lt ts slot lt in
      let inside : leb (get_size p) slot ≡ false = ground (arith, h.size) in
      inl (t, e, rw inside (read_row lp leaf p ts h within slot t e))
]

module _ (lp : LeafPage) (leaf : IsLeaf lp) (p q : Page) (ts : List Tuple) (h : Holds lp p ts)
    (within : length ts ≤ lp.capacity) where
  half : ℕ
  half = get_size p / 2

  half-le : half ≤ length ts
  unfolding half
  half-le = omega (arith, h.size)

  kept : Page
  kept = set_size half p

  kept-Holds : Holds lp kept (take half ts)
  unfolding kept
  kept-Holds = record {
    size =
        get_size-set_size half p (omega (arith, half-le, leaf.small))
        ∙ sym (length-take half ts half-le);
    bytes = rw (length-take half ts half-le) (
        tabulate-cong (leaf_row lp (set_size half p)) (leaf_row lp p) half (λ i lt.
          load-cong (desc_length lp.td) _ p (lp.start + i * desc_length lp.td)
            (λ k a b. set_size_outside half p k (inr (omega (arith, leaf.behind)))))
        ∙ tabulate-take (leaf_row lp p) (length ts) half half-le
        ∙ ap (take half) h.bytes
        ∙ sym (map-take tuple_bytes half ts));
    rows = All-take (IsRow lp) half ts h.rows;
    sorted =
        subst IsSorted (sym (map-take (key lp) half ts))
          (IsSorted-take half (map (key lp) ts) h.sorted);
  }

  fresh : Page
  fresh = set_next_leaf (next_leaf p) (set_size (get_size p - half) q)

  moved : Page
  moved =
      copy_bytes ((get_size p - half) * desc_length lp.td) p (slot_offset lp half) fresh lp.start

  moved_row : (i : ℕ) → i < length ts - half → leaf_row lp moved i ≡ leaf_row lp p (half + i)
  unfolding moved
  moved_row i lt =
      row-copied lp.start (desc_length lp.td) (get_size p - half) p fresh half i
        (omega (arith, h.size))

  moved_header : (i : ℕ) → i < 16 → moved i ≡ fresh i
  unfolding moved
  moved_header i lt =
      copy_bytes_outside ((get_size p - half) * desc_length lp.td) p (slot_offset lp half) fresh
        lp.start i (inl (omega (arith, leaf.behind)))

  moved-Holds : Holds lp moved (drop half ts)
  unfolding fresh
  moved-Holds = record {
    size =
        get_size-cong moved fresh moved_header
        ∙ get_size-set_next_leaf (next_leaf p) (set_size (get_size p - half) q)
        ∙ get_size-set_size (get_size p - half) q (omega (arith, h.size, leaf.small))
        ∙ ap (λ (n : ℕ). n - half) h.size
        ∙ sym (length-drop half ts);
    bytes = rw (length-drop half ts) (
        tabulate-cong (leaf_row lp moved) (λ i. leaf_row lp p (half + i)) (length ts - half)
          moved_row
        ∙ tabulate-drop (leaf_row lp p) (length ts) half half-le
        ∙ ap (drop half) h.bytes
        ∙ sym (map-drop tuple_bytes half ts));
    rows = All-drop (IsRow lp) half ts h.rows;
    sorted =
        subst IsSorted (sym (map-drop (key lp) half ts))
          (IsSorted-drop half (map (key lp) ts) h.sorted);
  }

  -- `split` of a leaf with tuples, whose link is a `size_t`, onto a new page: it returns; this leaf
  -- holds the first half of the tuples and the new one the rest, which has the link that this leaf
  -- had and keeps; the result is the first key of the new leaf, which is above the keys of this one.
  pub split-Holds :
      0 < length ts
      → next_leaf p < 256 ^ 8
      → (first : Tuple) × (rest : List Tuple) × (p' : Page) × (q' : Page) × (split lp lp (p, q)
          ≡ ok (key lp first) (p', q'))
        × Holds lp p' (take (length ts / 2) ts)
        × Holds lp q' (drop (length ts / 2) ts)
        × (drop (length ts / 2) ts ≡ first ∷ rest)
        × All (λ k. k <ℤ key lp first) (map (key lp) (take (length ts / 2) ts))
        × (next_leaf p' ≡ next_leaf p)
        × (next_leaf q' ≡ next_leaf p)
  unfolding half kept moved fresh split split_pages
  split-Holds some_left link =
      let same : half ≡ length ts / 2 = ap (λ (n : ℕ). n / 2) h.size in
      let (first, rest, e) =
        split_first (drop half ts) (omega (arith, length-drop half ts, h.size)) in
      let row : IsRow lp first =
        (subst (All (IsRow lp)) e (All-drop (IsRow lp) half ts h.rows)).0 in
      let start : slot_offset lp 0 ≡ lp.start = omega arith in
      let read : deserialize lp.td lp.start moved ≡ ok first moved =
        subst (λ o. deserialize lp.td o moved ≡ ok first moved) start
          (read_row lp leaf moved (drop half ts) moved-Holds (omega (arith, length-drop half ts)) 0
            first (ap (λ l. get_elem? l 0) e)) in
      (
        first,
        rest,
        kept,
        moved,
        rw (◌>>=◌, zoom, read, int_field_lem lp leaf {S = Page × Page} first (kept, moved) row),
        subst (λ (n : ℕ). Holds lp kept (take n ts)) same kept-Holds,
        subst (λ (n : ℕ). Holds lp moved (drop n ts)) same moved-Holds,
        subst (λ (n : ℕ). drop n ts ≡ first ∷ rest) same e,
        subst (λ (n : ℕ). All (λ k. k <ℤ key lp first) (map (key lp) (take n ts))) same
            (subst (All (λ k. k <ℤ key lp first)) (sym (map-take (key lp) half ts)) (
              take-lt-drop half (map (key lp) ts) (map (key lp) rest) (key lp first) h.sorted
                (sym (map-drop (key lp) half ts) ∙ ap (map (key lp)) e))),
        next_leaf-set_size half p,
        next_leaf-cong moved fresh moved_header ∙ next_leaf-set_next_leaf (next_leaf p) _ link,
      )
