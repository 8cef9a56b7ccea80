-- ===== src/LeafPage/Insert.antt =====
-- `insertTuple` of src/db/LeafPage.cpp is insert-or-replace on a sorted list.
use cs660_spring2025_pa.Base.{
  ℕ, zero, suc, ◌≤◌, ◌<◌, ◌≡◌, refl, ap, sym, subst, ◌∙◌, Bool, true, false, not, ◌||◌, List, [],
  ◌∷◌, some, ok, length, get_elem?, set, tabulate, insert_at, map-insert_at, map-set,
  lt_of_get_elem?, All-set, All-insert_at, length-set, length-insert_at, arith, leb, ◌==◌,
  if◌then◌else◌, ◌>>=◌,
}
use cs660_spring2025_pa.Base.Int.{ℤ, ltb_ℤ, eqb_ℤ}
use cs660_spring2025_pa.Memory.{Page, store}
use cs660_spring2025_pa.Tuple.{Tuple}
use cs660_spring2025_pa.Tuple.Bytes.{tuple_bytes, serialize-store}
use cs660_spring2025_pa.Tuple.RoundTrip.{length-compatible}
use cs660_spring2025_pa.Search.{lower_bound}
use cs660_spring2025_pa.Search.Bound.{Splits}
use cs660_spring2025_pa.Search.Keys.{
  IsSorted, search-Splits, upsert, hit, upsert-Splits, upsert-IsSorted,
}
use cs660_spring2025_pa.LeafPage.{
  LeafPage, next_leaf, get_size, key_at, slot_offset, make_room, insert_tuple,
}
use cs660_spring2025_pa.LeafPage.Contents.{
  IsLeaf, IsRow, Holds, key, leaf_row, key_offset, int_field_lem, offset_of_lem, key_at_lem,
  keys_lem,
}
use cs660_spring2025_pa.LeafPage.Room.{
  replaced_rows, replaced_size, replaced_next, inserted_rows, inserted_size, inserted_next,
}

module _ (lp : LeafPage) (leaf : IsLeaf lp) (p : Page) (ts : List Tuple) (h : Holds lp p ts)
    (t : Tuple) (r : IsRow lp t) where
  place : ℕ
  place = lower_bound (λ i. ltb_ℤ (key_at lp (key_offset lp leaf) p i) (key lp t)) (get_size p)

  place-Splits :
      Splits (λ i. ltb_ℤ (key_at lp (key_offset lp leaf) p i) (key lp t)) 0 (length ts) place
  unfolding place
  place-Splits = rw h.size (
      search-Splits (key_at lp (key_offset lp leaf) p) (length ts) (key lp t)
        (subst IsSorted (sym (keys_lem lp leaf p ts h)) h.sorted))

  -- The test of the code is whether the place holds the key.
  found_iff :
      (xs : List Tuple) (f : ℕ → ℤ) (i : ℕ)
      → ((j : ℕ) (x : Tuple) → get_elem? xs j ≡ some x → f j ≡ key lp x)
      → (leb (length xs) i || not (eqb_ℤ (key lp t) (f i))) ≡ not (hit (key lp) t xs i)
  found_iff [] f i law = ground arith
  found_iff (x ∷ xs) f zero law = ground (arith, law 0 x refl)
  found_iff (x ∷ xs) f (suc i) law =
      ground (arith, found_iff xs (λ j. f (suc j)) i (λ j. law (suc j)))

  upsert-place :
      upsert (key lp) t ts
      ≡ (if hit (key lp) t ts place then set ts place t else insert_at ts place t)
  upsert-place =
      let s = place-Splits in
      upsert-Splits (key lp) t ts place s.below
        (λ i x lt e.
          ap (λ k. ltb_ℤ k (key lp t)) (sym (key_at_lem lp leaf p ts h i x e))
          ∙ s.low i (omega arith) lt)
        (λ i x ge e.
          ap (λ k. ltb_ℤ k (key lp t)) (sym (key_at_lem lp leaf p ts h i x e))
          ∙ s.high i ge (lt_of_get_elem? ts i x e))

  hit_inside : (xs : List Tuple) (i : ℕ) → hit (key lp) t xs i ≡ true → i < length xs
  hit_inside [] i e = cc
  hit_inside (x ∷ xs) zero e = omega arith
  hit_inside (x ∷ xs) (suc i) e = omega (arith, hit_inside xs i e)

  -- The page after the insertion.
  written : Bool → Page
  written true = store p (slot_offset lp place) (tuple_bytes t)
  written false = store (make_room lp place p) (slot_offset lp place) (tuple_bytes t)

  insert_run :
      (found : Bool)
      → hit (key lp) t ts place ≡ found
      → insert_tuple lp t p ≡ ok (get_size (written found) == lp.capacity) (written found)
  unfolding insert_tuple written place
  insert_run found e =
      branch found (
        found_iff ts (key_at lp (key_offset lp leaf) p) place (key_at_lem lp leaf p ts h)
        ∙ ap not e)
    where
      branch :
          (b : Bool)
          → (leb (length ts) place
              || not (eqb_ℤ (key lp t) (key_at lp (key_offset lp leaf) p place)))
            ≡ not b
          → insert_tuple lp t p ≡ ok (get_size (written b) == lp.capacity) (written b)
      branch true c = rw (
        int_field_lem lp leaf t p r,
        ◌>>=◌,
        offset_of_lem lp leaf p,
        ap (λ n. leb n place || not (eqb_ℤ (key lp t) (key_at lp (key_offset lp leaf) p place)))
              h.size
            ∙ c,
        serialize-store lp.td t (slot_offset lp place) p r.0,
      )
      branch false c = rw (
        int_field_lem lp leaf t p r,
        ◌>>=◌,
        offset_of_lem lp leaf p,
        ap (λ n. leb n place || not (eqb_ℤ (key lp t) (key_at lp (key_offset lp leaf) p place)))
              h.size
            ∙ c,
        serialize-store lp.td t (slot_offset lp place) (make_room lp place p) r.0,
      )

  abbrev after_insert : List Tuple
  after_insert = upsert (key lp) t ts

  written-Holds :
      (found : Bool)
      → hit (key lp) t ts place ≡ found
      → length ts < lp.capacity
      → Holds lp (written found) after_insert × (next_leaf (written found) ≡ next_leaf p)
  unfolding written
  written-Holds true e room =
      let s = place-Splits in
      let result : after_insert ≡ set ts place t = upsert-place ∙ ground arith in
      let bs = length-compatible lp.td t r.0 in
      let inside : place < length ts = hit_inside ts place e in
      let q : Page = store p (slot_offset lp place) (tuple_bytes t) in
      (
        record {
          size =
              replaced_size lp leaf p place (tuple_bytes t) bs
              ∙ h.size
              ∙ sym (length-set ts place t)
              ∙ ap length (sym result);
          bytes =
              rw (result, length-set ts place t)
                (replaced_rows lp leaf p place (tuple_bytes t) bs (length ts) inside
                  ∙ ap (λ l. set l place (tuple_bytes t)) h.bytes
                  ∙ sym (map-set tuple_bytes ts place t));
          rows = rw result (All-set (IsRow lp) ts place t r h.rows);
          sorted = upsert-IsSorted (key lp) t ts h.sorted;
        },
        replaced_next lp leaf p place (tuple_bytes t) bs,
      )
  written-Holds false e room =
      let s = place-Splits in
      let result : after_insert ≡ insert_at ts place t = upsert-place ∙ ground arith in
      let bs = length-compatible lp.td t r.0 in
      let le : place ≤ get_size p = omega (arith, s.below, h.size) in
      let fits : get_size p < lp.capacity = omega (arith, h.size) in
      let q : Page = store (make_room lp place p) (slot_offset lp place) (tuple_bytes t) in
      (
        record {
          size =
              inserted_size lp leaf p place (tuple_bytes t) bs le fits
              ∙ ap suc h.size
              ∙ sym (length-insert_at ts place t)
              ∙ ap length (sym result);
          bytes =
              rw (result, length-insert_at ts place t)
                (ap (λ n. tabulate (leaf_row lp q) (suc n)) (sym h.size)
                  ∙ inserted_rows lp leaf p place (tuple_bytes t) bs le fits
                  ∙ ap (λ n. insert_at (tabulate (leaf_row lp p) n) place (tuple_bytes t)) h.size
                  ∙ ap (λ l. insert_at l place (tuple_bytes t)) h.bytes
                  ∙ sym (map-insert_at tuple_bytes ts place t));
          rows = rw result (All-insert_at (IsRow lp) ts place t r h.rows);
          sorted = upsert-IsSorted (key lp) t ts h.sorted;
        },
        inserted_next lp leaf p place (tuple_bytes t) bs le fits,
      )

  -- `insertTuple` of a tuple that can be stored into a leaf that is not full: it returns, the leaf
  -- holds the tuples that it held in the order of their keys, with the tuple added or put in place of
  -- the one with its key; the result is whether the leaf is full now, and its link is as before.
  pub insert_tuple-upsert :
      length ts < lp.capacity
      → (q : Page) × (insert_tuple lp t p ≡ ok (length (upsert (key lp) t ts) == lp.capacity) q)
        × Holds lp q (upsert (key lp) t ts)
        × (next_leaf q ≡ next_leaf p)
  insert_tuple-upsert room =
      let found : Bool = hit (key lp) t ts place in
      let (holds, next) = written-Holds found refl room in
      (
        written found,
        insert_run found refl ∙ ap (λ n. ok (n == lp.capacity) (written found)) holds.size,
        holds,
        next,
      )
