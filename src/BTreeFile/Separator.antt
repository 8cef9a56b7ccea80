-- ===== src/BTreeFile/Separator.antt =====
-- What the split of a leaf in src/db/BTreeFile.cpp hands to the parent, and where the descent then goes.
use cs660_spring2025_pa.Base.{
  ℕ, zero, suc, ◌/◌, ◌^◌, ◌<◌, ◌≤◌, ◌≡◌, ◌≢◌, refl, sym, ap, subst, ◌∙◌, List, [], ◌∷◌, map, length,
  All, ok, some, ◌==◌, after, arith, get_elem?, insert_at, tabulate, length-tabulate,
  get_elem?-tabulate, drop,
}
use cs660_spring2025_pa.Base.Int.{ℤ, IsInt}
use cs660_spring2025_pa.Memory.{Page}
use cs660_spring2025_pa.Tuple.{Tuple}
use cs660_spring2025_pa.Search.Keys.{IsSorted, search-Splits, put}
use cs660_spring2025_pa.LeafPage
use cs660_spring2025_pa.LeafPage.{LeafPage}
use cs660_spring2025_pa.LeafPage.Contents as Leaf
use cs660_spring2025_pa.LeafPage.Contents.{IsLeaf, key}
use cs660_spring2025_pa.LeafPage.Split.{split-Holds}
use cs660_spring2025_pa.IndexPage
use cs660_spring2025_pa.IndexPage.Contents as Node
use cs660_spring2025_pa.IndexPage.Contents.{Entry}
use cs660_spring2025_pa.IndexPage.Insert.{
  insert_page_size, insert_page_keys, insert_page_children, insert-put,
}
use cs660_spring2025_pa.BTreeFile.{slot_for}
use cs660_spring2025_pa.BTreeFile.Descent.{child_for, slot_for-separator}

at_inserted :
    {A : Type 0} (l : List A) (r : ℕ) (a : A)
    → r ≤ length l
    → get_elem? (insert_at l r a) r ≡ some a
unfolding insert_at
at_inserted [] zero a h = refl
at_inserted [] (suc r) a h = absurd (omega arith)
at_inserted (x ∷ l) zero a h = refl
at_inserted (x ∷ l) (suc r) a h = at_inserted l r a (omega arith)

before_inserted :
    {A : Type 0} (l : List A) (r i : ℕ) (a : A)
    → i < r
    → r ≤ length l
    → get_elem? (insert_at l r a) i ≡ get_elem? l i
unfolding insert_at
before_inserted l zero i a lt h = absurd (omega arith)
before_inserted [] (suc r) i a lt h = absurd (omega arith)
before_inserted (x ∷ l) (suc r) zero a lt h = refl
before_inserted (x ∷ l) (suc r) (suc i) a lt h = before_inserted l r i a (omega arith) (omega arith)

some_same : {A : Type 0} (a b : A) → some a ≡ some b → a ≡ b
some_same a b e = ground (arith, e)

module _ (node : Page) (first : ℕ) (es : List Entry) (h : Node.Holds node first es) (k : ℤ) (c : ℕ)
    (room : length es < IndexPage.capacity) (int : IsInt k) (small : c < 256 ^ 8)
    (new : All (λ j. j ≢ k) (map Node.key es)) where
  -- The descent for a key that was inserted with its child: to the child on its left, as before.
  pub insert-child_for :
      (q : Page) × (IndexPage.insert k c node ≡ ok (suc (length es) == IndexPage.capacity) q)
      × (slot_for k q ≡ slot_for k node)
      × (child_for k q ≡ child_for k node)
      × (IndexPage.child_at q (suc (slot_for k q)) ≡ c)
  unfolding IndexPage.insert
  insert-child_for =
      let n : ℕ = IndexPage.get_size node in
      let r : ℕ = slot_for k node in
      let q : Page = IndexPage.insert_page r k c node in
      let found = search-Splits (IndexPage.key_at node) n k (
        subst IsSorted (sym (ap (tabulate (IndexPage.key_at node)) h.size ∙ h.key_list))
          h.sorted) in
      let le : r ≤ n = found.below in
      let fits : n < IndexPage.capacity = omega (arith, h.size) in
      let size : IndexPage.get_size q ≡ suc n = insert_page_size node r k c le fits in
      let (q', run, holds, _) = insert-put node first es h k c room int small new in
      let same : q' ≡ q = ap after (sym run) in
      let holds' = subst (λ p. Node.Holds p first (put Node.key (k, c) es)) same holds in
      let sorted : IsSorted (tabulate (IndexPage.key_at q) (IndexPage.get_size q)) =
        subst IsSorted (sym (ap (tabulate (IndexPage.key_at q)) holds'.size ∙ holds'.key_list))
          holds'.sorted in
      let key_is : IndexPage.key_at q r ≡ k = some_same (IndexPage.key_at q r) k (
        sym (get_elem?-tabulate (IndexPage.key_at q) (suc n) r (omega arith))
        ∙ ap (λ l. get_elem? l r) (insert_page_keys node r k c le fits int)
        ∙ at_inserted (tabulate (IndexPage.key_at node) n) r k
            (omega (arith, length-tabulate (IndexPage.key_at node) n))) in
      let child_before : IndexPage.child_at q r ≡ IndexPage.child_at node r = some_same _ _ (
        sym (get_elem?-tabulate (IndexPage.child_at q) (suc (suc n)) r (omega arith))
        ∙ ap (λ l. get_elem? l r) (insert_page_children node r k c le fits small)
        ∙ before_inserted (tabulate (IndexPage.child_at node) (suc n)) (suc r) r c (omega arith)
            (omega (arith, length-tabulate (IndexPage.child_at node) (suc n)))
        ∙ get_elem?-tabulate (IndexPage.child_at node) (suc n) r (omega arith)) in
      let child_after : IndexPage.child_at q (suc r) ≡ c = some_same _ _ (
        sym (get_elem?-tabulate (IndexPage.child_at q) (suc (suc n)) (suc r) (omega arith))
        ∙ ap (λ l. get_elem? l (suc r)) (insert_page_children node r k c le fits small)
        ∙ at_inserted (tabulate (IndexPage.child_at node) (suc n)) (suc r) c
            (omega (arith, length-tabulate (IndexPage.child_at node) (suc n)))) in
      let slot : slot_for k q ≡ r =
        subst (λ j. slot_for j q ≡ r) key_is
          (slot_for-separator q r sorted (omega (arith, size))) in
      (
        q,
        ap (λ m. ok (m == IndexPage.capacity) q) (size ∙ ap suc h.size),
        slot,
        ap (IndexPage.child_at q) slot ∙ child_before,
        ap (λ j. IndexPage.child_at q (suc j)) slot ∙ child_after,
      )

-- A leaf with tuples, at most its capacity, whose link is a `size_t`, is split onto a new page, and
-- its separator, the `int` key of the tuple `t` at the half, goes with the number `c` of the new page,
-- a `size_t`, into a parent that is not full and lacks the key. Both calls return, and the new leaf
-- holds `t` first; but in the parent the descent for the key of `t` takes the child that it took
-- before, and `c` is the child behind that one.
pub split-child_for :
    (lp : LeafPage) (leaf : IsLeaf lp) (p q node : Page) (ts : List Tuple) (t : Tuple)
    (rest : List Tuple) (first : ℕ) (es : List Entry) (c : ℕ)
    → Leaf.Holds lp p ts
    → length ts ≤ lp.capacity
    → 0 < length ts
    → LeafPage.next_leaf p < 256 ^ 8
    → drop (length ts / 2) ts ≡ t ∷ rest
    → Node.Holds node first es
    → length es < IndexPage.capacity
    → IsInt (key lp t)
    → c < 256 ^ 8
    → All (λ j. j ≢ key lp t) (map Node.key es)
    → (p' : Page) × (q' : Page) × (node' : Page) × (LeafPage.split lp lp (p, q)
        ≡ ok (key lp t) (p', q'))
      × Leaf.Holds lp q' (t ∷ rest)
      × (IndexPage.insert (key lp t) c node ≡ ok (suc (length es) == IndexPage.capacity) node')
      × (child_for (key lp t) node' ≡ child_for (key lp t) node)
      × (IndexPage.child_at node' (suc (slot_for (key lp t) node')) ≡ c)
split-child_for lp leaf p q node ts t rest first es c h within some_left link e hn room int small
      new =
    let (t', rest', p', q', run, _, moved, e', _, _, _) =
      split-Holds lp leaf p q ts h within some_left link in
    let same : t' ≡ t = some_same t' t (ap (λ l. get_elem? l 0) (sym e' ∙ e)) in
    let (node', inserted, _, goes, behind) =
      insert-child_for node first es hn (key lp t) c room int small new in
    (
      p',
      q',
      node',
      run ∙ ap (λ u. ok (key lp u) (p', q')) same,
      subst (Leaf.Holds lp q') e moved,
      inserted,
      goes,
      behind,
    )
