-- ===== src/LeafPage/Contents.antt =====
-- The tuples that a leaf page holds, and the keys that its methods read.
use cs660_spring2025_pa.Base.{
  ℕ, zero, suc, ◌+◌, ◌-◌, ◌*◌, ◌/◌, ◌%◌, ◌^◌, ◌≤◌, ◌<◌, ◌≡◌, refl, ap, ap₂, ◌∙◌, true, List, [],
  ◌∷◌, map, some, ok, length, All, get_elem?, tabulate, arith, ◌>>=◌,
}
use native.Mathlib.Nat.{div-mul-le_self, mul_comm}
use cs660_spring2025_pa.Memory.{read_int}
use cs660_spring2025_pa.Base.Int.{ℤ}
use cs660_spring2025_pa.Memory.{Page, page_size}
use cs660_spring2025_pa.Memory.Rows.{row}
use cs660_spring2025_pa.Tuple.{
  FieldType, Tuple, TupleDesc, compatible, desc_length, get_field, offset_of,
}
use cs660_spring2025_pa.Tuple.Bytes.{Fits, tuple_bytes, compatible-Agrees}
use cs660_spring2025_pa.Tuple.Descriptor.{offsets_from}
use cs660_spring2025_pa.Tuple.KeyField.{
  int_of, field_offset, get_elem?-offsets_from, get_elem?-int_of, read_int-tuple_bytes,
}
use cs660_spring2025_pa.Search.Keys.{IsSorted}
use cs660_spring2025_pa.LeafPage.{LeafPage, header_size, get_size, wrap, int_field, key_at}

-- What the constructor gives: the tuples stand behind the header, inside the page, and the key is an
-- `int` field of a descriptor whose offsets are those of its types.
pub record IsLeaf (lp : LeafPage) : Type 0 where
  pub behind : header_size ≤ lp.start
  pub inside : lp.start + lp.capacity * desc_length lp.td ≤ page_size
  pub small : lp.capacity < 2 ^ 16
  pub offsets : lp.td.offsets ≡ offsets_from lp.td.types 0
  pub key_type : get_elem? lp.td.types lp.key_index ≡ some FieldType.int

-- The layout of the constructor, for every descriptor whose offsets are those of its types and every
-- index of an `int` field: header and tuples share no byte and end inside the page.
pub wrap-IsLeaf :
    (td : TupleDesc) (k : ℕ)
    → td.offsets ≡ offsets_from td.types 0
    → get_elem? td.types k ≡ some FieldType.int
    → IsLeaf (wrap td k)
unfolding wrap
wrap-IsLeaf td k h e =
    let w : ℕ = desc_length td in
    let n : ℕ = (page_size - header_size) / w in
    let fits : n * w ≤ page_size - header_size = div-mul-le_self (page_size - header_size) w in
    let less : n % 2 ^ 16 * w ≤ n * w = mul-le (n % 2 ^ 16) n w (omega arith) in
    record {
      behind = omega (arith, fits, less, mul_comm w (n % 2 ^ 16));
      inside = omega (arith, fits, less, mul_comm w (n % 2 ^ 16));
      small = omega arith;
      offsets = h;
      key_type = e;
    }
  where
    mul-le : (a b w : ℕ) → a ≤ b → a * w ≤ b * w
    mul-le a b w h = grind arith

module _ (lp : LeafPage) where
  abbrev pub key : Tuple → ℤ
  key t = int_of lp.key_index t

  -- A tuple that the page can store and read back.
  abbrev pub IsRow : Tuple → Type 0
  IsRow t = (compatible lp.td t ≡ true) × All Fits t

  abbrev pub leaf_row : Page → ℕ → List ℕ
  leaf_row p i = row lp.start (desc_length lp.td) p i

  -- The page holds these tuples, in this order, which is that of their keys.
  pub record Holds (p : Page) (ts : List Tuple) : Type 0 where
    pub size : get_size p ≡ length ts
    pub bytes : tabulate (leaf_row p) (length ts) ≡ map tuple_bytes ts
    pub rows : All IsRow ts
    pub sorted : IsSorted (map key ts)

  -- What holds of the bytes of one row holds of the tuple there.
  pub at_index :
      {A : Type 0} (h : ℕ → A) (f : ℕ → List ℕ) (g : Tuple → A) (ts : List Tuple)
      → tabulate f (length ts) ≡ map tuple_bytes ts
      → All IsRow ts
      → ((i : ℕ) (t : Tuple) → IsRow t → f i ≡ tuple_bytes t → h i ≡ g t)
      → (i : ℕ) (t : Tuple) → get_elem? ts i ≡ some t
      → h i ≡ g t
  unfolding tabulate
  at_index h f g [] e rows law i t k = cc
  at_index h f g (x ∷ ts) e rows law zero t k = law 0 x rows.0 (cc) ∙ (cc)
  at_index h f g (x ∷ ts) e rows law (suc i) t k =
      at_index (λ j. h (suc j)) (λ j. f (suc j)) g ts (cc) rows.1 (λ j. law (suc j)) i t k

  pub tabulate-map :
      {A : Type 0} (h : ℕ → A) (g : Tuple → A) (ts : List Tuple)
      → ((i : ℕ) (t : Tuple) → get_elem? ts i ≡ some t → h i ≡ g t)
      → tabulate h (length ts) ≡ map g ts
  unfolding tabulate
  tabulate-map h g [] law = refl
  tabulate-map h g (t ∷ ts) law =
      ap₂ ◌∷◌ (law 0 t refl) (tabulate-map (λ i. h (suc i)) g ts (λ i. law (suc i)))

  module _ (leaf : IsLeaf lp) where
    abbrev pub key_offset : ℕ
    key_offset = field_offset lp.td.types lp.key_index

    pub int_field_lem :
        {S : Type 0} (t : Tuple) (s : S) → IsRow t → int_field t lp.key_index s ≡ ok (key t) s
    unfolding int_field get_field
    int_field_lem t s r = rw (
      get_elem?-int_of lp.td.types t lp.key_index (compatible-Agrees lp.td t r.0) leaf.key_type,
      ◌>>=◌,
    )

    pub offset_of_lem : {S : Type 0} (s : S) → offset_of lp.td lp.key_index s ≡ ok key_offset s
    unfolding offset_of
    offset_of_lem s =
        rw
          (
            leaf.offsets,
            get_elem?-offsets_from lp.td.types lp.key_index 0 FieldType.int leaf.key_type,
          )
          (ap (λ o. ok o s) (omega arith))

    -- The key that a method reads at an index is that of the tuple there.
    pub key_at_lem :
        (p : Page) (ts : List Tuple)
        → Holds p ts
        → (i : ℕ) (t : Tuple) → get_elem? ts i ≡ some t
        → key_at lp key_offset p i ≡ key t
    unfolding key_at desc_length
    key_at_lem p ts h =
        at_index (key_at lp key_offset p) (leaf_row p) key ts h.bytes h.rows (λ i t r e.
          ap (read_int p) {x = lp.start + key_offset + i * desc_length lp.td}
            {y = lp.start + i * desc_length lp.td + key_offset} (omega arith)
          ∙ read_int-tuple_bytes lp.td.types t lp.key_index p (lp.start + i * desc_length lp.td)
              (compatible-Agrees lp.td t r.0) r.1 leaf.key_type e)

    pub keys_lem :
        (p : Page) (ts : List Tuple)
        → Holds p ts
        → tabulate (key_at lp key_offset p) (length ts) ≡ map key ts
    keys_lem p ts h = tabulate-map (key_at lp key_offset p) key ts (key_at_lem p ts h)
