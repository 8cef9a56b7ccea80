-- ===== src/IndexPage/Contents.antt =====
-- The keys and children that an index page holds, and which bytes each write changes.
use cs660_spring2025_pa.Base.{
  ℕ, suc, ◌+◌, ◌*◌, ◌^◌, ◌≤◌, ◌<◌, ◌≡◌, ap, sym, ◌∙◌, ◌⊎◌, inl, not, List, ◌∷◌, map, length,
  tabulate, tabulate-cong, map-tabulate, arith, ◌==◌,
}
use cs660_spring2025_pa.Base.Int.{ℤ, to_u32, of_u32, IsInt, of_u32-to_u32, to_u32-lt}
use cs660_spring2025_pa.Memory.{
  Page, encode_le, decode_le, read_int, read_uint, write_int, write_uint,
}
use cs660_spring2025_pa.Memory.Laws.{
  store_outside, load-cong, length-encode_le, read-write_uint, decode_le-encode_le,
}
use cs660_spring2025_pa.Memory.Rows.{row}
use cs660_spring2025_pa.Search.Keys.{IsSorted}
use cs660_spring2025_pa.IndexPage.{
  keys, children, get_size, set_size, index_children, key_at, child_at, set_key, set_child,
}

-- A key with the child that stands behind it.
abbrev pub Entry : Type 0
Entry = ℤ × ℕ

abbrev pub key : Entry → ℤ
key e = e.0

abbrev pub child : Entry → ℕ
child e = e.1

-- The page has the child `first`, and these keys in order, each with the child behind it.
pub record Holds (p : Page) (first : ℕ) (es : List Entry) : Type 0 where
  pub size : get_size p ≡ length es
  pub key_list : tabulate (key_at p) (length es) ≡ map key es
  pub child_list : tabulate (child_at p) (suc (length es)) ≡ first ∷ map child es
  pub sorted : IsSorted (map key es)

abbrev pub key_row : Page → ℕ → List ℕ
key_row p i = row keys 4 p i

abbrev pub child_row : Page → ℕ → List ℕ
child_row p i = row children 8 p i

abbrev pub int_value : List ℕ → ℤ
int_value bs = of_u32 (decode_le bs)

pub key_at-rows :
    (p : Page) (n : ℕ) → tabulate (key_at p) n ≡ map int_value (tabulate (key_row p) n)
unfolding key_at read_int read_uint
key_at-rows p n = sym (map-tabulate int_value (key_row p) n)

pub child_at-rows :
    (p : Page) (n : ℕ) → tabulate (child_at p) n ≡ map decode_le (tabulate (child_row p) n)
unfolding child_at read_uint
child_at-rows p n = sym (map-tabulate decode_le (child_row p) n)

-- The rows of two pages that agree on the region.
pub key_rows-cong :
    (p q : Page) (n : ℕ)
    → ((i : ℕ) → keys ≤ i → i < keys + n * 4 → p i ≡ q i)
    → tabulate (key_row p) n ≡ tabulate (key_row q) n
key_rows-cong p q n h =
    tabulate-cong (key_row p) (key_row q) n
      (λ i lt. load-cong 4 p q (keys + i * 4) (λ k a b. h k (omega arith) (omega arith)))

pub child_rows-cong :
    (p q : Page) (n : ℕ)
    → ((i : ℕ) → children ≤ i → p i ≡ q i)
    → tabulate (child_row p) n ≡ tabulate (child_row q) n
child_rows-cong p q n h =
    tabulate-cong (child_row p) (child_row q) n
      (λ i lt. load-cong 8 p q (children + i * 8) (λ k a b. h k (omega arith)))

pub set_size_outside : (n : ℕ) (p : Page) (i : ℕ) → 2 ≤ i → set_size n p i ≡ p i
unfolding set_size write_uint
set_size_outside n p i h = store_outside p 0 _ i (omega (arith, length-encode_le 2 n))

pub get_size-set_size : (n : ℕ) (p : Page) → n < 2 ^ 16 → get_size (set_size n p) ≡ n
unfolding get_size set_size
get_size-set_size n p h = read-write_uint 2 p 0 n h

pub get_size-cong : (p q : Page) → ((i : ℕ) → i < 2 → p i ≡ q i) → get_size p ≡ get_size q
unfolding get_size read_uint
get_size-cong p q h = rw (load-cong 2 p q 0 (λ i a b. h i (omega arith)))

pub index_children-cong : (p q : Page) → p 2 ≡ q 2 → index_children p ≡ index_children q
unfolding index_children
index_children-cong p q h = ap (λ (b : ℕ). not (b == 0)) h

pub set_key_outside :
    (s : ℕ) (k : ℤ) (p : Page) (i : ℕ)
    → (i < keys + s * 4) ⊎ (keys + s * 4 + 4 ≤ i)
    → set_key s k p i ≡ p i
unfolding set_key write_int write_uint
set_key_outside s k p i h =
    store_outside p (keys + s * 4) _ i (omega (arith, length-encode_le 4 (to_u32 k)))

pub set_child_outside :
    (s c : ℕ) (p : Page) (i : ℕ) → i < children + s * 8 → set_child s c p i ≡ p i
unfolding set_child write_uint
set_child_outside s c p i h = store_outside p (children + s * 8) _ i (inl (omega arith))

pub int_value-encode : (k : ℤ) → IsInt k → int_value (encode_le 4 (to_u32 k)) ≡ k
int_value-encode k h =
    ap of_u32 (decode_le-encode_le 4 (to_u32 k) (to_u32-lt k)) ∙ of_u32-to_u32 k h
