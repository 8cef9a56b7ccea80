-- ===== src/Memory/Laws.antt =====
-- Reading after writing, in one page: `load` and `store`, the numbers and the copies of Memory.antt.
use Prim.Native.Nat.{◌^◌}
use native.Mathlib.Nat.{pow-suc}
use cs660_spring2025_pa.Base.{
  ℕ, zero, suc, ◌+◌, ◌/◌, ◌≤◌, ◌<◌, ◌≡◌, refl, ap, ap₂, ◌⊎◌, inl, List, [], ◌∷◌, arith, length, ◌∙◌,
  sym,
}
use cs660_spring2025_pa.Base.Int.{ℤ, IsInt, to_u32, of_u32, of_u32-to_u32, to_u32-lt}
use cs660_spring2025_pa.Memory.{
  Page, put_byte, load, store, copy_bytes, encode_le, decode_le, read_uint, write_uint, read_int,
  write_int,
}

-- Two ranges of a page, by start and length, that share no byte.
abbrev pub Apart : ℕ → ℕ → ℕ → ℕ → Type 0
Apart o n o' n' = (o + n ≤ o') ⊎ (o' + n' ≤ o)

pub length-load : (n : ℕ) (p : Page) (o : ℕ) → length (load n p o) ≡ n
unfolding load
length-load zero p o = refl
length-load (suc n) p o = ap suc (length-load n p (suc o))

pub length-encode_le : (n v : ℕ) → length (encode_le n v) ≡ n
unfolding encode_le
length-encode_le zero v = refl
length-encode_le (suc n) v = ap suc (length-encode_le n (v / 256))

-- A store changes only its own range.
pub store_outside :
    (p : Page) (o : ℕ) (bs : List ℕ) (i : ℕ) → Apart i 1 o (length bs) → store p o bs i ≡ p i
unfolding store
store_outside p o [] i h = refl
store_outside p o (b ∷ bs) i h =
    store_outside (put_byte p o b) (suc o) bs i (omega arith) ∙ ground arith

pub load-cong :
    (n : ℕ) (p q : Page) (o : ℕ)
    → ((i : ℕ) → o ≤ i → i < o + n → p i ≡ q i)
    → load n p o ≡ load n q o
unfolding load
load-cong zero p q o h = refl
load-cong (suc n) p q o h =
    ap₂ ◌∷◌ (h o (omega arith) (omega arith))
      (load-cong n p q (suc o) (λ i a b. h i (omega arith) (omega arith)))

-- What is stored is read back.
pub load-store_self : (p : Page) (o : ℕ) (bs : List ℕ) → load (length bs) (store p o bs) o ≡ bs
unfolding load store
load-store_self p o [] = refl
load-store_self p o (b ∷ bs) =
    ap₂ ◌∷◌ (store_outside (put_byte p o b) (suc o) bs o (inl (omega arith)) ∙ ground arith)
      (load-store_self (put_byte p o b) (suc o) bs)

-- What stands elsewhere is not disturbed.
pub load-store-Apart :
    (n : ℕ) (p : Page) (o o' : ℕ) (bs : List ℕ)
    → Apart o n o' (length bs)
    → load n (store p o' bs) o ≡ load n p o
load-store-Apart n p o o' bs h =
    load-cong n (store p o' bs) p o (λ i a b. store_outside p o' bs i (omega arith))

get_load :
    (n : ℕ) (p : Page) (o : ℕ) (q : Page) (t i : ℕ)
    → i < n
    → store q t (load n p o) (t + i) ≡ p (o + i)
unfolding load store
get_load zero p o q t i h = absurd (omega arith)
get_load (suc n) p o q t zero h =
    ap (store (put_byte q t (p o)) (suc t) (load n p (suc o))) {x = t + 0} {y = t} (omega arith)
    ∙ store_outside _ (suc t) (load n p (suc o)) t (inl (omega arith))
    ∙ ground arith
get_load (suc n) p o q t (suc i) h =
    ap (store (put_byte q t (p o)) (suc t) (load n p (suc o))) {x = t + suc i} {y = suc t + i}
      (omega arith)
    ∙ get_load n p (suc o) (put_byte q t (p o)) (suc t) i (omega arith)
    ∙ ap p (omega arith)

-- A copied range holds the source's bytes as they were, and the rest of the page stays.
pub copy_bytes_inside :
    (n : ℕ) (src : Page) (from : ℕ) (dst : Page) (to i : ℕ)
    → i < n
    → copy_bytes n src from dst to (to + i) ≡ src (from + i)
unfolding copy_bytes
copy_bytes_inside n src from dst to i h = get_load n src from dst to i h

pub copy_bytes_outside :
    (n : ℕ) (src : Page) (from : ℕ) (dst : Page) (to i : ℕ)
    → Apart i 1 to n
    → copy_bytes n src from dst to i ≡ dst i
unfolding copy_bytes
copy_bytes_outside n src from dst to i h =
    store_outside dst to (load n src from) i (omega (arith, length-load n src from))

pub decode_le-encode_le : (n v : ℕ) → v < 256 ^ n → decode_le (encode_le n v) ≡ v
unfolding decode_le encode_le
decode_le-encode_le zero v h = omega arith
decode_le-encode_le (suc n) v h =
    omega (arith, decode_le-encode_le n (v / 256) (omega (arith, pow-suc 256 n)))

pub read-write_uint :
    (n : ℕ) (p : Page) (o v : ℕ) → v < 256 ^ n → read_uint n (write_uint n p o v) o ≡ v
unfolding read_uint write_uint
read-write_uint n p o v h =
    ap decode_le (
      ap (λ k. load k (store p o (encode_le n v)) o) (sym (length-encode_le n v))
      ∙ load-store_self p o (encode_le n v))
    ∙ decode_le-encode_le n v h

pub read-write_uint-Apart :
    (n m : ℕ) (p : Page) (o o' v : ℕ)
    → Apart o n o' m
    → read_uint n (write_uint m p o' v) o ≡ read_uint n p o
unfolding read_uint write_uint
read-write_uint-Apart n m p o o' v h =
    ap decode_le (load-store-Apart n p o o' (encode_le m v) (omega (arith, length-encode_le m v)))

pub read-write_int : (p : Page) (o : ℕ) (z : ℤ) → IsInt z → read_int (write_int p o z) o ≡ z
unfolding read_int write_int
read-write_int p o z h =
    ap of_u32 (read-write_uint 4 p o (to_u32 z) (to_u32-lt z)) ∙ of_u32-to_u32 z h
