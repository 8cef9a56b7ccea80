-- ===== src/Memory.antt =====
-- The memory of a page, `Page` of include/db/types.hpp, and the accesses that the code makes through
-- `uint8_t *`: copies of byte ranges and little-endian numbers. A pointer into a page is an offset.
-- A page is a function from offsets to bytes; the array has the offsets below `page_size`, and
-- modules of the page layouts prove that their accesses stay below it.
pub mod Laws
pub mod Rows
use cs660_spring2025_pa.Base.{
  ℕ, zero, suc, ◌+◌, ◌-◌, ◌*◌, ◌/◌, ◌%◌, ◌^◌, ◌≤◌, ◌<◌, ◌≡◌, refl, ap, ap₂, ◌≢◌, ◌⊎◌, inl, inr,
  Bool, List, [], ◌∷◌, arith, length, All, ◌==◌, if◌then◌else◌,
}
use cs660_spring2025_pa.Base.Int.{ℤ, to_u32, of_u32}

abbrev pub page_size : ℕ
page_size = 4096

abbrev pub Page : Type 0
Page = ℕ → ℕ

-- `std::fill(page.begin(), page.end(), 0)`.
abbrev pub zero_page : Page
zero_page _ = 0

abbrev pub put_byte : Page → ℕ → ℕ → Page
put_byte p o b i = if i == o then b else p i

-- The `n` bytes at an offset.
unfoldable pub load : ℕ → Page → ℕ → List ℕ
load zero p o = []
load (suc n) p o = p o ∷ load n p (suc o)

unfoldable pub store : Page → ℕ → List ℕ → Page
store p o [] = p
store p o (b ∷ bs) = store (put_byte p o b) (suc o) bs

-- `std::copy` and `std::copy_backward` of `n` bytes: the source is read as it was before the copy.
unfoldable pub copy_bytes : ℕ → Page → ℕ → Page → ℕ → Page
copy_bytes n src from dst to = store dst to (load n src from)

-- The `n` low bytes of a number, the lowest first, and the number that bytes stand for.
unfoldable pub encode_le : ℕ → ℕ → List ℕ
encode_le zero v = []
encode_le (suc n) v = v % 256 ∷ encode_le n (v / 256)

unfoldable pub decode_le : List ℕ → ℕ
decode_le [] = 0
decode_le (b ∷ bs) = b + 256 * decode_le bs

-- `*reinterpret_cast<T *>(p)` for an unsigned `T` of `n` bytes.
unfoldable pub read_uint : ℕ → Page → ℕ → ℕ
read_uint n p o = decode_le (load n p o)

unfoldable pub write_uint : ℕ → Page → ℕ → ℕ → Page
write_uint n p o v = store p o (encode_le n v)

unfoldable pub read_int : Page → ℕ → ℤ
read_int p o = of_u32 (read_uint 4 p o)

unfoldable pub write_int : Page → ℕ → ℤ → Page
write_int p o z = write_uint 4 p o (to_u32 z)
