-- ===== src/HeapPage.antt =====
-- include/db/HeapPage.hpp and src/db/HeapPage.cpp: a page of slots behind a bitmap of those in use.
-- `header` is the start of the page and `data` an offset into it. A method is a call on the page.
-- The slots that a caller passes are below 8 * page_size, so that `header[slot / 8]` stands in the
-- array; `Layout` proves it of every slot below the capacity.
pub mod Bits
pub mod Layout
pub mod Scan
pub mod Slots
pub mod Insert
pub mod Iterate
use cs660_spring2025_pa.Base.{
  ℕ, zero, suc, ◌+◌, ◌-◌, ◌*◌, ◌/◌, ◌%◌, ◌^◌, Bool, true, false, not, bit_and, bit_or, ltb, leb,
  ◌==◌, if◌then◌else◌, M, Outcome, ok, throw, ◌>>=◌, ◌>>◌, pure, fail, modify, runtime_error,
  undefined,
}
use cs660_spring2025_pa.Memory.{Page, page_size, put_byte}
use cs660_spring2025_pa.Tuple.{Tuple, TupleDesc, desc_length, serialize, deserialize}

pub record HeapPage : Type 0 where
  pub td : TupleDesc
  pub capacity : ℕ
  pub start : ℕ

-- The constructor; `start` is the member `data`.
unfoldable pub wrap : TupleDesc → HeapPage
wrap td =
    let capacity : ℕ = page_size * 8 / (desc_length td * 8 + 1) in
    record { td = td; capacity = capacity; start = page_size - desc_length td * capacity }

-- `1 << (7 - slot % 8)`, and the bits of the byte but that one.
abbrev pub bit_of : ℕ → ℕ
bit_of k = 2 ^ (7 - k)

unfoldable pub is_clear : ℕ → ℕ → Bool
is_clear b k = bit_and b (bit_of k) == 0

unfoldable pub set_bit : ℕ → ℕ → ℕ
set_bit b k = bit_or b (bit_of k)

unfoldable pub clear_bit : ℕ → ℕ → ℕ
clear_bit b k = bit_and b (255 - bit_of k)

unfoldable pub empty : Page → ℕ → Bool
empty p slot = is_clear (p (slot / 8)) (slot % 8)

-- A loop that counts a slot up, for the given number of rounds or until a test holds.
unfoldable pub scan : (ℕ → Bool) → ℕ → ℕ → ℕ
scan stop zero slot = slot
scan stop (suc rounds) slot =
    let rest = scan stop rounds (suc slot) in if stop slot then slot else rest

module _ (hp : HeapPage) where
  unfoldable pub begin : Page → ℕ
  begin p = scan (λ slot. not (empty p slot)) hp.capacity 0

  unfoldable pub end : ℕ
  end = hp.capacity

  unfoldable pub next : Page → ℕ → ℕ
  next p slot = scan (λ s. not (empty p s)) (hp.capacity - suc slot) (suc slot)

  -- The offset of a slot, `data + slot * td.length()`.
  abbrev pub slot_offset : ℕ → ℕ
  slot_offset slot = hp.start + slot * desc_length hp.td

  -- The first slot that is not in use, or the capacity.
  unfoldable pub free_slot : Page → ℕ
  free_slot p = scan (empty p) hp.capacity 0

  unfoldable pub mark_used : ℕ → Page → Page
  mark_used slot p = put_byte p (slot / 8) (set_bit (p (slot / 8)) (slot % 8))

  unfoldable pub mark_unused : ℕ → Page → Page
  mark_unused slot p = put_byte p (slot / 8) (clear_bit (p (slot / 8)) (slot % 8))

  unfoldable pub insert_tuple : Tuple → M Page Bool
  insert_tuple t p =
      let slot : ℕ = free_slot p in
      if slot == hp.capacity
      then ok false p
      else (do modify (mark_used slot); serialize hp.td (slot_offset slot) t; pure true) p

  unfoldable pub delete_tuple : ℕ → M Page (Unit {0})
  delete_tuple slot p =
      if leb hp.capacity slot
      then throw runtime_error p
      else if empty p slot
      then throw runtime_error p
      else ok tt (mark_unused slot p)

  -- The bitmap and the bytes of the slot are read with no test of the slot: outside of the page that
  -- is undefined.
  unfoldable pub get_tuple : ℕ → M Page Tuple
  get_tuple slot p =
      if leb page_size (slot / 8)
      then throw undefined p
      else if empty p slot
      then throw runtime_error p
      else if ltb page_size (slot_offset slot + desc_length hp.td)
      then throw undefined p
      else deserialize hp.td (slot_offset slot) p
