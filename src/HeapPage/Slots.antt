-- ===== src/HeapPage/Slots.antt =====
-- Which slots are in use and what they hold, after each operation of a heap page.
use cs660_spring2025_pa.Base.{
  ℕ, ◌/◌, ◌%◌, ◌<◌, ◌≡◌, ◌≢◌, sym, ap, subst, true, false, ◌==◌, if◌then◌else◌, length, arith, List,
  [], ◌∷◌,
}
use cs660_spring2025_pa.Memory.{Page, load, store}
use cs660_spring2025_pa.Memory.Laws.{store_outside, load-store-Apart}
use cs660_spring2025_pa.Tuple.{desc_length}
use cs660_spring2025_pa.HeapPage.{
  HeapPage, set_bit, clear_bit, is_clear, empty, slot_offset, mark_used, mark_unused,
}
use cs660_spring2025_pa.HeapPage.Bits.{is_clear-set_bit, is_clear-clear_bit, bit_range}
use cs660_spring2025_pa.HeapPage.Layout.{Fitting, slots-Apart, header-Apart}

module _ (hp : HeapPage) where
  -- The bitmap consists of bytes.
  abbrev pub IsHeader : Page → Type 0
  IsHeader p = (slot : ℕ) → slot < hp.capacity → p (slot / 8) < 256

  -- The bytes of a slot.
  abbrev pub slot_bytes : Page → ℕ → List ℕ
  slot_bytes p slot = load (desc_length hp.td) p (slot_offset hp slot)

  -- The two pages agree on the slot: whether it is in use, and on its bytes.
  pub record SameSlot (p q : Page) (slot : ℕ) : Type 0 where
    pub in_use : empty q slot ≡ empty p slot
    pub bytes : slot_bytes q slot ≡ slot_bytes p slot

  module _ (fit : Fitting (desc_length hp.td) hp.capacity hp.start) (p : Page) (h : IsHeader p)
      (slot : ℕ) (lt : slot < hp.capacity) where
    pub empty-mark_used :
        (s : ℕ)
        → s < hp.capacity
        → empty (mark_used hp slot p) s ≡ (if slot == s then false else empty p s)
    unfolding empty mark_used
    empty-mark_used s hs = ground (
      arith,
      is_clear-set_bit (p (slot / 8)) (slot % 8) (h slot lt) (omega arith) (s % 8) (omega arith),
      byte,
    )
      where
        byte : s / 8 ≡ slot / 8 → p (s / 8) ≡ p (slot / 8)
        byte e = ap p e

    pub empty-mark_unused :
        (s : ℕ)
        → s < hp.capacity
        → empty (mark_unused hp slot p) s ≡ (if slot == s then true else empty p s)
    unfolding empty mark_unused
    empty-mark_unused s hs = ground (
      arith,
      is_clear-clear_bit (p (slot / 8)) (slot % 8) (h slot lt) (omega arith) (s % 8) (omega arith),
      byte,
    )
      where
        byte : s / 8 ≡ slot / 8 → p (s / 8) ≡ p (slot / 8)
        byte e = ap p e

    -- A write to the bitmap leaves the bytes of the slots.
    pub bytes-mark_used : (s : ℕ) → slot_bytes (mark_used hp slot p) s ≡ slot_bytes p s
    unfolding mark_used store
    bytes-mark_used s =
        load-store-Apart (desc_length hp.td) p (slot_offset hp s) (slot / 8)
          (set_bit (p (slot / 8)) (slot % 8) ∷ []) (omega (arith, header-Apart fit slot s lt))

    pub bytes-mark_unused : (s : ℕ) → slot_bytes (mark_unused hp slot p) s ≡ slot_bytes p s
    unfolding mark_unused store
    bytes-mark_unused s =
        load-store-Apart (desc_length hp.td) p (slot_offset hp s) (slot / 8)
          (clear_bit (p (slot / 8)) (slot % 8) ∷ []) (omega (arith, header-Apart fit slot s lt))

    pub mark_used-IsHeader : IsHeader (mark_used hp slot p)
    unfolding mark_used
    mark_used-IsHeader s hs =
        ground (arith, h s hs, bit_range (p (slot / 8)) (slot % 8) (h slot lt) (omega arith))

    pub mark_unused-IsHeader : IsHeader (mark_unused hp slot p)
    unfolding mark_unused
    mark_unused-IsHeader s hs =
        ground (arith, h s hs, bit_range (p (slot / 8)) (slot % 8) (h slot lt) (omega arith))

    -- A write to a slot leaves the bitmap and the other slots.
    module _ (bs : List ℕ) (size : length bs ≡ desc_length hp.td) where
      store_header :
          (s : ℕ) → s < hp.capacity → store p (slot_offset hp slot) bs (s / 8) ≡ p (s / 8)
      store_header s hs =
          store_outside p (slot_offset hp slot) bs (s / 8)
            (omega (arith, header-Apart fit s slot hs))

      pub store-SameSlot :
          (s : ℕ) → s < hp.capacity → slot ≢ s → SameSlot p (store p (slot_offset hp slot) bs) s
      unfolding empty
      store-SameSlot s hs n = record {
        in_use = ap (λ b. is_clear b (s % 8)) (store_header s hs);
        bytes =
            load-store-Apart (desc_length hp.td) p (slot_offset hp s) (slot_offset hp slot) bs
              (omega (arith, slots-Apart hp.start (desc_length hp.td) s slot (λ e. n (sym e))));
      }

      pub store-empty : empty (store p (slot_offset hp slot) bs) slot ≡ empty p slot
      unfolding empty
      store-empty = ap (λ b. is_clear b (slot % 8)) (store_header slot lt)

      pub store-IsHeader : IsHeader (store p (slot_offset hp slot) bs)
      store-IsHeader s hs = subst (λ b. b < 256) (sym (store_header s hs)) (h s hs)
