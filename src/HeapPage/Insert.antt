-- ===== src/HeapPage/Insert.antt =====
-- `insertTuple`, `deleteTuple` and `getTuple` of src/db/HeapPage.cpp, on every path.
use cs660_spring2025_pa.Base.{
  ℕ, ◌+◌, ◌/◌, ◌≤◌, ◌<◌, ltb, leb, ◌≡◌, ◌≢◌, sym, ap, ◌∙◌, ◌⊎◌, inl, inr, true, false, All, ok,
  throw, runtime_error, Bool-cases, dec_lt, arith,
}
use cs660_spring2025_pa.Memory.{Page, page_size, load, store}
use cs660_spring2025_pa.Memory.Laws.{load-store_self}
use cs660_spring2025_pa.Tuple.{Tuple, compatible, desc_length}
use cs660_spring2025_pa.Tuple.Bytes.{Fits, tuple_bytes, serialize-store, deserialize-load}
use cs660_spring2025_pa.Tuple.RoundTrip.{length-compatible}
use cs660_spring2025_pa.HeapPage.{
  HeapPage, empty, slot_offset, free_slot, mark_used, mark_unused, insert_tuple, delete_tuple,
  get_tuple,
}
use cs660_spring2025_pa.HeapPage.Layout.{Fitting, slot_inside}
use cs660_spring2025_pa.HeapPage.Scan.{IsFirst, scan-IsFirst}
use cs660_spring2025_pa.HeapPage.Slots.{
  IsHeader, SameSlot, slot_bytes, empty-mark_used, empty-mark_unused, bytes-mark_used,
  bytes-mark_unused, mark_used-IsHeader, mark_unused-IsHeader, store-SameSlot, store-empty,
  store-IsHeader,
}

-- A slot in use that holds the bytes of a tuple is read as that tuple.
pub get_tuple_bytes :
    (hp : HeapPage) (p : Page) (slot : ℕ) (t : Tuple)
    → Fitting (desc_length hp.td) hp.capacity hp.start
    → slot < hp.capacity
    → compatible hp.td t ≡ true
    → All Fits t
    → empty p slot ≡ false
    → slot_bytes hp p slot ≡ tuple_bytes t
    → get_tuple hp slot p ≡ ok t p
unfolding get_tuple
get_tuple_bytes hp p slot t fit lt c f used e =
    let inside = slot_inside fit slot lt in
    let bit_inside : leb page_size (slot / 8) ≡ false = ground (arith, fit.header slot lt) in
    let bytes_inside : ltb page_size (slot_offset hp slot + desc_length hp.td) ≡ false =
      ground (arith, inside) in
    rw (bit_inside, used, bytes_inside)
      (deserialize-load hp.td t (slot_offset hp slot) p c f inside e)

module _ (hp : HeapPage) (fit : Fitting (desc_length hp.td) hp.capacity hp.start) where
  -- The page after an insertion of `t` into `slot`.
  pub record Inserted (p q : Page) (t : Tuple) (slot : ℕ) : Type 0 where
    pub in_range : slot < hp.capacity
    pub was_empty : empty p slot ≡ true
    pub first : (s : ℕ) → s < slot → empty p s ≡ false
    pub in_use : empty q slot ≡ false
    pub stored : slot_bytes hp q slot ≡ tuple_bytes t
    pub read_back : get_tuple hp slot q ≡ ok t q
    pub others : (s : ℕ) → s < hp.capacity → slot ≢ s → SameSlot hp p q s
    pub header : IsHeader hp q

  module _ (p : Page) (h : IsHeader hp p) (t : Tuple) (c : compatible hp.td t ≡ true)
      (f : All Fits t) where
    pub insert_at :
        (slot : ℕ)
        → slot < hp.capacity
        → empty p slot ≡ true
        → ((s : ℕ) → s < slot → empty p s ≡ false)
        → Inserted p (store (mark_used hp slot p) (slot_offset hp slot) (tuple_bytes t)) t slot
    insert_at slot lt e before =
        let m : Page = mark_used hp slot p in
        let hm : IsHeader hp m = mark_used-IsHeader hp fit p h slot lt in
        let size = length-compatible hp.td t c in
        let q : Page = store m (slot_offset hp slot) (tuple_bytes t) in
        let used : empty q slot ≡ false =
          store-empty hp fit m hm slot lt (tuple_bytes t) size
          ∙ empty-mark_used hp fit p h slot lt slot lt
          ∙ ground arith in
        let bytes : slot_bytes hp q slot ≡ tuple_bytes t =
          ap (λ n. load n q (slot_offset hp slot)) (sym size)
          ∙ load-store_self m (slot_offset hp slot) (tuple_bytes t) in
        record {
          in_range = lt;
          was_empty = e;
          first = before;
          in_use = used;
          stored = bytes;
          read_back = get_tuple_bytes hp q slot t fit lt c f used bytes;
          others = λ s hs n.
              let kept = store-SameSlot hp fit m hm slot lt (tuple_bytes t) size s hs n in
              record {
                in_use = kept.in_use ∙ empty-mark_used hp fit p h slot lt s hs ∙ ground arith;
                bytes = kept.bytes ∙ bytes-mark_used hp fit p h slot lt s;
              };
          header = store-IsHeader hp fit m hm slot lt (tuple_bytes t) size;
        }

    insert_run :
        free_slot hp p < hp.capacity
        → insert_tuple hp t p
          ≡ ok true (
              store
                (mark_used hp (free_slot hp p) p)
                (slot_offset hp (free_slot hp p))
                (tuple_bytes t))
    unfolding insert_tuple
    insert_run lt = ground (
      arith,
      serialize-store hp.td t (slot_offset hp (free_slot hp p)) (mark_used hp (free_slot hp p) p) c,
    )

    insert_full : free_slot hp p ≡ hp.capacity → insert_tuple hp t p ≡ ok false p
    unfolding insert_tuple
    insert_full e = ground arith

    free_slot-IsFirst : IsFirst (empty p) 0 hp.capacity (free_slot hp p)
    unfolding free_slot
    free_slot-IsFirst = scan-IsFirst (empty p) hp.capacity 0 hp.capacity (omega arith)

    -- `insertTuple` of a tuple that is compatible and fits: the page is full, false is returned and
    -- the page is as it was; or the first slot that was not in use now is, it reads back as the
    -- tuple, and every other slot is in use or not as before, with the same bytes.
    pub insert_tuple_lem :
        ((insert_tuple hp t p ≡ ok false p) × ((s : ℕ) → s < hp.capacity → empty p s ≡ false))
        ⊎ ((slot : ℕ) × (q : Page) × (insert_tuple hp t p ≡ ok true q) × Inserted p q t slot)
    insert_tuple_lem = elim (dec_lt (free_slot hp p) hp.capacity) [
      | no ge ↦
          let full : free_slot hp p ≡ hp.capacity = omega (arith, free_slot-IsFirst.below) in
          inl (insert_full full, λ s hs. free_slot-IsFirst.skipped s (omega arith) (omega arith))
      | yes lt ↦ inr (
        free_slot hp p,
        _,
        insert_run lt,
        insert_at (free_slot hp p) lt (free_slot-IsFirst.stopped lt)
            (λ s hs. free_slot-IsFirst.skipped s (omega arith) hs),
      )
    ]

  -- `deleteTuple`: of a slot out of range or not in use it throws, and the page is as it was; of a
  -- slot in use it returns, the slot is not in use, and every other slot is as before.
  pub delete_tuple_lem :
      (p : Page) (slot : ℕ)
      → IsHeader hp p
      → ((delete_tuple hp slot p ≡ throw runtime_error p)
          × ((hp.capacity ≤ slot) ⊎ (empty p slot ≡ true)))
        ⊎ ((q : Page) × (delete_tuple hp slot p ≡ ok tt q)
            × (slot < hp.capacity)
            × (empty p slot ≡ false)
            × (empty q slot ≡ true)
            × IsHeader hp q
            × ((s : ℕ) → s < hp.capacity → slot ≢ s → SameSlot hp p q s))
  unfolding delete_tuple
  delete_tuple_lem p slot h = elim (dec_lt slot hp.capacity) [
    | no ge ↦ inl (ground arith, inl (omega arith))
    | yes lt ↦ elim (Bool-cases (empty p slot)) [
      | inl e ↦ inl (ground arith, inr e)
      | inr u ↦ inr (
        mark_unused hp slot p,
        ground arith,
        lt,
        u,
        empty-mark_unused hp fit p h slot lt slot lt ∙ ground arith,
        mark_unused-IsHeader hp fit p h slot lt,
        λ s hs n. record {
          in_use = empty-mark_unused hp fit p h slot lt s hs ∙ ground arith;
          bytes = bytes-mark_unused hp fit p h slot lt s;
        },
      )
    ]
  ]
