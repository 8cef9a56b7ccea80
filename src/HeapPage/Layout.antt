-- ===== src/HeapPage/Layout.antt =====
-- Where the bitmap and the slots of a heap page stand.
use native.Mathlib.Nat.{div-mul-le_self}
use cs660_spring2025_pa.Base.{refl, ◌≡◌, ℕ, ◌+◌, ◌*◌, ◌/◌, ◌≤◌, ◌<◌, ◌≢◌, inl, inr, arith, dec_lt}
use cs660_spring2025_pa.Memory.{page_size}
use cs660_spring2025_pa.Memory.Laws.{Apart}
use cs660_spring2025_pa.Tuple.{TupleDesc, desc_length}
use cs660_spring2025_pa.HeapPage.{wrap}

-- All that is used of the layout: the slots behind the bitmap, inside the page.
pub record Fitting (w capacity start : ℕ) : Type 0 where
  pub header : (slot : ℕ) → slot < capacity → slot / 8 < start
  pub inside : start + capacity * w ≤ page_size

-- For every descriptor: the byte of the bitmap of every slot stands before the slots, and the slots
-- end inside the page.
pub wrap-Fitting : (td : TupleDesc) → Fitting (desc_length td) (wrap td).capacity (wrap td).start
unfolding wrap
wrap-Fitting td =
    let w : ℕ = desc_length td in
    let bound = div-mul-le_self (page_size * 8) (w * 8 + 1) in
    record { header = λ slot h. omega (arith, bound); inside = omega (arith, bound) }

pub wrap_td : (td : TupleDesc) → (wrap td).td ≡ td
unfolding wrap
wrap_td td = refl

-- The same, of the descriptor that the page keeps.
pub wrap_fit :
    (td : TupleDesc) → Fitting (desc_length (wrap td).td) (wrap td).capacity (wrap td).start
unfolding wrap
wrap_fit td = wrap-Fitting td

row-le : (i j w : ℕ) → i < j → i * w + w ≤ j * w
row-le i j w h = grind arith

-- Two slots share no byte, and no slot shares one with the bitmap.
pub slots-Apart : (start w i j : ℕ) → i ≢ j → Apart (start + i * w) w (start + j * w) w
slots-Apart start w i j n = elim (dec_lt i j) [
  | yes lt ↦ inl (omega (arith, row-le i j w lt))
  | no ge ↦ inr (omega (arith, row-le j i w (omega arith)))
]

module _ {w capacity start : ℕ} (fit : Fitting w capacity start) where
  pub header-Apart : (i j : ℕ) → i < capacity → Apart (i / 8) 1 (start + j * w) w
  header-Apart i j h = inl (omega (arith, fit.header i h))

  pub slot_inside : (i : ℕ) → i < capacity → start + i * w + w ≤ page_size
  slot_inside i h = omega (arith, fit.inside, row-le i capacity w h)
