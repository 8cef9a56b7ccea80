-- ===== src/Memory/Rows.antt =====
-- A page region of records of one width, one behind the other: a record written in its place, and
-- a record put in after the later ones have moved up.
use cs660_spring2025_pa.Base.{
  ℕ, zero, suc, ◌+◌, ◌-◌, ◌*◌, ◌≤◌, ◌<◌, ◌≡◌, ◌≢◌, ap, sym, ◌∙◌, ◌⊎◌, inl, inr, List, [], length,
  arith, dec_lt, refl, ap₂, ◌∷◌, tabulate, insert_at, set, tabulate-insert_at, tabulate-set,
}
use cs660_spring2025_pa.Memory.{Page, put_byte, load, store, copy_bytes}
use cs660_spring2025_pa.Memory.Laws.{
  Apart, store_outside, load-cong, load-store_self, load-store-Apart, copy_bytes_inside,
  copy_bytes_outside,
}

row-le : (i j w : ℕ) → i < j → i * w + w ≤ j * w
row-le i j w h = grind arith

add-mul : (a b w : ℕ) → (a + b) * w ≡ a * w + b * w
add-mul a b w = grind arith

suc-mul : (i w : ℕ) → suc i * w ≡ i * w + w
suc-mul i w = grind arith

-- The same bytes, at two places.
pub load-same :
    (n : ℕ) (p q : Page) (o o' : ℕ)
    → ((k : ℕ) → k < n → p (o + k) ≡ q (o' + k))
    → load n p o ≡ load n q o'
unfolding load
load-same zero p q o o' h = refl
load-same (suc n) p q o o' h =
    ap₂ ◌∷◌
      (ap p {x = o} {y = o + 0} (omega arith)
        ∙ h 0 (omega arith)
        ∙ ap q {x = o' + 0} {y = o'} (omega arith))
      (load-same n p q (suc o) (suc o') (λ k lt.
        ap p {x = suc o + k} {y = o + suc k} (omega arith)
        ∙ h (suc k) (omega arith)
        ∙ ap q {x = o' + suc k} {y = suc o' + k} (omega arith)))

-- A store, and a copy, of the same bytes: a byte of the result depends on that byte of the page.
pub store-cong :
    (p q : Page) (o : ℕ) (bs : List ℕ) (i : ℕ) → p i ≡ q i → store p o bs i ≡ store q o bs i
unfolding store
store-cong p q o [] i h = h
store-cong p q o (b ∷ bs) i h =
    store-cong (put_byte p o b) (put_byte q o b) (suc o) bs i (ground arith)

pub copy_bytes-cong :
    (n : ℕ) (p q : Page) (from to : ℕ) (i : ℕ)
    → load n p from ≡ load n q from
    → p i ≡ q i
    → copy_bytes n p from p to i ≡ copy_bytes n q from q to i
unfolding copy_bytes
copy_bytes-cong n p q from to i h e =
    ap (λ l. store p to l i) h ∙ store-cong p q to (load n q from) i e

mul-sub : (n i w : ℕ) → i ≤ n → (n - i) * w + i * w ≡ n * w
mul-sub n i w h = grind arith

module _ (base w : ℕ) where
  -- The bytes of the record with an index.
  abbrev pub row : Page → ℕ → List ℕ
  row p i = load w p (base + i * w)

  pub rows-Apart : (i j : ℕ) → i ≢ j → Apart (base + i * w) w (base + j * w) w
  rows-Apart i j n = elim (dec_lt i j) [
    | yes lt ↦ inl (omega (arith, row-le i j w lt))
    | no ge ↦ inr (omega (arith, row-le j i w (omega arith)))
  ]

  -- The records from `slot` to `n` moved up by one, and a record written to `slot`.
  abbrev pub shifted : Page → ℕ → ℕ → List ℕ → Page
  shifted p slot n bs =
      store (copy_bytes ((n - slot) * w) p (base + slot * w) p (base + suc slot * w))
        (base + slot * w) bs

  module _ (p : Page) (slot n : ℕ) (bs : List ℕ) (le : slot ≤ n) (size : length bs ≡ w) where
    pub row-shifted_self : row (shifted p slot n bs) slot ≡ bs
    row-shifted_self =
        ap (λ k. load k (shifted p slot n bs) (base + slot * w)) (sym size)
        ∙ load-store_self _ (base + slot * w) bs

    pub row-shifted_below : (i : ℕ) → i < slot → row (shifted p slot n bs) i ≡ row p i
    row-shifted_below i lt =
        load-store-Apart w _ (base + i * w) (base + slot * w) bs
          (omega (arith, size, row-le i slot w lt))
        ∙ load-cong w _ p (base + i * w) (λ k a b.
          copy_bytes_outside ((n - slot) * w) p (base + slot * w) p (base + suc slot * w) k
            (inl (omega (arith, row-le i slot w lt, row-le slot (suc slot) w (omega arith)))))

    pub row-shifted_above : (i : ℕ) → slot ≤ i → i < n → row (shifted p slot n bs) (suc i) ≡ row p i
    row-shifted_above i ge lt =
        load-store-Apart w _ (base + suc i * w) (base + slot * w) bs
          (omega (arith, size, row-le slot (suc i) w (omega arith)))
        ∙ moved
      where
        j : ℕ → ℕ
        j k = (i - slot) * w + k

        moved :
            load w
              (copy_bytes ((n - slot) * w) p (base + slot * w) p (base + suc slot * w))
              (base + suc i * w)
            ≡ row p i
        moved = load-same w _ p (base + suc i * w) (base + i * w) (λ k h.
            ap (copy_bytes ((n - slot) * w) p (base + slot * w) p (base + suc slot * w))
              {x = base + suc i * w + k} {y = base + suc slot * w + j k}
              (omega (arith, mul-sub i slot w ge, suc-mul slot w, suc-mul i w))
            ∙ copy_bytes_inside ((n - slot) * w) p (base + slot * w) p (base + suc slot * w) (j k)
                (omega (arith, mul-sub i slot w ge, mul-sub n slot w le, row-le i n w lt))
            ∙ ap p {x = base + slot * w + j k} {y = base + i * w + k}
                (omega (arith, mul-sub i slot w ge)))

    -- Nothing changes but the records from `slot` to `n`.
    pub shifted_outside :
        (i : ℕ) → (i < base + slot * w) ⊎ (base + suc n * w ≤ i) → shifted p slot n bs i ≡ p i
    shifted_outside i h =
        store_outside _ (base + slot * w) bs i
          (omega (arith, size, suc-mul n w, mul-sub n slot w le))
        ∙ copy_bytes_outside ((n - slot) * w) p (base + slot * w) p (base + suc slot * w) i
            (omega (arith, mul-sub n slot w le, suc-mul n w, suc-mul slot w))

    -- As a list: the record is put in before the one at `slot`.
    pub rows-shifted :
        tabulate (row (shifted p slot n bs)) (suc n) ≡ insert_at (tabulate (row p) n) slot bs
    rows-shifted =
        tabulate-insert_at (row p) (row (shifted p slot n bs)) n slot bs le row-shifted_below
          row-shifted_self row-shifted_above

  -- A record written over the one at `slot`.
  pub rows-store :
      (p : Page) (slot n : ℕ) (bs : List ℕ)
      → slot < n
      → length bs ≡ w
      → tabulate (row (store p (base + slot * w) bs)) n ≡ set (tabulate (row p) n) slot bs
  rows-store p slot n bs lt size =
      tabulate-set (row p) (row (store p (base + slot * w) bs)) n slot bs lt
        (ap (λ k. load k (store p (base + slot * w) bs) (base + slot * w)) (sym size)
          ∙ load-store_self p (base + slot * w) bs)
        (λ i h ne.
          load-store-Apart w p (base + i * w) (base + slot * w) bs
            (omega (arith, size, rows-Apart i slot ne)))

-- Records copied to the start of a region, of one page or of another.
pub row-copied :
    (base w n : ℕ) (src dst : Page) (from i : ℕ)
    → i < n
    → row base w (copy_bytes (n * w) src (base + from * w) dst base) i ≡ row base w src (from + i)
row-copied base w n src dst from i lt =
    load-same w _ src (base + i * w) (base + (from + i) * w) (λ k kw.
      ap (copy_bytes (n * w) src (base + from * w) dst base) {x = base + i * w + k}
        {y = base + (i * w + k)} (omega arith)
      ∙ copy_bytes_inside (n * w) src (base + from * w) dst base (i * w + k)
          (omega (arith, row-le i n w lt))
      ∙ ap src {x = base + from * w + (i * w + k)} {y = base + (from + i) * w + k}
          (omega (arith, add-mul from i w)))
