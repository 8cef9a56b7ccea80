-- ===== src/HeapPage/Iterate.antt =====
-- `begin`, `next` and `end` of src/db/HeapPage.cpp: a walk over a page.
use cs660_spring2025_pa.Base.{
  ℕ, zero, suc, ◌+◌, ◌-◌, ◌<◌, ◌≡◌, ap, ◌∙◌, Bool, not, ◌==◌, if◌then◌else◌, Bool-cases, inl, inr,
  arith, List, [], ◌∷◌,
}
use cs660_spring2025_pa.Memory.{Page}
use cs660_spring2025_pa.HeapPage.{HeapPage, empty, scan, begin, end, next}

module _ (hp : HeapPage) (p : Page) where
  -- `for (slot = s; slot != end(); next(slot))`, for at most so many rounds: the slots visited.
  unfoldable pub visited : ℕ → ℕ → List ℕ
  visited zero slot = []
  visited (suc fuel) slot =
      let rest = slot ∷ visited fuel (next hp p slot) in if slot == end hp then [] else rest

  -- The slots in use among the `n` slots from `slot`, in order.
  unfoldable pub used_from : ℕ → ℕ → List ℕ
  used_from zero slot = []
  used_from (suc n) slot =
      if empty p slot then used_from n (suc slot) else slot ∷ used_from n (suc slot)

  occupied : ℕ → Bool
  occupied slot = not (empty p slot)

  next-scan :
      (n slot : ℕ) → slot + suc n ≡ hp.capacity → next hp p slot ≡ scan occupied n (suc slot)
  unfolding next occupied
  next-scan n slot e =
      ap (λ k. scan occupied k (suc slot)) {x = hp.capacity - suc slot} {y = n} (omega arith)

  visited_lem :
      (n fuel slot : ℕ)
      → slot + n ≡ hp.capacity
      → n < fuel
      → visited fuel (scan occupied n slot) ≡ used_from n slot
  unfolding visited used_from scan end occupied
  visited_lem n zero slot e h = absurd (omega arith)
  visited_lem zero (suc fuel) slot e h = ground arith
  visited_lem (suc n) (suc fuel) slot e h = elim (Bool-cases (empty p slot)) [
    | inl free ↦ rw free (visited_lem n (suc fuel) (suc slot) (omega arith) (omega arith))
    | inr used ↦
        let rest : visited fuel (next hp p slot) ≡ used_from n (suc slot) =
          ap (visited fuel) (next-scan n slot e)
          ∙ visited_lem n fuel (suc slot) (omega arith) (omega arith) in
        ground arith
  ]

  -- A loop from `begin()` by `next` to `end()` visits each slot in use once, in order, and ends.
  pub visited_all : visited (suc hp.capacity) (begin hp p) ≡ used_from hp.capacity 0
  unfolding begin occupied
  visited_all = visited_lem hp.capacity (suc hp.capacity) 0 (omega arith) (omega arith)
