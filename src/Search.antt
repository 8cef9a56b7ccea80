-- ===== src/Search.antt =====
-- `std::lower_bound`, which src/db/LeafPage.cpp, src/db/IndexPage.cpp and src/db/BTreeFile.cpp call on
-- keys in pages: the halving search, on a test of the element at an index.
pub mod Bound
pub mod Keys
use cs660_spring2025_pa.Base.{ℕ, zero, suc, ◌+◌, ◌-◌, ◌/◌, Bool, ◌==◌, if◌then◌else◌}

-- The search in the `count` elements from `first`. A round leaves fewer elements, so that `count`
-- rounds are enough.
unfoldable pub lower_bound_loop : (ℕ → Bool) → ℕ → ℕ → ℕ → ℕ
lower_bound_loop less zero first count = first
lower_bound_loop less (suc rounds) first count =
    let half : ℕ = count / 2 in
    let upper = lower_bound_loop less rounds (suc (first + half)) (count - half - 1) in
    let lower = lower_bound_loop less rounds first half in
    if count == 0 then first else if less (first + half) then upper else lower

-- `std::lower_bound(a, a + count, key)`, where `less i` is `a[i] < key`.
unfoldable pub lower_bound : (ℕ → Bool) → ℕ → ℕ
unfolding lower_bound_loop
lower_bound less count = lower_bound_loop less count 0 count
