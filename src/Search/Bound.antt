-- ===== src/Search/Bound.antt =====
-- What the halving search finds in a range that its test splits.
use cs660_spring2025_pa.Base.{
  ℕ, zero, suc, ◌+◌, ◌-◌, ◌/◌, ◌≤◌, ◌<◌, ◌≡◌, Bool, true, false, Bool-cases, inl, inr, refl, subst,
  dec_lt, arith,
}
use cs660_spring2025_pa.Search.{lower_bound_loop, lower_bound}

-- The test holds below `r`, and from there on it does not.
pub record Splits (less : ℕ → Bool) (first last r : ℕ) : Type 0 where
  pub above : first ≤ r
  pub below : r ≤ last
  pub low : (i : ℕ) → first ≤ i → i < r → less i ≡ true
  pub high : (i : ℕ) → r ≤ i → i < last → less i ≡ false

-- Once the test fails it fails for the rest of the range.
abbrev pub IsPartitioned : (ℕ → Bool) → ℕ → Type 0
IsPartitioned less last = (i j : ℕ) → i ≤ j → j < last → less j ≡ true → less i ≡ true

module _ (less : ℕ → Bool) where
  loop_up :
      (rounds first count : ℕ)
      → less (first + suc count / 2) ≡ true
      → lower_bound_loop less rounds (suc (first + suc count / 2)) (suc count - suc count / 2 - 1)
        ≡ lower_bound_loop less (suc rounds) first (suc count)
  unfolding lower_bound_loop
  loop_up rounds first count h = ground arith

  loop_down :
      (rounds first count : ℕ)
      → less (first + suc count / 2) ≡ false
      → lower_bound_loop less rounds first (suc count / 2)
        ≡ lower_bound_loop less (suc rounds) first (suc count)
  unfolding lower_bound_loop
  loop_down rounds first count h = ground arith

module _ (less : ℕ → Bool) (last : ℕ) (part : IsPartitioned less last) where
  none_left : (first r : ℕ) → r ≡ first → Splits less first first r
  none_left first r e = record {
    above = omega arith;
    below = omega arith;
    low = λ i a b. absurd (omega arith);
    high = λ i a b. absurd (omega arith);
  }

  lower_bound_loop-Splits :
      (rounds first count stop : ℕ)
      → count ≤ rounds
      → first + count ≡ stop
      → stop ≤ last
      → Splits less first stop (lower_bound_loop less rounds first count)
  unfolding lower_bound_loop
  lower_bound_loop-Splits zero first count stop le e inside =
      subst (λ s. Splits less first s first) {x = first} {y = stop} (omega arith)
        (none_left first first refl)
  lower_bound_loop-Splits (suc rounds) first zero stop le e inside =
      subst (λ s. Splits less first s first) {x = first} {y = stop} (omega arith)
        (none_left first first refl)
  lower_bound_loop-Splits (suc rounds) first (suc count) stop le e inside =
      let half : ℕ = suc count / 2 in
      elim (Bool-cases (less (first + half))) [
        | inl up ↦
            let ih =
              lower_bound_loop-Splits rounds (suc (first + half)) (suc count - half - 1) stop
                (omega arith) (omega arith) inside in
            subst (Splits less first stop) (loop_up less rounds first count up) (record {
              above = omega (arith, ih.above);
              below = ih.below;
              low = λ i a b. elim (dec_lt (first + half) i) [
                | yes more ↦ ih.low i more b
                | no ge ↦ part i (first + half) (omega arith) (omega arith) up
              ];
              high = ih.high;
            })
        | inr down ↦
            let ih =
              lower_bound_loop-Splits rounds first half (first + half) (omega arith) refl
                (omega arith) in
            subst (Splits less first stop) (loop_down less rounds first count down) (record {
              above = ih.above;
              below = omega (arith, ih.below);
              low = ih.low;
              high = λ i a b. elim (dec_lt i (first + half)) [
                | yes more ↦ ih.high i a more
                | no ge ↦ elim (Bool-cases (less i)) [
                  | inr f ↦ f
                  | inl t ↦
                      absurd (ground (arith, part (first + half) i (omega arith) (omega arith) t))
                ]
              ];
            })
      ]

  -- In a partitioned range the search finds the first element that fails the test.
  pub lower_bound-Splits : Splits less 0 last (lower_bound less last)
  unfolding lower_bound
  lower_bound-Splits =
      lower_bound_loop-Splits last 0 last last (omega arith) (omega arith) (omega arith)
