-- ===== src/HeapPage/Scan.antt =====
-- The counting loop of `begin`, `next` and `insertTuple`: it stops at the first slot that passes.
use cs660_spring2025_pa.Base.{
  ℕ, zero, suc, ◌+◌, ◌≤◌, ◌<◌, ◌≡◌, subst, Bool, true, false, Bool-cases, inl, inr, dec_lt, arith,
}
use cs660_spring2025_pa.HeapPage.{scan}

-- `r` is the first slot from `slot` on that passes the test, or the end if none does.
pub record IsFirst (stop : ℕ → Bool) (slot bound r : ℕ) : Type 0 where
  pub above : slot ≤ r
  pub below : r ≤ bound
  pub skipped : (s : ℕ) → slot ≤ s → s < r → stop s ≡ false
  pub stopped : r < bound → stop r ≡ true

pub scan-IsFirst :
    (stop : ℕ → Bool) (rounds slot bound : ℕ)
    → slot + rounds ≡ bound
    → IsFirst stop slot bound (scan stop rounds slot)
unfolding scan
scan-IsFirst stop zero slot bound e = record {
  above = omega arith;
  below = omega arith;
  skipped = λ s a b. absurd (omega arith);
  stopped = λ h. absurd (omega arith);
}
scan-IsFirst stop (suc rounds) slot bound e = elim (Bool-cases (stop slot)) [
  | inl h ↦ rw h (record {
    above = omega arith;
    below = omega arith;
    skipped = λ s a b. absurd (omega arith);
    stopped = λ _. h;
  })
  | inr h ↦
      let ih = scan-IsFirst stop rounds (suc slot) bound (omega arith) in
      rw h (record {
        above = omega (arith, ih.above);
        below = ih.below;
        skipped = λ s a b. elim (dec_lt slot s) [
          | yes lt ↦ ih.skipped s lt b
          | no ge ↦ subst (λ x. stop x ≡ false) {x = slot} {y = s} (omega arith) h
        ];
        stopped = ih.stopped;
      })
]
