-- ===== src/HeapPage/Bits.antt =====
-- One bit of a header byte, for each byte and each of its eight bits.
use Prim.Native.Nat.{ℕ}
use cs660_spring2025_pa.Base.{
  ℕ, ◌<◌, ◌≡◌, refl, Bool, true, false, not, ◌==◌, ltb, if◌then◌else◌, holds_below, holds_below_lem,
  ◌&&◌, arith,
}
use cs660_spring2025_pa.HeapPage.{is_clear, set_bit, clear_bit}

abbrev same : Bool → Bool → Bool
same true b = b
same false b = not b

same_sound : (a b : Bool) → same a b ≡ true → a ≡ b
same_sound a b h = ground arith

abbrev set_test : ℕ → ℕ → ℕ → Bool
set_test b k j = same (is_clear (set_bit b k) j) (if k == j then false else is_clear b j)

abbrev clear_test : ℕ → ℕ → ℕ → Bool
clear_test b k j = same (is_clear (clear_bit b k) j) (if k == j then true else is_clear b j)

-- A test holds of every byte and every two of its bits.
abbrev each_bit : (ℕ → ℕ → ℕ → Bool) → Bool
each_bit test = holds_below (λ b. holds_below (λ k. holds_below (λ j. test b k j) 8) 8) 256

each_bit_lem :
    (test : ℕ → ℕ → ℕ → Bool)
    → each_bit test ≡ true
    → (b k j : ℕ) → b < 256
    → k < 8
    → j < 8
    → test b k j ≡ true
each_bit_lem test h b k j hb hk hj =
    let bytes = holds_below_lem (λ b. holds_below (λ k. holds_below (test b k) 8) 8) 256 h b hb in
    let bits = holds_below_lem (λ k. holds_below (test b k) 8) 8 bytes k hk in
    holds_below_lem (test b k) 8 bits j hj

abbrev range_test : ℕ → ℕ → ℕ → Bool
range_test b k j = ltb (set_bit b k) 256 && ltb (clear_bit b k) 256

set_table : each_bit set_test ≡ true
unfolding holds_below is_clear set_bit
set_table = refl

clear_table : each_bit clear_test ≡ true
unfolding holds_below is_clear clear_bit
clear_table = refl

range_table : each_bit range_test ≡ true
unfolding holds_below set_bit clear_bit
range_table = refl

module _ (b k : ℕ) (hb : b < 256) (hk : k < 8) where
  pub is_clear-set_bit :
      (j : ℕ) → j < 8 → is_clear (set_bit b k) j ≡ (if k == j then false else is_clear b j)
  is_clear-set_bit j hj = same_sound _ _ (each_bit_lem set_test set_table b k j hb hk hj)

  pub is_clear-clear_bit :
      (j : ℕ) → j < 8 → is_clear (clear_bit b k) j ≡ (if k == j then true else is_clear b j)
  is_clear-clear_bit j hj = same_sound _ _ (each_bit_lem clear_test clear_table b k j hb hk hj)

  pub bit_range : (set_bit b k < 256) × (clear_bit b k < 256)
  bit_range = let both = each_bit_lem range_test range_table b k k hb hk hk in ground arith
