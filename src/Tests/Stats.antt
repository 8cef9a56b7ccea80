-- ===== src/Tests/Stats.antt =====
-- A histogram of the range from 0 to 10, and a `double` arithmetic that meets what is used of it.
use cs660_spring2025_pa.Base.{◌≡◌, ◌⊎◌, refl, [], ◌∷◌, ok, throw, undefined, arith}
use cs660_spring2025_pa.Base.Int.{pos, ◌<ℤ◌, ◌≤ℤ◌}
use cs660_spring2025_pa.Query.{PredicateOp}
use cs660_spring2025_pa.ColumnStats.{ColumnStats, sum_list, add_value, estimate_cardinality}
use cs660_spring2025_pa.ColumnStats.Buckets.{IsExact, IsValid, Counted, add_value-IsValid}
use cs660_spring2025_pa.ColumnStats.Edge.{estimate-max}
use cs660_spring2025_pa.Tests.Queries.{whole}

whole-IsExact : IsExact whole
whole-IsExact = record { to_size-div = λ a w small positive fits. refl }

-- Five buckets of width 2, with one value in the second.
abbrev stats : ColumnStats
stats = record {
  buckets = 5;
  min = pos 0;
  max = pos 10;
  total_count = 1;
  bucket_width = 2;
  histogram = 0 ∷ 1 ∷ 0 ∷ 0 ∷ 0 ∷ [];
}

unfoldable valid_stats : IsValid whole stats
unfolding sum_list
valid_stats = record {
  range = 10;
  spans = refl;
  small = omega arith;
  width = 2;
  is_width = refl;
  positive = omega arith;
  fits = omega arith;
  covers = omega arith;
  size = refl;
  counted = refl;
}

add_value-IsValid_example :
    (s' : ColumnStats) × (add_value whole (pos 7) stats ≡ ok tt s')
    × IsValid whole s'
    × ((((pos 7 <ℤ pos 0) ⊎ (pos 10 ≤ℤ pos 7)) × (s' ≡ stats))
        ⊎ Counted whole whole-IsExact stats valid_stats (pos 7) s')
add_value-IsValid_example = add_value-IsValid whole whole-IsExact stats valid_stats (pos 7)

estimate-max_example :
    estimate_cardinality whole stats PredicateOp.lt (pos 10) (tt {0}) ≡ throw undefined tt
unfolding valid_stats
estimate-max_example =
    estimate-max whole whole-IsExact stats valid_stats tt (λ e. absurd (omega arith)) (omega arith)
      refl
