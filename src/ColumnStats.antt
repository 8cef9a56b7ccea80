-- ===== src/ColumnStats.antt =====
-- include/db/ColumnStats.hpp and src/db/ColumnStats.cpp: a histogram of fixed width over the values of
-- a column, and the estimates that are read from it. The width is a `double`, whose arithmetic is a
-- parameter; counts are `unsigned` numbers of 32 bits. A difference of two `int`s that is no `int`,
-- and an index outside of the histogram, are undefined.
pub mod Buckets
pub mod Edge
use cs660_spring2025_pa.Base.{
  ℕ, zero, suc, ◌+◌, ◌-◌, ◌*◌, ◌/◌, ◌%◌, ◌^◌, Bool, true, false, not, ◌||◌, List, [], ◌∷◌, length,
  get_elem?, set, drop, take, replicate, ◌==◌, if◌then◌else◌, M, ◌>>=◌, ◌>>◌, pure, fail, get,
  modify, or_throw, invalid_argument, undefined,
}
use cs660_spring2025_pa.Base.Int.{ℤ, pos, ltb_ℤ, ◌-ℤ◌, ◌+ℤ◌, is_int, to_u32}
use cs660_spring2025_pa.Double.{Double}
use cs660_spring2025_pa.Query.{PredicateOp}
use cs660_spring2025_pa.Query.Aggregate.{add_int}

pub record ColumnStats : Type 0 where
  pub buckets : ℕ
  pub min : ℤ
  pub max : ℤ
  pub total_count : ℕ
  pub bucket_width : ℕ
  pub histogram : List ℕ

-- `a - b` of two `int`s.
unfoldable pub sub_int : {S : Type 0} → ℤ → ℤ → M S ℤ
sub_int a b = if is_int (a -ℤ b) then pure (a -ℤ b) else fail undefined

-- `histogram[i]`.
unfoldable pub height : {S : Type 0} → ColumnStats → ℕ → M S ℕ
height s i = or_throw (get_elem? s.histogram i) undefined

unfoldable pub sum_list : List ℕ → ℕ
sum_list [] = 0
sum_list (n ∷ ns) = n + sum_list ns

module _ (fp : Double) where
  -- The constructor.
  unfoldable pub make : {S : Type 0} → ℕ → ℤ → ℤ → M S ColumnStats
  make buckets min max =
      if buckets == 0
      then fail invalid_argument
      else if not (ltb_ℤ min max)
      then fail invalid_argument
      else (do
        range ← sub_int max min
        let n = to_u32 range
        let width = (n / buckets + (if n % buckets == 0 then 0 else 1)) % 2 ^ 32
        pure (record {
          buckets = buckets;
          min = min;
          max = max;
          total_count = 0;
          bucket_width = fp.of_size width;
          histogram = replicate buckets 0;
        }))

  -- `static_cast<size_t>((v - min) / bucketWidth)`.
  unfoldable pub bucket_of : {S : Type 0} → ColumnStats → ℤ → M S ℕ
  bucket_of s v = do d ← sub_int v s.min; pure (fp.to_size (fp.div (fp.of_int d) s.bucket_width))

  unfoldable pub add_value : ℤ → M ColumnStats (Unit {0})
  add_value v = do
    s ← get
    if ltb_ℤ v s.min || not (ltb_ℤ v s.max) then pure tt else (do
      bucket ← bucket_of s v
      n ← height s bucket
      modify λ s. record s {
        histogram = set s.histogram bucket (suc n % 2 ^ 32);
        total_count = suc s.total_count % 2 ^ 32;
      })

  -- `fraction * histogram[bucketIndex]`, for the part of a bucket that has these values.
  unfoldable pub partial : {S : Type 0} → ColumnStats → ℕ → ℤ → M S ℕ
  partial s bucket values = do
    n ← height s bucket
    pure (fp.to_size (fp.mul (fp.div (fp.of_int values) s.bucket_width) (fp.of_size n)))

  -- `min + (bucketIndex + 1) * bucketWidth - 1` and `min + bucketIndex * bucketWidth`, as `int`s.
  unfoldable pub right_edge : ColumnStats → ℕ → ℤ
  right_edge s bucket = fp.to_int (
      fp.sub (fp.add (fp.of_int s.min) (fp.mul (fp.of_size (suc bucket)) s.bucket_width))
        (fp.of_int (pos 1)))

  unfoldable pub left_edge : ColumnStats → ℕ → ℤ
  left_edge s bucket =
      fp.to_int (fp.add (fp.of_int s.min) (fp.mul (fp.of_size bucket) s.bucket_width))

  -- The cases of `estimateCardinality`.
  unfoldable pub estimate_eq : {S : Type 0} → ColumnStats → ℤ → M S ℕ
  estimate_eq s v = if ltb_ℤ v s.min || not (ltb_ℤ v s.max) then pure 0 else (do
    bucket ← bucket_of s v
    n ← height s bucket
    pure (fp.to_size (fp.div (fp.of_size n) s.bucket_width)))

  unfoldable pub estimate_gt : {S : Type 0} → ColumnStats → ℤ → M S ℕ
  estimate_gt s v =
      if not (ltb_ℤ v s.max) then pure 0 else if ltb_ℤ v s.min then pure s.total_count else (do
        bucket ← bucket_of s v
        values ← sub_int (right_edge s bucket) v
        n ← partial s bucket values
        pure (n + sum_list (drop (suc bucket) s.histogram)))

  unfoldable pub estimate_lt : {S : Type 0} → ColumnStats → ℤ → M S ℕ
  estimate_lt s v =
      if not (ltb_ℤ s.min v) then pure 0 else if ltb_ℤ s.max v then pure s.total_count else (do
        bucket ← bucket_of s v
        values ← sub_int v (left_edge s bucket)
        n ← partial s bucket values
        pure (n + sum_list (take bucket s.histogram)))

  unfoldable pub estimate_ge : {S : Type 0} → ColumnStats → ℤ → M S ℕ
  estimate_ge s v =
      if ltb_ℤ v s.min then pure s.total_count else if not (ltb_ℤ v s.max) then pure 0 else (do
        bucket ← bucket_of s v
        values ← sub_int (right_edge s bucket) v
        more ← add_int values (pos 1)
        n ← partial s bucket more
        pure (n + sum_list (drop (suc bucket) s.histogram)))

  -- `estimateCardinality`; the calls that it makes of itself are those of `EQ` and `LT`. The
  -- difference of `NE` is one of `size_t`.
  unfoldable pub estimate_cardinality : {S : Type 0} → ColumnStats → PredicateOp → ℤ → M S ℕ
  estimate_cardinality s op v = if s.total_count == 0 then pure 0 else elim op [
    | PredicateOp.eq ↦ estimate_eq s v
    | PredicateOp.gt ↦ estimate_gt s v
    | PredicateOp.lt ↦ estimate_lt s v
    | PredicateOp.ge ↦ estimate_ge s v
    | PredicateOp.le ↦ (do a ← estimate_eq s v; b ← estimate_lt s v; pure (a + b))
    | PredicateOp.ne ↦ (do a ← estimate_eq s v; pure ((s.total_count + 2 ^ 64 - a) % 2 ^ 64))
  ]
