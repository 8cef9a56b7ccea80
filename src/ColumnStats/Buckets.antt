-- ===== src/ColumnStats/Buckets.antt =====
-- The histogram of src/db/ColumnStats.cpp: the constructor and `addValue`.
use cs660_spring2025_pa.Base.{
  ℕ, zero, suc, ◌+◌, ◌-◌, ◌*◌, ◌/◌, ◌%◌, ◌^◌, ◌≤◌, ◌<◌, ◌≡◌, ◌⊎◌, inl, inr, refl, ap, ◌∙◌, true,
  false, List, [], ◌∷◌, length, get_elem?, get_elem?_of_lt, length-set, set, some, ok, dec_lt,
  ◌>>=◌, Bool-cases, arith,
}
use native.Mathlib.Nat.{div-mul-le_self}
use cs660_spring2025_pa.Base.Int.{
  ℤ, pos, pos_part, neg_part, ltb_ℤ, difference, ◌-ℤ◌, ◌<ℤ◌, ◌≤ℤ◌, is_int,
}
use cs660_spring2025_pa.Double.{Double}
use cs660_spring2025_pa.ColumnStats.{ColumnStats, sub_int, height, sum_list, bucket_of, add_value}

-- What is used of IEEE 754: the quotient of an `int` that is not negative by an `unsigned` number,
-- both exact as `double`s, is cut to the quotient of the integers.
pub record IsExact (fp : Double) : Type 0 where
  pub to_size-div :
      (a w : ℕ)
      → a < 2 ^ 31
      → 0 < w
      → w < 2 ^ 32
      → fp.to_size (fp.div (fp.of_int (pos a)) (fp.of_size w)) ≡ a / w

-- The buckets cover the range, and the counts add up to the total, both modulo 2^32.
pub record IsValid (fp : Double) (s : ColumnStats) : Type 0 where
  pub range : ℕ
  pub spans : s.max -ℤ s.min ≡ pos range
  pub small : range < 2 ^ 31
  pub width : ℕ
  pub is_width : s.bucket_width ≡ fp.of_size width
  pub positive : 0 < width
  pub fits : width < 2 ^ 32
  pub covers : range ≤ s.buckets * width
  pub size : length s.histogram ≡ s.buckets
  pub counted : sum_list s.histogram % 2 ^ 32 ≡ s.total_count

pub difference-eq-pos : (p n r : ℕ) → difference p n ≡ pos r → p ≡ n + r
difference-eq-pos p n r h =
    let low : pos_part (difference p n) ≡ r = ap pos_part h in
    let no_sign : neg_part (difference p n) ≡ 0 = ap neg_part h in ground arith

difference_of_le : (p n : ℕ) → n ≤ p → difference p n ≡ pos (p - n)
difference_of_le p n h = ground arith

div-lt : (d w b : ℕ) → 0 < w → d < b * w → d / w < b
div-lt d w b h lt = elim (dec_lt (d / w) b) [
  | yes below ↦ below
  | no ge ↦
      let floor : d / w * w ≤ d = div-mul-le_self d w in
      let more : b * w ≤ d / w * w = mul-le b (d / w) w (omega arith) in absurd (omega arith)
]
  where
    mul-le : (a b w : ℕ) → a ≤ b → a * w ≤ b * w
    mul-le a b w h = grind arith

-- The distance of a value in the range from its start.
pub offset_lem :
    (min max v : ℤ) (range : ℕ)
    → max -ℤ min ≡ pos range
    → ltb_ℤ v min ≡ false
    → ltb_ℤ v max ≡ true
    → (d : ℕ) × (v -ℤ min ≡ pos d) × (d < range)
offset_lem min max v range spans low high =
    let whole =
      difference-eq-pos (pos_part max + neg_part min) (neg_part max + pos_part min) range spans in
    let above : neg_part v + pos_part min ≤ pos_part v + neg_part min = ground arith in
    let below : pos_part v + neg_part max < pos_part max + neg_part v = ground arith in
    (
      pos_part v + neg_part min - (neg_part v + pos_part min),
      difference_of_le (pos_part v + neg_part min) (neg_part v + pos_part min) above,
      omega arith,
    )

sum_list-set :
    (xs : List ℕ) (i n m : ℕ)
    → get_elem? xs i ≡ some n
    → sum_list (set xs i m) + n ≡ sum_list xs + m
unfolding sum_list
sum_list-set [] i n m h = ground arith
sum_list-set (x ∷ xs) zero n m h = let same : x ≡ n = ground arith in omega arith
sum_list-set (x ∷ xs) (suc i) n m h = omega (arith, sum_list-set xs i n m h)

module _ (fp : Double) (exact : IsExact fp) (s : ColumnStats) (valid : IsValid fp s) (v : ℤ) where
  -- What `addValue` does to a value in the range: the count of its bucket and the total grow.
  pub record Counted (s' : ColumnStats) : Type 0 where
    pub offset : ℕ
    pub is_offset : v -ℤ s.min ≡ pos offset
    pub inside : offset / valid.width < s.buckets
    pub count : ℕ
    pub had : get_elem? s.histogram (offset / valid.width) ≡ some count
    pub histogram : s'.histogram ≡ set s.histogram (offset / valid.width) (suc count % 2 ^ 32)
    pub total : s'.total_count ≡ suc s.total_count % 2 ^ 32

  pub bucket_of_lem :
      {S : Type 0} (st : S) (d : ℕ)
      → v -ℤ s.min ≡ pos d
      → d < 2 ^ 31
      → bucket_of fp s v st ≡ ok (d / valid.width) st
  unfolding bucket_of sub_int
  bucket_of_lem st d h small =
      let fits : is_int (pos d) ≡ true = ground arith in
      let cut = exact.to_size-div d valid.width small valid.positive valid.fits in
      rw (h, fits, ◌>>=◌, valid.is_width, cut)

  abbrev counted_stats : ℕ → ℕ → ColumnStats
  counted_stats bucket n = record s {
    histogram = set s.histogram bucket (suc n % 2 ^ 32);
    total_count = suc s.total_count % 2 ^ 32;
  }

  counted_stats-IsValid :
      (bucket n : ℕ) → get_elem? s.histogram bucket ≡ some n → IsValid fp (counted_stats bucket n)
  counted_stats-IsValid bucket n h = record {
    range = valid.range;
    spans = valid.spans;
    small = valid.small;
    width = valid.width;
    is_width = valid.is_width;
    positive = valid.positive;
    fits = valid.fits;
    covers = valid.covers;
    size = length-set s.histogram bucket (suc n % 2 ^ 32) ∙ valid.size;
    counted = omega (arith, sum_list-set s.histogram bucket n (suc n % 2 ^ 32) h, valid.counted);
  }

  count_lem :
      ltb_ℤ v s.min ≡ false
      → ltb_ℤ v s.max ≡ true
      → (s' : ColumnStats) × (add_value fp v s ≡ ok tt s') × IsValid fp s' × Counted s'
  unfolding add_value height
  count_lem not_low in_range =
      let (d, offset, below) = offset_lem s.min s.max v valid.range valid.spans not_low in_range in
      let bucket : ℕ = d / valid.width in
      let inside : bucket < s.buckets =
        div-lt d valid.width s.buckets valid.positive (omega (arith, valid.covers)) in
      let (n, had) = get_elem?_of_lt s.histogram bucket (omega (arith, valid.size)) in
      (
        counted_stats bucket n,
        rw (◌>>=◌, not_low, in_range, bucket_of_lem s d offset (omega (arith, valid.small)), had),
        counted_stats-IsValid bucket n had,
        record {
          offset = d;
          is_offset = offset;
          inside = inside;
          count = n;
          had = had;
          histogram = refl;
          total = refl;
        },
      )

  -- `addValue` on a valid histogram returns, and leaves it valid: a value outside of the range
  -- changes nothing, and for one in the range the count of its bucket, which is in the histogram,
  -- and the total have grown by one, modulo 2^32.
  pub add_value-IsValid :
      (s' : ColumnStats) × (add_value fp v s ≡ ok tt s')
      × IsValid fp s'
      × ((((v <ℤ s.min) ⊎ (s.max ≤ℤ v)) × (s' ≡ s)) ⊎ Counted s')
  unfolding add_value
  add_value-IsValid = elim (Bool-cases (ltb_ℤ v s.min)) [
    | inl low ↦ (s, rw (◌>>=◌, low), valid, inl (inl (ground arith), refl))
    | inr not_low ↦ elim (Bool-cases (ltb_ℤ v s.max)) [
      | inr high ↦ (s, rw (◌>>=◌, not_low, high), valid, inl (inr (ground arith), refl))
      | inl in_range ↦
          let (s', run, valid', counted) = count_lem not_low in_range in
          (s', run, valid', inr counted)
    ]
  ]
