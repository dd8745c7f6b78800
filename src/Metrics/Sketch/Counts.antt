-- ===== src/Metrics/Sketch/Counts.antt =====
-- metrics/src/ddsketch.rs: the buckets count the samples.
use hamerkop.Base.{
  ℕ, zero, suc, ◌+◌, ◌^◌, ◌%◌, ◌≤◌, ◌<◌, ◌≡◌, refl, ap, ◌∙◌, min, max, true, false, some, List, [],
  ◌∷◌, ◌==◌, leb, if◌then◌else◌, length, get_elem?, set, take, done, arith, get_elem?_of_lt,
  length-set, Bool-cases, inl, inr,
}
use hamerkop.Metrics.Sketch.{
  DdSketch, u64_max, saturating_add, num_buckets, index_of, insert_n, find_bucket, zip_add, merge,
}

unfoldable pub sum : List ℕ → ℕ
sum [] = 0
sum (b ∷ bs) = b + sum bs

-- The count is that of all the buckets, and has not saturated.
pub record Counts (s : DdSketch) : Type 0 where
  pub total : s.count ≡ sum s.buckets
  pub fits : s.count < 2 ^ 64

sum-set : (bs : List ℕ) (i b n : ℕ) → get_elem? bs i ≡ some b → sum (set bs i (b + n)) ≡ sum bs + n
unfolding sum
sum-set [] i b n h = absurd (cc)
sum-set (x ∷ bs) zero b n h = let e : x ≡ b = cc in omega arith
sum-set (x ∷ bs) (suc i) b n h = omega (arith, sum-set bs i b n h)

le-sum : (bs : List ℕ) (i b : ℕ) → get_elem? bs i ≡ some b → b ≤ sum bs
unfolding sum
le-sum [] i b h = absurd (cc)
le-sum (x ∷ bs) zero b h = let e : x ≡ b = cc in omega arith
le-sum (x ∷ bs) (suc i) b h = omega (arith, le-sum bs i b h)

-- Where the value has a bucket and the count does not reach `2 ^ 64`, `insert_n` adds to the count as much as to the sum of
-- the buckets, and the extremes cover the value.
pub insert_n_lem :
    (log_bucket : ℕ → ℕ) (s : DdSketch) (value n : ℕ)
    → Counts s
    → index_of log_bucket s value < num_buckets s
    → s.count + n < 2 ^ 64
    → (after : DdSketch) × (insert_n log_bucket s value n ≡ done after)
      × Counts after
      × (after.count ≡ s.count + n)
      × (num_buckets after ≡ num_buckets s)
      × (after.min_value ≤ value)
      × (value ≤ after.max_value)
unfolding insert_n num_buckets saturating_add
insert_n_lem log_bucket s value n counts inside few =
    let i = index_of log_bucket s value in
    let (b, at) = get_elem?_of_lt s.buckets i inside in
    let low = le-sum s.buckets i b at in
    let plain : min (b + n) u64_max ≡ (b + n) = omega (arith, counts.total, few) in
    let after = record s {
      max_value = max s.max_value value;
      min_value = min s.min_value value;
      count = s.count + n;
      buckets = set s.buckets i (b + n);
    } in
    let counted : min (s.count + n) u64_max ≡ (s.count + n) = omega (arith, few) in
    (
      after,
      rw (at, plain, counted, insert_n) refl,
      record { total = omega (arith, counts.total, sum-set s.buckets i b n at); fits = few },
      refl,
      length-set s.buckets i (b + n),
      omega arith,
      omega arith,
    )

sum-zip_add :
    (xs ys : List ℕ)
    → length xs ≡ length ys
    → sum xs + sum ys < 2 ^ 64
    → sum (zip_add xs ys) ≡ sum xs + sum ys
unfolding sum
sum-zip_add [] [] h few = refl
sum-zip_add [] (y ∷ ys) h few = absurd (omega arith)
sum-zip_add (x ∷ xs) [] h few = absurd (omega arith)
sum-zip_add (x ∷ xs) (y ∷ ys) h few = omega (arith, sum-zip_add xs ys (omega arith) (omega arith))

-- For sketches with as many buckets whose counts together do not reach `2 ^ 64`, `merge` gives a sketch that counts the
-- samples of both.
pub merge_lem :
    (s other : DdSketch)
    → Counts s
    → Counts other
    → num_buckets s ≡ num_buckets other
    → s.count + other.count < 2 ^ 64
    → (after : DdSketch) × (merge s other ≡ done after)
      × Counts after
      × (after.count ≡ s.count + other.count)
unfolding merge saturating_add num_buckets
merge_lem s other counts counts' same few =
    let ok : (length s.buckets == length other.buckets) ≡ true = ground (arith, same) in
    let counted : min (s.count + other.count) u64_max ≡ (s.count + other.count) =
      omega (arith, few) in
    let both =
      sum-zip_add s.buckets other.buckets same (omega (arith, counts.total, counts'.total, few)) in
    (
      record s {
        buckets = zip_add s.buckets other.buckets;
        count = s.count + other.count;
        min_value = min s.min_value other.min_value;
        max_value = max s.max_value other.max_value;
      },
      rw (ok, counted, merge) refl,
      record { total = omega (arith, both, counts.total, counts'.total); fits = few },
      refl,
    )

find_bucket_past :
    (rank total index b running : ℕ) (bs : List ℕ)
    → ((total + b) % 2 ^ 64) ≡ running
    → leb ((total + b) % 2 ^ 64) rank ≡ true
    → find_bucket rank total index (b ∷ bs) ≡ find_bucket rank running (index + 1) bs
unfolding find_bucket
find_bucket_past rank total index b running bs plain past =
    ap (λ t. if t then find_bucket rank ((total + b) % 2 ^ 64) (index + 1) bs else some index) past
    ∙ ap (λ r. find_bucket rank r (index + 1) bs) plain

find_bucket_here :
    (rank total index b : ℕ) (bs : List ℕ)
    → leb ((total + b) % 2 ^ 64) rank ≡ false
    → find_bucket rank total index (b ∷ bs) ≡ some index
unfolding find_bucket
find_bucket_here rank total index b bs here =
    ap (λ t. if t then find_bucket rank ((total + b) % 2 ^ 64) (index + 1) bs else some index) here

find_bucket_at :
    (rank total index : ℕ) (bs : List ℕ)
    → total + sum bs < 2 ^ 64
    → total ≤ rank
    → rank < total + sum bs
    → (i : ℕ) × (find_bucket rank total index bs ≡ some (index + i))
      × (total + sum (take i bs) ≤ rank)
      × (rank < total + sum (take (suc i) bs))
unfolding sum
find_bucket_at rank total index [] few le lt = absurd (omega arith)
find_bucket_at rank total index (b ∷ bs) few le lt =
    elim (Bool-cases (leb ((total + b) % 2 ^ 64) rank)) [
      | inl past ↦
          let plain : ((total + b) % 2 ^ 64) ≡ (total + b) = omega (arith, few) in
          let below : total + b ≤ rank = ground (arith, past, plain) in
          let (i, e, lo, hi) =
            find_bucket_at rank (total + b) (index + 1) bs (omega arith) below (omega arith) in
          (
            suc i,
            find_bucket_past rank total index b (total + b) bs plain past
                ∙ e
                ∙ ap some {x = index + 1 + i} {y = index + suc i} (omega arith),
            omega (arith, lo),
            omega (arith, hi),
          )
      | inr here ↦
          let plain : ((total + b) % 2 ^ 64) ≡ (total + b) = omega (arith, few) in
          let above : rank < total + b = ground (arith, here, plain) in
          (
            0,
            find_bucket_here rank total index b bs here
                ∙ ap some {x = index} {y = index + 0} (omega arith),
            omega arith,
            omega (arith, above),
          )
    ]

-- For a rank below the count, the search of `quantile` finds the bucket that holds the sample of that rank: the samples
-- in the buckets before it are at most the rank, those up to it more.
pub find_bucket_lem :
    (s : DdSketch) (rank : ℕ)
    → Counts s
    → rank < s.count
    → (i : ℕ) × (find_bucket rank 0 0 s.buckets ≡ some i)
      × (sum (take i s.buckets) ≤ rank)
      × (rank < sum (take (suc i) s.buckets))
find_bucket_lem s rank counts less =
    let (i, e, lo, hi) =
      find_bucket_at rank 0 0 s.buckets (omega (arith, counts.total, counts.fits)) (omega arith)
        (omega (arith, counts.total, less)) in
    (i, e ∙ ap some {x = 0 + i} {y = i} (omega arith), omega (arith, lo), omega (arith, hi))
