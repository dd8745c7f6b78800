-- ===== src/Metrics/Sketch.antt =====
-- metrics/src/ddsketch.rs: the sketch without its floating point numbers: `log_bucket x` is `(x as f64).log(gamma).ceil()`
-- as a `usize`, and the constructor's numbers of buckets are given. An atomic number is a number, and each operation
-- runs alone.
pub mod Counts
use hamerkop.Base.{
  ℕ, zero, suc, ◌+◌, ◌-◌, ◌^◌, ◌%◌, min, max, Bool, true, false, Option, none, some, List, [], ◌∷◌,
  ◌==◌, ltb, leb, if◌then◌else◌, length, get_elem?, set, take, replicate, Outcome, done, panics,
  ◌>>=◌, ◌>>◌, assert, unwrap,
}

abbrev pub u64_max : ℕ
u64_max = 2 ^ 64 - 1

pub record DdSketch : Type 0 where
  pub buckets : List ℕ
  pub cutoff : ℕ
  pub count : ℕ
  pub limit : ℕ
  pub min_value : ℕ
  pub max_value : ℕ

-- `with_limit` from the number of its buckets and the cutoff on
unfoldable pub with_buckets : ℕ → ℕ → ℕ → DdSketch
with_buckets num_buckets cutoff limit = record {
  buckets = replicate num_buckets 0;
  cutoff = cutoff;
  count = 0;
  limit = limit;
  min_value = u64_max;
  max_value = 0;
}

unfoldable pub saturating_add : ℕ → ℕ → ℕ
saturating_add ctr val = min (ctr + val) u64_max

unfoldable pub num_buckets : DdSketch → ℕ
num_buckets s = length s.buckets

unfoldable pub index_of : (ℕ → ℕ) → DdSketch → ℕ → ℕ
index_of log_bucket s value =
    if ltb s.limit value
    then length s.buckets - 1
    else if ltb value s.cutoff
    then value
    else log_bucket value + 1

unfoldable pub insert_n : (ℕ → ℕ) → DdSketch → ℕ → ℕ → Outcome DdSketch
insert_n log_bucket s value n =
    let index = index_of log_bucket s value in
    unwrap (get_elem? s.buckets index) >>= λ bucket. done (record s {
      max_value = max s.max_value value;
      min_value = min s.min_value value;
      count = saturating_add s.count n;
      buckets = set s.buckets index (saturating_add bucket n);
    })

unfoldable pub insert : (ℕ → ℕ) → DdSketch → ℕ → Outcome DdSketch
insert log_bucket s value = insert_n log_bucket s value 1

abbrev pub zeros : List ℕ → List ℕ
zeros [] = []
zeros (b ∷ bs) = 0 ∷ zeros bs

unfoldable pub clear : DdSketch → DdSketch
clear s = record s { min_value = u64_max; max_value = 0; count = 0; buckets = zeros s.buckets }

unfoldable pub too_high : DdSketch → Outcome ℕ
too_high s =
    if s.limit == u64_max then done 0 else unwrap (get_elem? s.buckets (length s.buckets - 1))

-- the search of `quantile`: the first bucket at which the running total exceeds the rank
unfoldable pub find_bucket : ℕ → ℕ → ℕ → List ℕ → Option ℕ
find_bucket rank total index [] = none
find_bucket rank total index (b ∷ bs) =
    let later = find_bucket rank ((total + b) % 2 ^ 64) (index + 1) bs in
    if leb ((total + b) % 2 ^ 64) rank then later else some index

abbrev pub zip_add : List ℕ → List ℕ → List ℕ
zip_add [] ys = []
zip_add (x ∷ xs) [] = x ∷ xs
zip_add (x ∷ xs) (y ∷ ys) = min (x + y) u64_max ∷ zip_add xs ys

unfoldable pub merge : DdSketch → DdSketch → Outcome DdSketch
merge s other =
    assert (num_buckets s == num_buckets other)
    >> done (record s {
      buckets = zip_add s.buckets other.buckets;
      count = saturating_add s.count other.count;
      min_value = min s.min_value other.min_value;
      max_value = max s.max_value other.max_value;
    })

abbrev pub wrapping_sum : List ℕ → ℕ
wrapping_sum [] = 0
wrapping_sum (b ∷ bs) = (b + wrapping_sum bs) % 2 ^ 64

-- The slice of the buckets before that of the value panics past the last one.
unfoldable pub rank : (ℕ → ℕ) → DdSketch → ℕ → Outcome ℕ
rank log_bucket s value =
    let index = index_of log_bucket s value in
    if ltb (length s.buckets) index then panics else done (wrapping_sum (take index s.buckets))
