-- ===== src/Metrics/Tests.antt =====
-- The theorems on the metrics at concrete calls.
use hamerkop.Base.{
  ℕ, ◌+◌, ◌≡◌, refl, Bool, ◌||◌, ◌==◌, if◌then◌else◌, none, some, done, arith, suc, ◌≤◌, ◌<◌, take,
  [], ◌∷◌, List,
}
use hamerkop.Metrics.Sketch.{DdSketch, index_of, num_buckets, insert_n, find_bucket}
use hamerkop.Metrics.Sketch.Counts.{Counts, sum, insert_n_lem, find_bucket_lem}
use hamerkop.Metrics.LazyCell.{
  LazyCell, Dropped, new, step_call, on_state, drop_cell, uninit, init, returned,
}
use hamerkop.Metrics.LazyCell.Calls.{IsCell, Owns}
use hamerkop.Metrics.LazyCell.Sharing.{Shared, Reach, here, next, advance, start, update}
use hamerkop.Metrics.LazyCell.Once.{IsDefined, IsEnded, Reach-moved, Reach-returned, Reach-IsEnded}
use hamerkop.Metrics.LazyCell.Alone.{functions, value_of, Reach-drop_cell}
use hamerkop.Metrics.Registry.{Declaration, name, other, metric, declared, metric_lem}

-- Call 0 is of `force`, call 1 too, and all others are of `get`.
abbrev is_force : ℕ → Bool
is_force i = (i == 0) || (i == 1)

-- call 0 wins the exchange while call 1 has loaded the state, and then has run to its end
abbrev both_started : Shared ℕ
both_started = advance 0 none (advance 1 none (advance 0 none (start is_force)))

both_started-Reach : Reach (start is_force) both_started
both_started-Reach = next 0 none (next 1 none (next 0 none here))

abbrev ended : Shared ℕ
ended = advance 1 none (
    advance 1 none (
      advance 1 none
        (advance 0 none (advance 0 none (advance 0 none (advance 0 (some 8) both_started))))))

ended-Reach : Reach (start is_force) ended
ended-Reach = next 1 none (
    next 1 none
      (next 1 none (next 0 none (next 0 none (next 0 none (next 0 (some 8) both_started-Reach))))))

Reach-moved_example :
    (both_started.cell.moved ≡ (if both_started.cell.state == uninit then 0 else 1))
    × ((i j : ℕ) → Owns (both_started.calls i) → Owns (both_started.calls j) → i ≡ j)
    × ((i : ℕ) → IsDefined (both_started.calls i))
Reach-moved_example = Reach-moved is_force both_started both_started-Reach

first_returned : ended.calls 0 ≡ returned 8
unfolding advance start update step_call on_state
first_returned = refl

second_returned : ended.calls 1 ≡ returned 8
unfolding advance start update step_call on_state
second_returned = refl

abbrev eight : ℕ
eight = 8

Reach-returned_example : (eight ≡ eight) × (ended.cell.value ≡ some 8)
Reach-returned_example =
    Reach-returned is_force ended 0 1 8 8 ended-Reach first_returned second_returned

Reach-IsEnded_example : (t : Shared ℕ) × Reach both_started t × IsEnded (t.calls 1)
Reach-IsEnded_example = Reach-IsEnded is_force both_started 1 (some 8) both_started-Reach

abbrev filled : LazyCell ℕ
filled = record { state = init; value = some 8; moved = 1 }

filled-IsCell : IsCell filled
filled-IsCell = (omega arith, refl, λ h. (8, refl))

new-IsCell : IsCell (new {T = ℕ})
new-IsCell = (omega arith, refl, λ h. absurd (omega arith))

Reach-drop_cell_example :
    (d : Dropped ℕ) × (drop_cell ended.cell ≡ done d)
    × ((ended.cell.moved + functions d) ≡ 1)
    × (value_of d ≡ (if ended.cell.state == init then ended.cell.value else none))
Reach-drop_cell_example = Reach-drop_cell is_force ended ended-Reach

-- a sketch of four buckets that has three samples
abbrev samples : DdSketch
samples = record {
  buckets = 1 ∷ 0 ∷ 2 ∷ 0 ∷ [];
  cutoff = 3;
  count = 3;
  limit = 100;
  min_value = 0;
  max_value = 2;
}

samples-Counts : Counts samples
unfolding sum
samples-Counts = record { total = refl; fits = omega arith }

abbrev log_bucket : ℕ → ℕ
log_bucket x = 2

has_bucket : index_of log_bucket samples 7 < num_buckets samples
unfolding index_of num_buckets
has_bucket = omega arith

insert_n_lem_example :
    (after : DdSketch) × (insert_n log_bucket samples 7 2 ≡ done after)
    × Counts after
    × (after.count ≡ samples.count + 2)
    × (num_buckets after ≡ num_buckets samples)
    × (after.min_value ≤ 7)
    × (7 ≤ after.max_value)
insert_n_lem_example = insert_n_lem log_bucket samples 7 2 samples-Counts has_bucket (omega arith)

find_bucket_lem_example :
    (i : ℕ) × (find_bucket 1 0 0 samples.buckets ≡ some i)
    × (sum (take i samples.buckets) ≤ 1)
    × (1 < sum (take (suc i) samples.buckets))
find_bucket_lem_example = find_bucket_lem samples 1 samples-Counts (omega arith)

-- a documented metric with a name, and one without
abbrev two_metrics : List Declaration
two_metrics =
    record { attributes = other "doc" ∷ name "my-counter" ∷ []; path = "metrics::custom::METRIC" }
    ∷ record { attributes = other "doc" ∷ []; path = "metrics::custom::OTHER" }
    ∷ []

metric_lem_example : metric 0 two_metrics ≡ done (declared 0 two_metrics)
metric_lem_example = metric_lem 0 two_metrics
