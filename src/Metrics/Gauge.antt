-- ===== src/Metrics/Gauge.antt =====
-- metrics/src/gauge.rs: a gauge of 64 bits, a signed number by its bit pattern. Each operation is one
-- atomic step, which gives back the gauge behind it, and the old value where the code does.
use hamerkop.Base.{ℕ, ◌+◌, ◌-◌, ◌%◌, ◌^◌, ◌≡◌, List, [], ◌∷◌, arith}

abbrev pub Gauge : Type 0
Gauge = ℕ

abbrev pub new : Gauge
new = 0

abbrev pub add : Gauge → ℕ → Gauge
add gauge n = (gauge + n) % 2 ^ 64

abbrev pub sub : Gauge → ℕ → Gauge
sub gauge n = (gauge + (2 ^ 64 - n % 2 ^ 64)) % 2 ^ 64

abbrev pub increment : Gauge → Gauge
increment gauge = add gauge 1

abbrev pub decrement : Gauge → Gauge
decrement gauge = sub gauge 1

abbrev pub value : Gauge → ℕ
value gauge = gauge

abbrev pub set : Gauge → ℕ → ℕ × Gauge
set gauge n = (gauge, n)

abbrev pub reset : Gauge → ℕ × Gauge
reset gauge = set gauge 0

-- an update of one thread
pub data Update : Type 0 where
  added subtracted : ℕ → Update

abbrev pub update : Gauge → Update → Gauge
update gauge (added n) = add gauge n
update gauge (subtracted n) = sub gauge n

-- the updates of any number of threads, in the order in which they took place
abbrev pub run : Gauge → List Update → Gauge
run gauge [] = gauge
run gauge (u ∷ us) = run (update gauge u) us

abbrev pub added_by : List Update → ℕ
added_by [] = 0
added_by (added n ∷ us) = n + added_by us
added_by (subtracted n ∷ us) = added_by us

abbrev pub subtracted_by : List Update → ℕ
subtracted_by [] = 0
subtracted_by (added n ∷ us) = subtracted_by us
subtracted_by (subtracted n ∷ us) = n + subtracted_by us

-- In whatever order updates take place, the gauge ends at what it was, with all that was added and
-- less all that was subtracted, modulo `2 ^ 64`.
pub run_lem :
    (gauge : Gauge) (us : List Update)
    → (run gauge us + subtracted_by us) % 2 ^ 64 ≡ (gauge + added_by us) % 2 ^ 64
run_lem gauge [] = omega arith
run_lem gauge (added n ∷ us) = omega (arith, run_lem (add gauge n) us)
run_lem gauge (subtracted n ∷ us) = omega (arith, run_lem (sub gauge n) us)
