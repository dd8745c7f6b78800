-- ===== src/Metrics/Counter.antt =====
-- metrics/src/counter.rs: a counter of 64 bits. Each operation is one atomic step, which gives back the
-- counter behind it, and the old value where the code does.
use hamerkop.Base.{ℕ, ◌+◌, ◌%◌, ◌^◌}

abbrev pub Counter : Type 0
Counter = ℕ

abbrev pub with_value : ℕ → Counter
with_value n = n

abbrev pub new : Counter
new = with_value 0

abbrev pub add : Counter → ℕ → Counter
add counter n = (counter + n) % 2 ^ 64

abbrev pub increment : Counter → Counter
increment counter = add counter 1

abbrev pub value : Counter → ℕ
value counter = counter

abbrev pub set : Counter → ℕ → ℕ × Counter
set counter n = (counter, n)

abbrev pub reset : Counter → ℕ × Counter
reset counter = set counter 0
