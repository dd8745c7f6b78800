-- ===== src/Uring/Submission/Space.antt =====
-- How many entries are free, by the free-running counters of the ring.
use mathlib.Core.Path.{subst}
use Prim.Native.Nat.{◌∣◌}
use hamerkop.Base.{
  ℕ, suc, ◌+◌, ◌-◌, ◌*◌, ◌%◌, ◌^◌, ◌≤◌, ◌<◌, ◌≡◌, sym, ◌∙◌, ap, inl, inr, true, false, ◌==◌,
  bit_and, arith,
}
use hamerkop.Base.Bits.{bit_and_mask, pow_two_pos, mod_small, mod_once, mod_of_parts, pow_two_add}
use hamerkop.Uring.RingBuf.Window.{narrow_pow, le_or_lt}
use hamerkop.Uring.Submission.{wrapping_dist}
use native.Mathlib.Nat.{dvd-mul_left, mod-mod_of_dvd, add-mod_right, mod-add-mod}

-- the number of rings in the range of the counters
pub rounds : (k : ℕ) → k < 32 → 2 ^ (32 - k) * 2 ^ k ≡ 2 ^ 32
rounds k narrow = pow_two_add (32 - k) k ∙ ap (λ j. 2 ^ j) {x = 32 - k + k} {y = 32} (omega arith)

pub counter_mod : (k x : ℕ) → k < 32 → x % 2 ^ 32 % 2 ^ k ≡ x % 2 ^ k
counter_mod k x narrow =
    mod-mod_of_dvd (2 ^ k) x
      (subst (λ m. 2 ^ k ∣ m) (rounds k narrow) (dvd-mul_left (2 ^ k) (2 ^ (32 - k))))

suc_times : (r p : ℕ) → suc r * p ≡ r * p + p
suc_times r p = grind arith

distance : (q p h n : ℕ) → 1 ≤ q → h < p → 1 ≤ n → n < p → (h + q * p - (h + n) % p) % p ≡ p - n
distance q p h n some_rounds low pending few = elim (le_or_lt p (h + n)) [
  | inl wraps ↦
      let w = mod_once (h + n) p wraps (omega arith) in
      ap (λ x. x % p) {x = h + q * p - (h + n) % p} {y = q * p + (p - n)} (omega (arith, w))
      ∙ mod_of_parts q p (p - n) (omega arith)
  | inr below ↦
      let w = mod_small (h + n) p below in
      let one_less : q * p ≡ (q - 1) * p + p =
        ap (λ m. m * p) {x = q} {y = suc (q - 1)} (omega arith) ∙ suc_times (q - 1) p in
      ap (λ x. x % p) {x = h + q * p - (h + n) % p} {y = (q - 1) * p + (p - n)}
        (omega (arith, w, one_less))
      ∙ mod_of_parts (q - 1) p (p - n) (omega arith)
]

moved : (p h n : ℕ) → h < p → 1 ≤ n → n < p → (h == (h + n) % p) ≡ false
moved p h n low pending few = elim (le_or_lt p (h + n)) [
  | inl wraps ↦ ground (arith, mod_once (h + n) p wraps (omega arith))
  | inr below ↦ ground (arith, mod_small (h + n) p below)
]

-- For a ring of `2 ^ k` entries, `k < 32`, and a tail less than `2 ^ k` ahead of the head modulo `2
-- ^ 32`, `wrapping_dist` is the rest of the ring.
pub wrapping_dist_lem :
    (k head n : ℕ)
    → k < 32
    → n < 2 ^ k
    → wrapping_dist head ((head + n) % 2 ^ 32) (2 ^ k - 1) ≡ 2 ^ k - n
unfolding wrapping_dist
wrapping_dist_lem k head n narrow few =
    let p = 2 ^ k in
    let one : 1 ≤ p = pow_two_pos k in
    let small : p ≤ 2 ^ 31 = narrow_pow k narrow in
    let a : bit_and head (p - 1) ≡ head % p = bit_and_mask k head in
    let b : bit_and ((head + n) % 2 ^ 32) (p - 1) ≡ (head % p + n) % p =
      bit_and_mask k ((head + n) % 2 ^ 32)
      ∙ counter_mod k (head + n) narrow
      ∙ sym (mod-add-mod head p n) in
    let low : head % p < p = omega (arith, one) in
    elim (le_or_lt 1 n) [
      | inl pending ↦
          let apart = moved p (head % p) n low pending few in
          let all : head % p + 2 ^ 32 - (head % p + n) % p
              ≡ head % p + 2 ^ (32 - k) * p - (head % p + n) % p =
            ap (λ m. head % p + m - (head % p + n) % p) (sym (rounds k narrow)) in
          rw (wrapping_dist, a, b, apart)
            (bit_and_mask k _
              ∙ counter_mod k _ narrow
              ∙ ap (λ x. x % p) all
              ∙ distance (2 ^ (32 - k)) p (head % p) n (pow_two_pos (32 - k)) low pending few)
      | inr none_pending ↦
          let same : (head % p == (head % p + n) % p) ≡ true =
            ground (arith, mod_small (head % p + n) p (omega (arith, low, none_pending))) in
          rw (wrapping_dist, a, b, same) (omega (arith, small, one, none_pending))
    ]

-- When the ring is full, `wrapping_dist` is the size of the ring, not 0.
pub wrapping_dist_full :
    (k head : ℕ) → k < 32 → wrapping_dist head ((head + 2 ^ k) % 2 ^ 32) (2 ^ k - 1) ≡ 2 ^ k
unfolding wrapping_dist
wrapping_dist_full k head narrow =
    let p = 2 ^ k in
    let one : 1 ≤ p = pow_two_pos k in
    let small : p ≤ 2 ^ 31 = narrow_pow k narrow in
    let a : bit_and head (p - 1) ≡ head % p = bit_and_mask k head in
    let b : bit_and ((head + p) % 2 ^ 32) (p - 1) ≡ head % p =
      bit_and_mask k ((head + p) % 2 ^ 32)
      ∙ counter_mod k (head + p) narrow
      ∙ add-mod_right head p in
    let same : (head % p == head % p) ≡ true = ground arith in
    rw (wrapping_dist, a, b, same) (omega (arith, small, one))
