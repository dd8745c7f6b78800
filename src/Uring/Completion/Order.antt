-- ===== src/Uring/Completion/Order.antt =====
-- The completions that are seen, and in which order.
use hamerkop.Base.{
  ℕ, ◌+◌, ◌-◌, ◌*◌, ◌/◌, ◌%◌, ◌^◌, ◌≤◌, ◌<◌, ◌≡◌, ◌∙◌, ap, true, false, some, none, List,
  if◌then◌else◌, ◌==◌, bit_and, arith, sub32, ltb, leb, length, get_elem?, done, ◌>>=◌, usize_mod,
}
use hamerkop.Base.Bits.{bit_and_mask, bit_and_high, pow_two_pos}
use hamerkop.Uring.RingBuf.{RingBuf, new, new_common, into_iter}
use hamerkop.Uring.RingBuf.Window.{narrow_pow, IsRing, into_iter_lem}
use hamerkop.Uring.Completion.{
  CompletionQueue, CompletionQueueEvent, available, advance, has_next, flags_buf_id,
}
use native.Mathlib.Nat.{mod-add-mod}

-- A ring of `2 ^ k` entries of which the kernel filled `n`, by the free-running counters.
pub record IsFilled (k n : ℕ) (q : CompletionQueue) : Type 0 where
  pub narrow : k < 32
  pub mask_is : q.kring_mask ≡ 2 ^ k - 1
  pub cells_are : length q.cqes_memory ≡ 2 ^ k
  pub head_low : q.khead < 2 ^ 32
  pub filled : n ≤ 2 ^ k
  pub tail_is : q.ktail ≡ (q.khead + n) % 2 ^ 32

unfoldable pub filled_ring : ℕ → ℕ → CompletionQueue → RingBuf CompletionQueueEvent
filled_ring k n q = record {
  memory = q.cqes_memory;
  offset = q.khead % 2 ^ k;
  mask = q.kring_mask;
  size = n;
}

filled-IsRing : (k n : ℕ) (q : CompletionQueue) → IsFilled k n q → IsRing k (filled_ring k n q)
unfolding filled_ring
filled-IsRing k n q h = record {
  narrow = h.narrow;
  mask_is = h.mask_is;
  cells_are = h.cells_are;
  size_fits = h.filled;
}

pub available_ring :
    (k n : ℕ) (q : CompletionQueue) → IsFilled k n q → available q ≡ done (filled_ring k n q)
unfolding available new new_common filled_ring
available_ring k n q h =
    let one = pow_two_pos k in
    let small = narrow_pow k h.narrow in
    let size : sub32 q.ktail q.khead ≡ n = omega (arith, h.tail_is, h.head_low, h.filled, small) in
    let at : bit_and q.khead q.kring_mask ≡ q.khead % 2 ^ k =
      ap (λ m. bit_and q.khead m) h.mask_is ∙ bit_and_mask k q.khead in
    let m : (q.kring_mask + 1) % usize_mod ≡ 2 ^ k = omega (arith, h.mask_is, one, small) in
    let mask_ok : (bit_and q.kring_mask (2 ^ k) == 0) ≡ true =
      ap (λ t. t == 0) (bit_and_high k q.kring_mask (omega (arith, h.mask_is, one))) in
    let fits : leb n (2 ^ k) ≡ true = ground (arith, h.filled) in rw (size, at, m, mask_ok, fits)

-- With `n` entries filled, `available` yields them in the order in which the kernel counts them,
-- also where the counters or the ring wrap.
pub available_lem :
    (k n : ℕ) (q : CompletionQueue)
    → IsFilled k n q
    → (es : List CompletionQueueEvent) × ((available q >>= into_iter) ≡ done es)
      × (length es ≡ n)
      × ((i : ℕ) → i < n → get_elem? es i ≡ get_elem? q.cqes_memory ((q.khead + i) % 2 ^ k))
unfolding filled_ring
available_lem k n q h =
    let one = pow_two_pos k in
    let (es, e, l, at) =
      into_iter_lem k (filled_ring k n q) (filled-IsRing k n q h) (omega (arith, one)) in
    (
      es,
      rw (available_ring k n q h, e),
      l,
      λ i less. at i less ∙ ap (λ j. get_elem? q.cqes_memory j) (mod-add-mod q.khead (2 ^ k) i),
    )

-- `advance` by at most the number of filled entries gives the first of them back to the kernel and
-- keeps the others.
pub advance-IsFilled :
    (k n count : ℕ) (q : CompletionQueue)
    → IsFilled k n q
    → count ≤ n
    → IsFilled k (n - count) (advance q count)
unfolding advance
advance-IsFilled k n count q h le =
    let small = narrow_pow k h.narrow in
    record {
      narrow = h.narrow;
      mask_is = h.mask_is;
      cells_are = h.cells_are;
      head_low = omega arith;
      filled = omega (arith, h.filled);
      tail_is = omega (arith, h.tail_is, h.head_low, h.filled, small, le);
    }

-- While the head and the filled entries stay below `2 ^ 32`, `has_next` tells whether an entry is
-- filled.
pub has_next_lem :
    (k n : ℕ) (q : CompletionQueue) → IsFilled k n q → q.khead + n < 2 ^ 32 → has_next q ≡ ltb 0 n
unfolding has_next
has_next_lem k n q h low = ground (arith, h.tail_is, low)

-- Once the tail has wrapped past `2 ^ 32` and the head has not, `has_next` denies every filled
-- entry.
pub has_next_wraps :
    (k n : ℕ) (q : CompletionQueue) → IsFilled k n q → 2 ^ 32 ≤ q.khead + n → has_next q ≡ false
unfolding has_next
has_next_wraps k n q h past =
    let small = narrow_pow k h.narrow in
    ground (arith, h.tail_is, past, h.head_low, h.filled, small)

-- `buf_id` reads the number in the upper half of the flags exactly when the lowest bit marks a
-- buffer, for halves of 16 bits.
pub flags_buf_id_lem :
    (id rest : ℕ)
    → id < 2 ^ 16
    → rest < 2 ^ 16
    → flags_buf_id (id * 2 ^ 16 + rest) ≡ (if rest % 2 == 1 then some id else none)
unfolding flags_buf_id
flags_buf_id_lem id rest low lower =
    let bit : bit_and (id * 2 ^ 16 + rest) 1 ≡ rest % 2 =
      bit_and_mask 1 (id * 2 ^ 16 + rest) ∙ omega arith in
    let upper : (id * 2 ^ 16 + rest) / 2 ^ 16 % 2 ^ 16 ≡ id = omega (arith, low, lower) in
    rw (bit, upper)
