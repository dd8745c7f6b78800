-- ===== src/Uring/RingBuf.antt =====
-- uring/src/ringbuf.rs: a window of a ring of `2 ^ k` cells. `RingBuf` and `RingBufMut` wrap the same
-- structure and have the same operations; a reference to an element is the element.
pub mod Window
use hamerkop.Base.{
  ℕ, ◌+◌, ◌-◌, ◌%◌, Bool, Option, none, some, List, [], ◌++◌, ltb, leb, ◌==◌, if◌then◌else◌, length,
  get_elem?, take, drop, usize_mod, bit_and, Outcome, done, panics, ◌>>=◌, ◌>>◌, assert, unwrap,
  raw_read,
}

-- `data` is the memory behind the pointer.
pub record RingBuf (A : Type 0) : Type 0 where
  pub memory : List A
  pub offset : ℕ
  pub mask : ℕ
  pub size : ℕ

module _ {A : Type 0} where
  unfoldable pub new_common : List A → ℕ → ℕ → ℕ → Outcome (RingBuf A)
  new_common memory offset size mask =
      assert (leb size ((mask + 1) % usize_mod))
      >> done (record { memory = memory; offset = offset; mask = mask; size = size })

  unfoldable pub new : List A → ℕ → ℕ → ℕ → Outcome (RingBuf A)
  new memory offset size mask =
      assert (bit_and mask ((mask + 1) % usize_mod) == 0) >> new_common memory offset size mask

  unfoldable pub len : RingBuf A → ℕ
  len r = r.size

  unfoldable pub get_unchecked : RingBuf A → ℕ → Outcome A
  get_unchecked r index =
      raw_read (get_elem? r.memory (bit_and ((r.offset + index) % usize_mod) r.mask))

  unfoldable pub get : RingBuf A → ℕ → Outcome (Option A)
  get r index =
      if leb (len r) index then done none else (get_unchecked r index >>= λ a. done (some a))

  unfoldable pub index : RingBuf A → ℕ → Outcome A
  index r i = get r i >>= unwrap

  -- the slice `mask + 1` long behind the pointer
  unfoldable pub backing : RingBuf A → List A
  backing r = take ((r.mask + 1) % usize_mod) r.memory

  -- `&slice[a..b]`
  unfoldable pub slice_range : List A → ℕ → ℕ → Outcome (List A)
  slice_range s a b =
      if ltb b a
      then panics
      else if ltb (length s) b
      then panics
      else done (take (b - a) (drop a s))

  -- `slice.split_at(n)`
  unfoldable pub split_at : List A → ℕ → Outcome (List A × List A)
  split_at s n = if ltb (length s) n then panics else done (take n s, drop n s)

  -- the elements that the iterator yields
  unfoldable pub into_iter : RingBuf A → Outcome (List A)
  into_iter r =
      let slice = backing r in
      let end = (r.offset + r.size) % usize_mod in
      if bit_and end r.mask == end
      then slice_range slice r.offset end
      else (split_at slice r.offset >>= λ halves.
          slice_range halves.0 0 (bit_and end r.mask) >>= λ slice2. done (halves.1 ++ slice2))
