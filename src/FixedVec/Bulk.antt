-- ===== src/FixedVec/Bulk.antt =====
-- `retain`, `append`, `extend_from_slice`, the `Extend` loops, `clone`, `clone_from` and `Write`.
-- Cloning an element gives an equal value.
use hamerkop.Base.{
  ℕ, zero, suc, ◌+◌, Bool, true, none, some, List, [], ◌∷◌, map, min, ltb, ◌==◌, if◌then◌else◌,
  length, take, Outcome, done, ◌>>=◌, not,
}
use hamerkop.FixedVec.Cells.{
  Cells, read_cell, write_cell, read_range, copy_within, copy_between, swap_cells,
}
use hamerkop.FixedVec.Ops.{
  FixedVec, sub_usize, add_usize, with_capacity, capacity, len, available, truncate, clear, push,
}

module _ {A : Type 0} where
  -- the loop of `retain`, `n` rounds from index `i`; `self[i]` is in bounds while `i < len`
  unfoldable pub retain_from : (A → Bool) → Cells A → ℕ → ℕ → ℕ → Outcome (ℕ × Cells A)
  retain_from f cells i j zero = done (j, cells)
  retain_from f cells i j (suc n) = read_cell cells i >>= λ a.
      let kept = swap_cells cells i j >>= λ swapped. retain_from f swapped (i + 1) (j + 1) n in
      let dropped = retain_from f cells (i + 1) j n in if f a then kept else dropped

  unfoldable pub retain : Bool → (A → Bool) → FixedVec A → Outcome (List A × FixedVec A)
  retain drops f v =
      retain_from f v.cells 0 0 (len v) >>= λ r. truncate drops (record v { cells = r.1 }) r.0

  -- Removes the first `count` elements.
  unfoldable pub excise_front : FixedVec A → ℕ → Outcome (FixedVec A)
  excise_front v count = copy_within v.cells count 0 count >>= λ cells.
      done (record { cells = cells; size = sub_usize (len v) count })

  -- `append` returns both vectors.
  unfoldable pub append : FixedVec A → FixedVec A → Outcome (FixedVec A × FixedVec A)
  append v other =
      let amount = min (available v) (len other) in
      copy_between other.cells v.cells 0 (len v) amount >>= λ cells.
      excise_front other amount >>= λ other'.
      done (record { cells = cells; size = add_usize (len v) amount }, other')

  -- the element-wise loop of `extend_from_slice`
  unfoldable pub write_each : FixedVec A → List A → Outcome (FixedVec A)
  write_each v [] = done v
  write_each v (x ∷ xs) = write_cell v.cells (len v) x >>= λ cells.
      write_each (record { cells = cells; size = add_usize v.size 1 }) xs

  -- `is_copy` chooses between one copy and the loop; the count of the elements taken is returned.
  unfoldable pub extend_from_slice : Bool → FixedVec A → List A → Outcome (ℕ × FixedVec A)
  extend_from_slice is_copy v slice =
      let other = take (min (available v) (length slice)) slice in
      if is_copy
      then (copy_between (map some other) v.cells 0 (len v) (length other) >>= λ cells.
          done (length other, record { cells = cells; size = add_usize (len v) (length other) }))
      else (write_each v other >>= λ v'. done (length other, v'))

  -- `Extend::extend`; the iterator is the list of what it yields, and what it keeps is returned.
  unfoldable pub extend : FixedVec A → List A → Outcome (List A × FixedVec A)
  extend v [] = done ([], v)
  extend v (x ∷ xs) =
      if ltb 0 (available v)
      then (push v x >>= λ r. elim (r.0) [ none ↦ extend r.1 xs | some _ ↦ Outcome.panics ])
      else done (x ∷ xs, v)

  -- `Extend<&T>`: each element is cloned, which gives the element
  unfoldable pub extend_cloned : FixedVec A → List A → Outcome (List A × FixedVec A)
  extend_cloned v xs = extend v xs

  -- `deref`: the slice of the elements
  unfoldable pub as_slice : FixedVec A → Outcome (List A)
  as_slice v = read_range v.cells 0 (len v)

  unfoldable pub clone : Bool → FixedVec A → Outcome (FixedVec A)
  clone is_copy v = as_slice v >>= λ slice.
      extend_from_slice is_copy (with_capacity (capacity v)) slice >>= λ r. done r.1

  -- What was dropped stands beside the vector; a replaced vector drops its elements.
  unfoldable pub clone_from : Bool → Bool → FixedVec A → FixedVec A → Outcome (List A × FixedVec A)
  clone_from drops is_copy v source =
      if capacity v == capacity source
      then (clear drops v >>= λ c.
          as_slice source >>= λ slice. extend_from_slice is_copy c.1 slice >>= λ r. done (c.0, r.1))
      else (clone is_copy source >>= λ new. clear drops v >>= λ c. done (c.0, new))

-- `io::Write` on bytes, which are `Copy`. `write` never fails.
unfoldable pub write : FixedVec ℕ → List ℕ → Outcome (ℕ × FixedVec ℕ)
write v buf =
    let remaining = sub_usize (capacity v) (len v) in
    if remaining == 0
    then done (0, v)
    else let slice = take (min (length buf) remaining) buf in
      extend_from_slice true v slice >>= λ r. done (length slice, r.1)

-- the loop over the buffers, with the total so far
unfoldable pub write_bufs : FixedVec ℕ → List (List ℕ) → ℕ → Outcome (ℕ × FixedVec ℕ)
write_bufs v [] total = done (total, v)
write_bufs v (buf ∷ bufs) total = write v buf >>= λ r.
    let rest = write_bufs r.1 bufs (add_usize total r.0) in
    if not (r.0 == length buf) then done (add_usize total r.0, r.1) else rest

unfoldable pub write_vectored : FixedVec ℕ → List (List ℕ) → Outcome (ℕ × FixedVec ℕ)
write_vectored v bufs = write_bufs v bufs 0

-- `true` is `Ok(())`, `false` the error `WriteZero`.
unfoldable pub write_all : FixedVec ℕ → List ℕ → Outcome (Bool × FixedVec ℕ)
write_all v buf = write v buf >>= λ r. done (r.0 == length buf, r.1)
