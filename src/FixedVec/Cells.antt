-- ===== src/FixedVec/Cells.antt =====
-- `Box<[MaybeUninit<T>]>` and the raw pointer operations on it: a cell holds a value or nothing that
-- may be read, and an access out of the allocation is undefined.
use hamerkop.Base.{
  ℕ, zero, suc, ◌+◌, Option, none, some, List, [], ◌∷◌, ◌++◌, ltb, leb, ◌&&◌, if◌then◌else◌, length,
  get_elem?, set, take, drop, Outcome, done, undefined, ◌>>=◌, raw_read,
}

abbrev pub Cells : Type 0 → Type 0
Cells A = List (Option A)

module _ {A : Type 0} where
  -- `ptr::read(ptr.add(i))`, also where the value is dropped in place
  unfoldable pub read_cell : Cells A → ℕ → Outcome A
  read_cell cells i = elim (get_elem? cells i) [ none ↦ undefined | some c ↦ raw_read c ]

  -- `ptr::write(ptr.add(i), v)`
  unfoldable pub write_cell : Cells A → ℕ → A → Outcome (Cells A)
  write_cell cells i v = if ltb i (length cells) then done (set cells i (some v)) else undefined

  -- the cells from `i` on, `n` of them, read in order
  unfoldable pub read_range : Cells A → ℕ → ℕ → Outcome (List A)
  read_range cells i zero = done []
  read_range cells i (suc n) =
      let rest = read_range cells (i + 1) n in
      read_cell cells i >>= λ a. rest >>= λ later. done (a ∷ later)

  -- `ptr::copy(ptr.add(from), ptr.add(to), n)`
  unfoldable pub copy_within : Cells A → ℕ → ℕ → ℕ → Outcome (Cells A)
  copy_within cells from to n =
      if leb (from + n) (length cells) && leb (to + n) (length cells)
      then done (take to cells ++ (take n (drop from cells) ++ drop (to + n) cells))
      else undefined

  -- `ptr::copy_nonoverlapping(src.add(from), dst.add(to), n)` between two allocations
  unfoldable pub copy_between : Cells A → Cells A → ℕ → ℕ → ℕ → Outcome (Cells A)
  copy_between src dst from to n =
      if leb (from + n) (length src) && leb (to + n) (length dst)
      then done (take to dst ++ (take n (drop from src) ++ drop (to + n) dst))
      else undefined

  -- `ptr::swap(ptr.add(i), ptr.add(j))` of two values
  unfoldable pub swap_cells : Cells A → ℕ → ℕ → Outcome (Cells A)
  swap_cells cells i j = elim (get_elem? cells i) [
    | none ↦ undefined
    | some a ↦ elim (get_elem? cells j) [
      | none ↦ undefined
      | some b ↦ done (set (set cells i b) j a)
    ]
  ]
