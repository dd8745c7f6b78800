-- ===== src/FixedVec/Ops.antt =====
-- Construction, size, `push`, `pop`, `insert`, `remove`, `swap_remove`, `truncate`, `clear` and the
-- `resize`s. `drops` tells whether the element type has a destructor (`mem::needs_drop`); a call
-- that drops values returns them, in the order of their drops.
use hamerkop.Base.{
  ℕ, zero, suc, ◌+◌, ◌-◌, ◌%◌, Bool, Option, none, some, List, [], ltb, leb, ◌==◌, if◌then◌else◌,
  length, replicate, usize_mod, Outcome, done, ◌>>=◌, ◌>>◌, assert, unwrap,
}
use hamerkop.FixedVec.Cells.{read_cell, write_cell, read_range, copy_within, swap_cells}

pub record FixedVec (A : Type 0) : Type 0 where
  pub cells : List (Option A)
  pub size : ℕ

-- `usize` subtraction
abbrev pub sub_usize : ℕ → ℕ → ℕ
sub_usize a b = (a + usize_mod - b) % usize_mod

abbrev pub add_usize : ℕ → ℕ → ℕ
add_usize a b = (a + b) % usize_mod

module _ {A : Type 0} where
  unfoldable pub with_capacity : ℕ → FixedVec A
  with_capacity capacity = record { cells = replicate capacity none; size = 0 }

  abbrev pub capacity : FixedVec A → ℕ
  capacity v = length v.cells

  abbrev pub len : FixedVec A → ℕ
  len v = v.size

  unfoldable pub is_empty : FixedVec A → Bool
  is_empty v = len v == 0

  unfoldable pub available : FixedVec A → ℕ
  available v = sub_usize (capacity v) (len v)

  unfoldable pub set_len : FixedVec A → ℕ → FixedVec A
  set_len v n = record v { size = n }

  -- `drop_in_place` over a range of cells
  unfoldable pub drop_range : Bool → FixedVec A → ℕ → ℕ → Outcome (List A)
  drop_range drops v from n = if drops then read_range v.cells from n else done []

  unfoldable pub truncate : Bool → FixedVec A → ℕ → Outcome (List A × FixedVec A)
  truncate drops v n =
      if leb (len v) n
      then done ([], v)
      else (drop_range drops v n (len v - n) >>= λ dropped. done (dropped, set_len v n))

  unfoldable pub clear : Bool → FixedVec A → Outcome (List A × FixedVec A)
  clear drops v = drop_range drops v 0 (len v) >>= λ dropped. done (dropped, set_len v 0)

  -- `Err(value)` is `some value`.
  unfoldable pub push : FixedVec A → A → Outcome (Option A × FixedVec A)
  push v value =
      if available v == 0
      then done (some value, v)
      else (write_cell v.cells (len v) value >>= λ cells.
          done (none, record { cells = cells; size = add_usize v.size 1 }))

  unfoldable pub pop : FixedVec A → Outcome (Option A × FixedVec A)
  pop v =
      if is_empty v
      then done (none, v)
      else (read_cell v.cells (sub_usize v.size 1) >>= λ value.
          done (some value, record v { size = sub_usize v.size 1 }))

  -- the exchange of `swap_remove`: the last element with the one at `index`
  unfoldable pub swap_last : FixedVec A → ℕ → Outcome (FixedVec A)
  swap_last v index =
      if ltb (add_usize index 1) (len v)
      then (swap_cells v.cells (len v - 1) index >>= λ cells. done (record v { cells = cells }))
      else done v

  unfoldable pub swap_remove : FixedVec A → ℕ → Outcome (A × FixedVec A)
  swap_remove v index =
      assert (ltb index (len v))
      >> (swap_last v index >>= λ v'. pop v' >>= λ r. unwrap r.0 >>= λ value. done (value, r.1))

  unfoldable pub insert : FixedVec A → ℕ → A → Outcome (FixedVec A)
  insert v index element =
      assert (leb index (len v))
      >> (assert (ltb 0 (available v))
          >> (copy_within v.cells index (index + 1) (sub_usize (len v) index) >>= λ moved.
              write_cell moved index element >>= λ cells.
              done (record { cells = cells; size = add_usize (len v) 1 })))

  unfoldable pub remove : FixedVec A → ℕ → Outcome (A × FixedVec A)
  remove v index =
      assert (ltb index (len v))
      >> (read_cell v.cells index >>= λ value.
          copy_within v.cells (index + 1) index (sub_usize (sub_usize (len v) index) 1) >>= λ cells.
          done (value, record { cells = cells; size = sub_usize (len v) 1 }))

  -- `resize_with`'s loop, `n` rounds from index `i`; the closure is a step on its captured state.
  unfoldable pub fill_from :
      {S : Type 0} → (S → A × S) → S → FixedVec A → ℕ → ℕ → Outcome (S × FixedVec A)
  fill_from f s v i zero = done (s, v)
  fill_from f s v i (suc n) =
      let (a, s') = f s in
      write_cell v.cells i a >>= λ cells.
      fill_from f s' (record { cells = cells; size = add_usize v.size 1 }) (i + 1) n

  -- The values are those that were dropped, the closure's last state and the vector.
  unfoldable pub resize_with :
      {S : Type 0} → Bool → (S → A × S) → S → FixedVec A → ℕ → Outcome (List A × S × FixedVec A)
  resize_with drops f s v new_len =
      if leb new_len (len v)
      then (truncate drops v new_len >>= λ r. done (r.0, s, r.1))
      else (assert (leb new_len (capacity v))
          >> (fill_from f s v (len v) (new_len - len v) >>= λ r. done ([], r.0, r.1)))

  -- `value.clone()` gives an equal value.
  unfoldable pub resize : Bool → FixedVec A → ℕ → A → Outcome (List A × FixedVec A)
  resize drops v new_len value =
      resize_with drops (λ (s : Unit {0}). (value, s)) tt v new_len >>= λ r. done (r.0, r.2)
