-- ===== src/Metrics/LazyCell/Alone.antt =====
-- metrics/src/lazy_cell.rs: the calls that have the cell to themselves, `force_mut`, `into_inner` and `drop`.
use hamerkop.Base.{
  ℕ, zero, suc, ◌+◌, ◌≡◌, refl, ◌≢◌, ◌==◌, Bool, if◌then◌else◌, Option, none, some, Outcome, done,
  undefined, arith,
}
use hamerkop.Metrics.LazyCell.{
  LazyCell, Call, Dropped, step_call, alone, init_mut, force_mut, into_inner, drop_cell, on_state,
  init_in_progress, init, force_load, returned, panicked, function, nothing, inner,
}
use hamerkop.Metrics.LazyCell.Calls.{IsCell}
use hamerkop.Metrics.LazyCell.Sharing.{Shared, Reach, start, start-IsShared}
use hamerkop.Metrics.LazyCell.Once.{Reach-IsShared}

module _ {T : Type 0} where
  -- How a call of `force` that has ended reads as the result of `force_mut`.
  abbrev pub ends_as : LazyCell T × Call T → Outcome (LazyCell T × Option T)
  ends_as (cell, returned v) = done (cell, some v)
  ends_as (cell, panicked) = done (cell, none)
  ends_as (cell, _) = undefined

  force_mut_at :
      (result : Option T) (state : ℕ) (value : Option T) (moved : ℕ)
      → let cell : LazyCell T = record { state = state; value = value; moved = moved } in
        IsCell cell
        → state ≢ init_in_progress
        → force_mut result cell ≡ ends_as (alone 6 result cell force_load)
  unfolding force_mut init_mut alone step_call on_state
  force_mut_at none zero value moved ok free = refl
  force_mut_at (some v) zero value moved ok free = refl
  force_mut_at result (suc zero) value moved ok free = absurd (free refl)
  force_mut_at result (suc (suc zero)) none moved ok free = let held = (ok.2 refl).1 in absurd (cc)
  force_mut_at result (suc (suc zero)) (some v) moved ok free = refl
  force_mut_at result (suc (suc (suc zero))) value moved ok free = refl
  force_mut_at result (suc (suc (suc (suc n)))) value moved ok free = absurd (omega arith)

  -- On a cell between two calls, `force_mut` leaves the same cell and gives the same result as the six steps of
  -- `force` with no other call in between, whether the cell is new, initialised or poisoned and whether the function
  -- returns or panics.
  pub force_mut_lem :
      (result : Option T) (cell : LazyCell T)
      → IsCell cell
      → cell.state ≢ init_in_progress
      → force_mut result cell ≡ ends_as (alone 6 result cell force_load)
  force_mut_lem result cell ok free = force_mut_at result cell.state cell.value cell.moved ok free

  -- how often dropping the cell drops the function, and the value that it drops
  abbrev pub functions : Dropped T → ℕ
  functions function = 1
  functions nothing = 0
  functions (inner v) = 0

  abbrev pub value_of : Dropped T → Option T
  value_of (inner v) = some v
  value_of _ = none

  drop_at :
      (state : ℕ) (value : Option T) (moved : ℕ)
      → let cell : LazyCell T = record { state = state; value = value; moved = moved } in
        IsCell cell
        → (d : Dropped T) × (drop_cell cell ≡ done d)
          × ((moved + functions d) ≡ 1)
          × (value_of d ≡ (if state == init then value else none))
  unfolding drop_cell
  drop_at zero value moved ok = (function, refl, omega arith, refl)
  drop_at (suc zero) value moved ok = (nothing, refl, omega arith, refl)
  drop_at (suc (suc zero)) none moved ok = let held = (ok.2 refl).1 in absurd (cc)
  drop_at (suc (suc zero)) (some v) moved ok = (inner v, refl, omega arith, refl)
  drop_at (suc (suc (suc zero))) value moved ok = (nothing, refl, omega arith, refl)
  drop_at (suc (suc (suc (suc n)))) value moved ok = absurd (omega arith)

  -- After any steps of any calls of `get` and `force` on a new cell, dropping the cell is defined; in all the function
  -- has been moved out or is dropped exactly once; and the value is dropped just when the state is INIT.
  pub Reach-drop_cell :
      (is_force : ℕ → Bool) (s : Shared T)
      → Reach (start is_force) s
      → (d : Dropped T) × (drop_cell s.cell ≡ done d)
        × ((s.cell.moved + functions d) ≡ 1)
        × (value_of d ≡ (if s.cell.state == init then s.cell.value else none))
  Reach-drop_cell is_force s r =
      drop_at s.cell.state s.cell.value s.cell.moved
        (Reach-IsShared (start-IsShared is_force) r).is_cell

  into_inner_at :
      (state : ℕ) (value : Option T) (moved : ℕ)
      → let cell : LazyCell T = record { state = state; value = value; moved = moved } in
        IsCell cell
        → (after : LazyCell T) × (out : Option T) × (d : Dropped T) × (into_inner cell
            ≡ done (after, out))
          × (drop_cell after ≡ done d)
          × (out ≡ (if state == init then value else none))
          × (value_of d ≡ none)
          × ((moved + functions d) ≡ 1)
  unfolding into_inner drop_cell
  into_inner_at zero value moved ok = (_, none, function, refl, refl, refl, refl, omega arith)
  into_inner_at (suc zero) value moved ok = (_, none, nothing, refl, refl, refl, refl, omega arith)
  into_inner_at (suc (suc zero)) none moved ok = let held = (ok.2 refl).1 in absurd (cc)
  into_inner_at (suc (suc zero)) (some v) moved ok =
      (_, some v, nothing, refl, refl, refl, refl, omega arith)
  into_inner_at (suc (suc (suc zero))) value moved ok =
      (_, none, nothing, refl, refl, refl, refl, omega arith)
  into_inner_at (suc (suc (suc (suc n)))) value moved ok = absurd (omega arith)

  -- On a cell between two calls, `into_inner` and the drop of the cell that ends it: the value is given out just when
  -- the state is INIT, the drop does not drop it a second time, and the function is moved out or dropped exactly once.
  pub into_inner_lem :
      (cell : LazyCell T)
      → IsCell cell
      → (after : LazyCell T) × (out : Option T) × (d : Dropped T) × (into_inner cell
          ≡ done (after, out))
        × (drop_cell after ≡ done d)
        × (out ≡ (if cell.state == init then cell.value else none))
        × (value_of d ≡ none)
        × ((cell.moved + functions d) ≡ 1)
  into_inner_lem cell ok = into_inner_at cell.state cell.value cell.moved ok
