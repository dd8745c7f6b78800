-- ===== src/Metrics/LazyCell.antt =====
-- metrics/src/lazy_cell.rs. The state is the byte of the atomic, the value is `none` while the memory holds none, and
-- `moved` counts how often the function was moved out of the cell. What the function does is chosen by the environment:
-- `some v` when it returns v, `none` when it panics. Each load, exchange or store of a call of `get` or `force` is one
-- step of that call; the calls that take `&mut self` or `self` run alone.
pub mod Calls
pub mod Sharing
pub mod Once
pub mod Alone
use hamerkop.Base.{
  ℕ, zero, suc, ◌+◌, ◌==◌, Bool, true, false, ◌||◌, if◌then◌else◌, Option, none, some, Outcome,
  done, panics, undefined, ◌>>=◌, assert, raw_read,
}

abbrev pub uninit : ℕ
uninit = 0

abbrev pub init_in_progress : ℕ
init_in_progress = 1

abbrev pub init : ℕ
init = 2

abbrev pub poisoned : ℕ
poisoned = 3

pub record LazyCell (T : Type 0) : Type 0 where
  pub state : ℕ
  pub value : Option T
  pub moved : ℕ

-- where a call stands: what it does next, or how it ended
pub data Call (T : Type 0) : Type 0 where
  get_load force_load exchange calling poisoning publishing spinning reading : Call T
  writing : T → Call T
  returned : T → Call T
  absent panicked unreachable undefined_read : Call T

-- what `drop` drops
pub data Dropped (T : Type 0) : Type 0 where
  function nothing : Dropped T
  inner : T → Dropped T

module _ {T : Type 0} where
  abbrev pub new : LazyCell T
  new = record { state = uninit; value = none; moved = 0 }

  -- the `match` of `force` and of `init` on a state that is loaded: the arms for INIT and POISONED, and the rest
  unfoldable pub on_state : ℕ → Call T → Call T → Call T
  on_state state in_progress at_uninit =
      if state == init
      then reading
      else if state == poisoned
      then panicked
      else if state == init_in_progress
      then in_progress
      else if state == uninit
      then at_uninit
      else unreachable

  unfoldable pub step_call : Option T → LazyCell T → Call T → LazyCell T × Call T
  step_call result cell get_load = (cell, if cell.state == init then reading else absent)
  step_call result cell force_load = (cell, on_state cell.state exchange exchange)
  step_call result cell exchange =
      if cell.state == uninit
      then (record cell { state = init_in_progress; moved = cell.moved + 1 }, calling)
      else (cell, on_state cell.state spinning unreachable)
  step_call none cell calling = (cell, poisoning)
  step_call (some v) cell calling = (cell, writing v)
  step_call result cell poisoning = (record cell { state = poisoned }, panicked)
  step_call result cell (writing v) = (record cell { value = some v }, publishing)
  step_call result cell publishing = (record cell { state = init }, reading)
  step_call result cell spinning = (cell, on_state cell.state spinning unreachable)
  step_call result cell reading =
      (cell, elim cell.value [ none ↦ undefined_read | some v ↦ returned v ])
  step_call result cell (returned v) = (cell, returned v)
  step_call result cell absent = (cell, absent)
  step_call result cell panicked = (cell, panicked)
  step_call result cell unreachable = (cell, unreachable)
  step_call result cell undefined_read = (cell, undefined_read)

  -- A call that runs alone, for as many steps as the fuel allows.
  unfoldable pub alone : ℕ → Option T → LazyCell T → Call T → LazyCell T × Call T
  alone zero result cell call = (cell, call)
  alone (suc fuel) result cell call =
      let next = step_call result cell call in alone fuel result next.0 next.1

  unfoldable pub get_mut : LazyCell T → Outcome (Option T)
  get_mut cell =
      if cell.state == init then (raw_read cell.value >>= λ v. done (some v)) else done none

  -- the cell that is left, and `none` when the call panics
  unfoldable pub init_mut : Option T → LazyCell T → Outcome (LazyCell T × Option T)
  init_mut result cell = assert (cell.state == uninit) >>= λ _. elim result [
    | none ↦ done (record cell { state = poisoned; moved = cell.moved + 1 }, none)
    | some v ↦ done (record cell { state = init; value = some v; moved = cell.moved + 1 }, some v)
  ]

  unfoldable pub force_mut : Option T → LazyCell T → Outcome (LazyCell T × Option T)
  force_mut result cell =
      if cell.state == init
      then (raw_read cell.value >>= λ v. done (cell, some v))
      else if cell.state == uninit
      then init_mut result cell
      else if cell.state == poisoned
      then done (cell, none)
      else panics

  unfoldable pub into_inner : LazyCell T → Outcome (LazyCell T × Option T)
  into_inner cell =
      if cell.state == init
      then (raw_read cell.value >>= λ v.
          done (record cell { state = poisoned; value = none }, some v))
      else done (cell, none)

  unfoldable pub drop_cell : LazyCell T → Outcome (Dropped T)
  drop_cell cell =
      if cell.state == uninit
      then done function
      else if cell.state == init
      then (raw_read cell.value >>= λ v. done (inner v))
      else done nothing
