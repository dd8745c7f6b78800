-- ===== src/Metrics/LazyCell/Calls.antt =====
-- metrics/src/lazy_cell.rs: one step of a call of `get` or `force`, and what it leaves to the others.
use hamerkop.Base.{
  ℕ, zero, suc, ◌+◌, ◌≤◌, ◌<◌, ◌≡◌, refl, ◌≢◌, ◌⊎◌, inl, inr, ◌==◌, true, false, if◌then◌else◌,
  Option, none, some, arith,
}
use hamerkop.Metrics.LazyCell.{
  LazyCell, Call, on_state, step_call, uninit, init_in_progress, init, poisoned, get_load,
  force_load, exchange, calling, poisoning, publishing, spinning, reading, writing, returned,
  absent, panicked, unreachable, undefined_read,
}

module _ {T : Type 0} where
  -- what a call knows of the cell where it stands
  abbrev pub Knows : LazyCell T → Call T → Type 0
  Knows cell get_load = Unit
  Knows cell force_load = Unit
  Knows cell exchange = Unit
  Knows cell calling = cell.state ≡ init_in_progress
  Knows cell poisoning = cell.state ≡ init_in_progress
  Knows cell publishing = (cell.state ≡ init_in_progress) × (v : T) × (cell.value ≡ some v)
  Knows cell spinning = cell.state ≢ uninit
  Knows cell reading = cell.state ≡ init
  Knows cell (writing v) = cell.state ≡ init_in_progress
  Knows cell (returned v) = (cell.state ≡ init) × (cell.value ≡ some v)
  Knows cell absent = Unit
  Knows cell panicked = cell.state ≡ poisoned
  Knows cell unreachable = ⊥
  Knows cell undefined_read = ⊥

  -- the call that took the cell out of UNINIT and has not left it yet
  abbrev pub Owns : Call T → Type 0
  Owns calling = Unit
  Owns poisoning = Unit
  Owns publishing = Unit
  Owns (writing v) = Unit
  Owns _ = ⊥

  -- what holds of the cell between the steps
  abbrev pub IsCell : LazyCell T → Type 0
  IsCell cell =
      (cell.state ≤ 3)
      × (cell.moved ≡ (if cell.state == uninit then 0 else 1))
      × (cell.state ≡ init → (v : T) × (cell.value ≡ some v))

  -- What a `match` on the state takes, by the four states.
  on_state_cases :
      (n : ℕ) (a b : Call T) (P : Call T → Type 0)
      → n ≤ 3
      → (n ≡ uninit → P b)
      → (n ≡ init_in_progress → P a)
      → (n ≡ init → P reading)
      → (n ≡ poisoned → P panicked)
      → P (on_state n a b)
  unfolding on_state
  on_state_cases zero a b P le h0 h1 h2 h3 = h0 refl
  on_state_cases (suc zero) a b P le h0 h1 h2 h3 = h1 refl
  on_state_cases (suc (suc zero)) a b P le h0 h1 h2 h3 = h2 refl
  on_state_cases (suc (suc (suc zero))) a b P le h0 h1 h2 h3 = h3 refl
  on_state_cases (suc (suc (suc (suc n)))) a b P le h0 h1 h2 h3 = absurd (omega arith)

  exchange_cases :
      (result : Option T) (cell : LazyCell T) (P : LazyCell T × Call T → Type 0)
      → cell.state ≤ 3
      → (cell.state ≡ uninit
          → P (record cell { state = init_in_progress; moved = cell.moved + 1 }, calling))
      → (cell.state ≡ init_in_progress → P (cell, spinning))
      → (cell.state ≡ init → P (cell, reading))
      → (cell.state ≡ poisoned → P (cell, panicked))
      → P (step_call result cell exchange)
  unfolding step_call
  exchange_cases result cell P le h0 h1 h2 h3 =
      elim (cell.state == uninit)
          as (λ b.
            b ≡ (cell.state == uninit)
            → P (
                if b
                then (record cell { state = init_in_progress; moved = cell.moved + 1 }, calling)
                else (cell, on_state cell.state spinning unreachable))) [
                  | true ↦ λ e. h0 (ground arith)
                  | false ↦ λ e.
                      on_state_cases cell.state spinning unreachable (λ c. P (cell, c)) le
                        (λ h. absurd (ground arith)) h1 h2 h3
                ]
        refl

  read_lem :
      (cell : LazyCell T) (v : T)
      → cell.state ≡ init
      → cell.value ≡ some v
      → Knows cell (elim cell.value [ none ↦ undefined_read | some w ↦ returned w ])
  read_lem cell v at e = rw (e) (at, refl)

  pub step_call-Knows :
      (result : Option T) (cell : LazyCell T) (call : Call T)
      → IsCell cell
      → Knows cell call
      → let next = step_call result cell call in IsCell next.0 × Knows next.0 next.1
  unfolding step_call
  step_call-Knows result cell get_load ok knows = ground arith
  step_call-Knows result cell force_load ok knows = (
    ok,
    on_state_cases cell.state exchange exchange (Knows cell) ok.0 (λ h. tt) (λ h. tt) (λ h. h)
        (λ h. h),
  )
  step_call-Knows result cell exchange ok knows =
      exchange_cases result cell (λ next. IsCell next.0 × Knows next.0 next.1) ok.0
        (λ h. ground arith) (λ h. (ok, ground arith)) (λ h. (ok, h)) (λ h. (ok, h))
  step_call-Knows none cell calling ok knows = (ok, knows)
  step_call-Knows (some v) cell calling ok knows = (ok, knows)
  step_call-Knows result cell poisoning ok knows = ground arith
  step_call-Knows result cell (writing v) ok knows = ground arith
  step_call-Knows result cell publishing ok knows = ground arith
  step_call-Knows result cell spinning ok knows = (
    ok,
    on_state_cases cell.state spinning unreachable (Knows cell) ok.0 (λ h. absurd (knows h))
        (λ h. knows) (λ h. h) (λ h. h),
  )
  step_call-Knows result cell reading ok knows =
      let held = ok.2 knows in (ok, read_lem cell held.0 knows held.1)
  step_call-Knows result cell (returned v) ok knows = (ok, knows)
  step_call-Knows result cell absent ok knows = (ok, knows)
  step_call-Knows result cell panicked ok knows = (ok, knows)
  step_call-Knows result cell unreachable ok knows = (ok, knows)
  step_call-Knows result cell undefined_read ok knows = (ok, knows)

  pub Knows-Owns :
      (cell : LazyCell T) (call : Call T)
      → Knows cell call
      → Owns call
      → cell.state ≡ init_in_progress
  Knows-Owns cell calling knows owns = knows
  Knows-Owns cell poisoning knows owns = knows
  Knows-Owns cell publishing knows owns = knows.0
  Knows-Owns cell (writing v) knows owns = knows
  Knows-Owns cell _ knows owns = absurd (owns)

  -- What another call knows, other than the owner, outlives each change of the cell before it is initialised.
  Knows-other :
      (cell after : LazyCell T) (other : Call T)
      → cell.state ≤ 1
      → after.state ≢ uninit
      → ¬ Owns other
      → Knows cell other
      → Knows after other
  Knows-other cell after get_load le h free knows = tt
  Knows-other cell after force_load le h free knows = tt
  Knows-other cell after exchange le h free knows = tt
  Knows-other cell after absent le h free knows = tt
  Knows-other cell after spinning le h free knows = h
  Knows-other cell after calling le h free knows = absurd (free tt)
  Knows-other cell after poisoning le h free knows = absurd (free tt)
  Knows-other cell after publishing le h free knows = absurd (free tt)
  Knows-other cell after (writing v) le h free knows = absurd (free tt)
  Knows-other cell after reading le h free knows = absurd (omega arith)
  Knows-other cell after (returned v) le h free knows = absurd (omega arith)
  Knows-other cell after panicked le h free knows = absurd (omega arith)
  Knows-other cell after unreachable le h free knows = knows
  Knows-other cell after undefined_read le h free knows = knows

  pub step_call-other :
      (result : Option T) (cell : LazyCell T) (call other : Call T)
      → IsCell cell
      → Knows cell call
      → Knows cell other
      → (Owns call → Owns other → ⊥)
      → Knows (step_call result cell call).0 other
  unfolding step_call
  step_call-other result cell get_load other ok knows held apart = held
  step_call-other result cell force_load other ok knows held apart = held
  step_call-other result cell exchange other ok knows held apart =
      exchange_cases result cell (λ next. Knows next.0 other) ok.0
        (λ h.
          Knows-other cell (record cell { state = init_in_progress; moved = cell.moved + 1 }) other
            (omega arith) (omega arith) (λ owns. omega (arith, Knows-Owns cell other held owns))
            held)
        (λ h. held) (λ h. held) (λ h. held)
  step_call-other none cell calling other ok knows held apart = held
  step_call-other (some v) cell calling other ok knows held apart = held
  step_call-other result cell poisoning other ok knows held apart =
      Knows-other cell (record cell { state = poisoned }) other (omega arith) (omega arith)
        (apart tt) held
  step_call-other result cell (writing v) other ok knows held apart =
      Knows-other cell (record cell { value = some v }) other (omega arith) (omega arith) (apart tt)
        held
  step_call-other result cell publishing other ok knows held apart =
      Knows-other cell (record cell { state = init }) other (omega (arith, knows.0)) (omega arith)
        (apart tt) held
  step_call-other result cell spinning other ok knows held apart = held
  step_call-other result cell reading other ok knows held apart = held
  step_call-other result cell (returned v) other ok knows held apart = held
  step_call-other result cell absent other ok knows held apart = held
  step_call-other result cell panicked other ok knows held apart = held
  step_call-other result cell unreachable other ok knows held apart = held
  step_call-other result cell undefined_read other ok knows held apart = held

  -- A call that does not own the cell takes it from UNINIT, or changes nothing and owns nothing.
  pub step_call_unowned :
      (result : Option T) (cell : LazyCell T) (call : Call T)
      → IsCell cell
      → ¬ Owns call
      → let next = step_call result cell call in
        ((cell.state ≡ uninit) × Owns next.1) ⊎ ((next.0 ≡ cell) × ¬ Owns next.1)
  unfolding step_call
  step_call_unowned result cell get_load ok free = inr (refl, ground arith)
  step_call_unowned result cell force_load ok free = inr (
    refl,
    on_state_cases cell.state exchange exchange (λ c. ¬ Owns c) ok.0 (λ h. λ k. k) (λ h. λ k. k)
        (λ h. λ k. k) (λ h. λ k. k),
  )
  step_call_unowned result cell exchange ok free =
      exchange_cases result cell
        (λ next. ((cell.state ≡ uninit) × Owns next.1) ⊎ ((next.0 ≡ cell) × ¬ Owns next.1)) ok.0
        (λ h. inl (h, tt)) (λ h. inr (refl, λ k. k)) (λ h. inr (refl, λ k. k))
        (λ h. inr (refl, λ k. k))
  step_call_unowned none cell calling ok free = absurd (free tt)
  step_call_unowned (some v) cell calling ok free = absurd (free tt)
  step_call_unowned result cell poisoning ok free = absurd (free tt)
  step_call_unowned result cell (writing v) ok free = absurd (free tt)
  step_call_unowned result cell publishing ok free = absurd (free tt)
  step_call_unowned result cell spinning ok free = inr (
    refl,
    on_state_cases cell.state spinning unreachable (λ c. ¬ Owns c) ok.0 (λ h. λ k. k) (λ h. λ k. k)
        (λ h. λ k. k) (λ h. λ k. k),
  )
  step_call_unowned result cell reading ok free = inr (refl, ground arith)
  step_call_unowned result cell (returned v) ok free = inr (refl, free)
  step_call_unowned result cell absent ok free = inr (refl, free)
  step_call_unowned result cell panicked ok free = inr (refl, free)
  step_call_unowned result cell unreachable ok free = inr (refl, free)
  step_call_unowned result cell undefined_read ok free = inr (refl, free)

  -- The owner keeps the cell for as long as the state is INIT_IN_PROGRESS.
  pub step_call-Owns :
      (result : Option T) (cell : LazyCell T) (call : Call T)
      → Owns call
      → (step_call result cell call).0.state ≡ init_in_progress
      → Owns (step_call result cell call).1
  unfolding step_call
  step_call-Owns none cell calling owns h = tt
  step_call-Owns (some v) cell calling owns h = tt
  step_call-Owns result cell poisoning owns h = absurd (omega arith)
  step_call-Owns result cell (writing v) owns h = tt
  step_call-Owns result cell publishing owns h = absurd (omega arith)
  step_call-Owns result cell _ owns h = absurd owns

  -- how many more steps a call takes at most, unless it spins
  abbrev pub rank : Call T → ℕ
  rank get_load = 2
  rank force_load = 7
  rank exchange = 6
  rank calling = 5
  rank (writing v) = 4
  rank publishing = 3
  rank spinning = 2
  rank poisoning = 1
  rank reading = 1
  rank _ = 0

  -- Each step brings a call nearer to its end, except when it spins while another initialises the cell.
  pub rank-step_call :
      (result : Option T) (cell : LazyCell T) (call : Call T)
      → IsCell cell
      → (cell.state ≡ init_in_progress → Owns call)
      → 0 < rank call
      → rank (step_call result cell call).1 < rank call
  unfolding step_call
  rank-step_call result cell get_load ok free h = ground arith
  rank-step_call result cell force_load ok free h =
      on_state_cases cell.state exchange exchange (λ c. rank c < 7) ok.0 (λ h. omega arith)
        (λ h. omega arith) (λ h. omega arith) (λ h. omega arith)
  rank-step_call result cell exchange ok free h =
      exchange_cases result cell (λ next. rank next.1 < 6) ok.0 (λ h. omega arith)
        (λ h. omega arith) (λ h. omega arith) (λ h. omega arith)
  rank-step_call none cell calling ok free h = omega arith
  rank-step_call (some v) cell calling ok free h = omega arith
  rank-step_call result cell poisoning ok free h = omega arith
  rank-step_call result cell (writing v) ok free h = omega arith
  rank-step_call result cell publishing ok free h = omega arith
  rank-step_call result cell spinning ok free h =
      on_state_cases cell.state spinning unreachable (λ c. rank c < 2) ok.0 (λ h. omega arith)
        (λ h. absurd (free h)) (λ h. omega arith) (λ h. omega arith)
  rank-step_call result cell reading ok free h = ground arith
  rank-step_call result cell _ ok free h = absurd (omega arith)
