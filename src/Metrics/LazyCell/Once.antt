-- ===== src/Metrics/LazyCell/Once.antt =====
-- metrics/src/lazy_cell.rs: the calls of `get` and `force` in any order of their steps, from a new cell on.
use mathlib.Core.Path.{subst}
use native.Mathlib.Decide.{ℕ_discrete}
use hamerkop.Base.{
  ℕ, zero, suc, ◌≤◌, ◌≡◌, sym, ap, ◌∙◌, ◌≢◌, inl, inr, ◌==◌, Bool, if◌then◌else◌, Option, some,
  arith,
}
use hamerkop.Metrics.LazyCell.{
  LazyCell, Call, step_call, uninit, init_in_progress, calling, poisoning, publishing, writing,
  returned, absent, panicked, unreachable, undefined_read,
}
use hamerkop.Metrics.LazyCell.Calls.{
  Knows, Owns, rank, rank-step_call, step_call-Owns, step_call_unowned,
}
use hamerkop.Metrics.LazyCell.Sharing.{
  Shared, Reach, here, next, advance, start, IsShared, start-IsShared, advance-IsShared,
  update_self, dec_Owns,
}

module _ {T : Type 0} where
  -- neither an `unreachable!()` nor a read of memory that holds no value
  abbrev pub IsDefined : Call T → Type 0
  IsDefined unreachable = ⊥
  IsDefined undefined_read = ⊥
  IsDefined _ = Unit

  -- The call has returned, with a value or with `None`, or has panicked.
  abbrev pub IsEnded : Call T → Type 0
  IsEnded (returned v) = Unit
  IsEnded absent = Unit
  IsEnded panicked = Unit
  IsEnded _ = ⊥

  pub Reach-IsShared : {s t : Shared T} → IsShared s → Reach s t → IsShared t
  Reach-IsShared ok here = ok
  Reach-IsShared ok (next i result r) = advance-IsShared _ i result (Reach-IsShared ok r)

  Reach_trans : {s t u : Shared T} → Reach s t → Reach t u → Reach s u
  Reach_trans r here = r
  Reach_trans r (next i result q) = next i result (Reach_trans r q)

  Knows-IsDefined : (cell : LazyCell T) (call : Call T) → Knows cell call → IsDefined call
  Knows-IsDefined cell unreachable knows = knows
  Knows-IsDefined cell undefined_read knows = knows
  Knows-IsDefined cell _ knows = tt

  -- Whatever the function does and in whatever order any number of calls of `get` and `force` on a new cell take their
  -- steps: the function is moved out of the cell at most once, and only after the cell has left UNINIT, at most one
  -- call is between its exchange and its last store, and no call reaches an `unreachable!()` or reads memory that
  -- holds no value.
  pub Reach-moved :
      (is_force : ℕ → Bool) (s : Shared T)
      → Reach (start is_force) s
      → (s.cell.moved ≡ (if s.cell.state == uninit then 0 else 1))
        × ((i j : ℕ) → Owns (s.calls i) → Owns (s.calls j) → i ≡ j)
        × ((i : ℕ) → IsDefined (s.calls i))
  Reach-moved is_force s r =
      let ok = Reach-IsShared (start-IsShared is_force) r in
      (ok.is_cell.1, ok.apart, λ i. Knows-IsDefined s.cell (s.calls i) (ok.knows i))

  -- In whatever order the steps are taken, two calls that return a value return the same one, the one in the cell.
  pub Reach-returned :
      (is_force : ℕ → Bool) (s : Shared T) (i j : ℕ) (v w : T)
      → Reach (start is_force) s
      → s.calls i ≡ returned v
      → s.calls j ≡ returned w
      → (v ≡ w) × (s.cell.value ≡ some v)
  Reach-returned is_force s i j v w r hv hw =
      let ok = Reach-IsShared (start-IsShared is_force) r in
      let first : Knows s.cell (returned v) = subst (Knows s.cell) hv (ok.knows i) in
      let second : Knows s.cell (returned w) = subst (Knows s.cell) hw (ok.knows j) in
      let same : some v ≡ some w = sym first.1 ∙ second.1 in (cc, first.1)

  -- A call that no other holds up is not held up after its step.
  advance_free :
      (s : Shared T) (i : ℕ) (result : Option T)
      → IsShared s
      → (s.cell.state ≡ init_in_progress → Owns (s.calls i))
      → (advance i result s).cell.state ≡ init_in_progress
      → Owns (step_call result s.cell (s.calls i)).1
  unfolding advance
  advance_free s i result ok free h = elim (dec_Owns (s.calls i)) [
    | inl owns ↦ step_call-Owns result s.cell (s.calls i) owns h
    | inr none_own ↦ elim (step_call_unowned result s.cell (s.calls i) ok.is_cell none_own) [
      | inl (_, owns) ↦ owns
      | inr (same, _) ↦ absurd (none_own (free (ap (λ c. c.state) (sym same) ∙ h)))
    ]
  ]

  advance_self :
      (s : Shared T) (i : ℕ) (result : Option T)
      → (advance i result s).calls i ≡ (step_call result s.cell (s.calls i)).1
  unfolding advance
  advance_self s i result = update_self s.calls i _

  Finishes : ℕ → Option T → Shared T → Type 0
  Finishes i result s =
      (t : Shared T) × Reach s t
      × (t.cell.state ≡ init_in_progress → Owns (t.calls i))
      × (rank (t.calls i) ≡ 0)

  -- A call that no other holds up comes to its end by its own steps.
  finish :
      (n : ℕ) (result : Option T) (s : Shared T) (i : ℕ)
      → IsShared s
      → (s.cell.state ≡ init_in_progress → Owns (s.calls i))
      → rank (s.calls i) ≤ n
      → Finishes i result s
  unfolding Finishes
  finish zero result s i ok free le = (s, here, free, omega arith)
  finish (suc n) result s i ok free le = elim (ℕ_discrete (rank (s.calls i)) 0) [
    | yes none_left ↦ (s, here, free, omega arith)
    | no some_left ↦
        let after = advance i result s in
        let fewer : rank (after.calls i) ≤ n =
          rw (advance_self s i result) omega
            (arith, rank-step_call result s.cell (s.calls i) ok.is_cell free (omega arith)) in
        let still : after.cell.state ≡ init_in_progress → Owns (after.calls i) =
          rw (advance_self s i result) (advance_free s i result ok free) in
        let rest = finish n result after i (advance-IsShared s i result ok) still fewer in
        (rest.0, Reach_trans (next i result here) rest.1, rest.2, rest.3)
  ]

  rank-IsEnded :
      (cell : LazyCell T) (call : Call T) → Knows cell call → rank call ≡ 0 → IsEnded call
  rank-IsEnded cell (returned v) knows h = tt
  rank-IsEnded cell absent knows h = tt
  rank-IsEnded cell panicked knows h = tt
  rank-IsEnded cell unreachable knows h = knows
  rank-IsEnded cell undefined_read knows h = knows
  rank-IsEnded cell _ knows h = absurd (omega arith)

  rank-Owns : (call : Call T) → rank call ≡ 0 → ¬ Owns call
  rank-Owns calling h owns = omega arith
  rank-Owns poisoning h owns = omega arith
  rank-Owns publishing h owns = omega arith
  rank-Owns (writing v) h owns = omega arith
  rank-Owns _ h owns = owns

  -- The cell can be brought out of INIT_IN_PROGRESS.
  released :
      (s : Shared T) (result : Option T)
      → IsShared s
      → (t : Shared T) × Reach s t × (t.cell.state ≢ init_in_progress)
  unfolding Finishes
  released s result ok = elim (ℕ_discrete s.cell.state init_in_progress) [
    | yes busy ↦
        let held = ok.owner busy in
        let ends = finish (rank (s.calls held.0)) result s held.0 ok (λ h. held.1) (omega arith) in
        (ends.0, ends.1, λ h. rank-Owns (ends.0.calls held.0) ends.3 (ends.2 h))
    | no h ↦ (s, here, h)
  ]

  -- Where a call stands in the middle of its work, the calls can always be scheduled so that it ends: the one that
  -- initialises the cell first, then the call itself, where the function returns or panics when it is called. A function
  -- that runs for ever or forces the same cell is not covered.
  pub Reach-IsEnded :
      (is_force : ℕ → Bool) (s : Shared T) (i : ℕ) (result : Option T)
      → Reach (start is_force) s
      → (t : Shared T) × Reach s t × IsEnded (t.calls i)
  unfolding Finishes
  Reach-IsEnded is_force s i result r =
      let ok = Reach-IsShared (start-IsShared is_force) r in
      let free = released s result ok in
      let ok1 = Reach-IsShared ok free.1 in
      let ends =
        finish (rank (free.0.calls i)) result free.0 i ok1 (λ h. absurd (free.2 h)) (omega arith) in
      let ok2 = Reach-IsShared ok1 ends.1 in
      (
        ends.0,
        Reach_trans free.1 ends.1,
        rank-IsEnded ends.0.cell (ends.0.calls i) (ok2.knows i) ends.3,
      )
