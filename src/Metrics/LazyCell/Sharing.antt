-- ===== src/Metrics/LazyCell/Sharing.antt =====
-- metrics/src/lazy_cell.rs: any number of calls of `get` and `force`, and what holds of them all.
use native.Mathlib.Decide.{ℕ_discrete}
use hamerkop.Base.{
  ℕ, ◌≡◌, refl, sym, ap, ◌∙◌, ◌≢◌, ◌⊎◌, inl, inr, ◌==◌, Bool, true, false, if◌then◌else◌, Option,
  arith,
}
use hamerkop.Metrics.LazyCell.{
  LazyCell, Call, new, step_call, init_in_progress, get_load, force_load, calling, poisoning,
  publishing, writing,
}
use hamerkop.Metrics.LazyCell.Calls.{
  Knows, Owns, IsCell, Knows-Owns, step_call-other, step_call-Knows, step_call_unowned,
  step_call-Owns,
}

-- a cell that any number of calls share; each call has a number
pub record Shared (T : Type 0) : Type 0 where
  pub cell : LazyCell T
  pub calls : ℕ → Call T

start-Knows : (T : Type 0) (b : Bool) → Knows (new {T = T}) (if b then force_load else get_load)
start-Knows T true = tt
start-Knows T false = tt

start_unowned : (T : Type 0) (b : Bool) → ¬ Owns {T = T} (if b then force_load else get_load)
start_unowned T true = λ h. h
start_unowned T false = λ h. h

module _ {T : Type 0} where
  unfoldable pub update : (ℕ → Call T) → ℕ → Call T → ℕ → Call T
  update calls i call j = if j == i then call else calls j

  unfoldable pub advance : ℕ → Option T → Shared T → Shared T
  advance i result s =
      let next = step_call result s.cell (s.calls i) in
      record { cell = next.0; calls = update s.calls i next.1 }

  -- Any call may take the next step; what the function does is chosen when it is called.
  pub data Reach (s : Shared T) : Shared T → Type 0 where
    here : Reach s s
    next : {t : Shared T} (i : ℕ) (result : Option T) → Reach s t → Reach s (advance i result t)

  -- A new cell, and calls of `force` and of `get`, told apart by `is_force`.
  unfoldable pub start : (ℕ → Bool) → Shared T
  start is_force = record { cell = new; calls = λ i. if is_force i then force_load else get_load }

  pub record IsShared (s : Shared T) : Type 0 where
    pub is_cell : IsCell s.cell
    pub knows : (i : ℕ) → Knows s.cell (s.calls i)
    pub apart : (i j : ℕ) → Owns (s.calls i) → Owns (s.calls j) → i ≡ j
    pub owner : s.cell.state ≡ init_in_progress → (i : ℕ) × Owns (s.calls i)

  pub start-IsShared : (is_force : ℕ → Bool) → IsShared (start is_force)
  unfolding start
  start-IsShared is_force = record {
    is_cell = (omega arith, refl, λ h. absurd (omega arith));
    knows = λ i. start-Knows T (is_force i);
    apart = λ i j h k. absurd (start_unowned T (is_force i) h);
    owner = λ h. absurd (omega arith);
  }

  pub update_self : (calls : ℕ → Call T) (i : ℕ) (call : Call T) → update calls i call i ≡ call
  unfolding update
  update_self calls i call = ground arith

  update_ne :
      (calls : ℕ → Call T) (i j : ℕ) (call : Call T) → j ≢ i → update calls i call j ≡ calls j
  unfolding update
  update_ne calls i j call h = ground arith

  -- A property of every call after a step: of the one that moved, and of the others.
  update_all :
      (calls : ℕ → Call T) (i : ℕ) (call : Call T) (P : ℕ → Call T → Type 0)
      → P i call
      → ((j : ℕ) → j ≢ i → P j (calls j))
      → (j : ℕ) → P j (update calls i call j)
  update_all calls i call P this others j = elim (ℕ_discrete j i) [
    | yes e ↦ rw (e, update_self calls i call) (this)
    | no h ↦ rw (update_ne calls i j call h) (others j h)
  ]

  pub dec_Owns : (call : Call T) → Owns call ⊎ (¬ Owns call)
  dec_Owns calling = inl tt
  dec_Owns poisoning = inl tt
  dec_Owns publishing = inl tt
  dec_Owns (writing v) = inl tt
  dec_Owns _ = inr (λ h. h)

  advance-Knows :
      (s : Shared T) (i : ℕ) (result : Option T)
      → IsShared s
      → (j : ℕ) → Knows (advance i result s).cell ((advance i result s).calls j)
  unfolding advance
  advance-Knows s i result ok =
      let next = step_call result s.cell (s.calls i) in
      update_all s.calls i next.1 (λ j c. Knows next.0 c)
        (step_call-Knows result s.cell (s.calls i) ok.is_cell (ok.knows i)).1
        (λ j ne.
          step_call-other result s.cell (s.calls i) (s.calls j) ok.is_cell (ok.knows i) (ok.knows j)
            (λ h k. ne (sym (ok.apart i j h k))))

  -- A call that owns the cell after its step is the one that owned it before, if any did.
  pub sole_owner :
      (s : Shared T) (i : ℕ) (result : Option T)
      → IsShared s
      → (k : ℕ) → Owns (step_call result s.cell (s.calls i)).1
      → Owns (s.calls k)
      → i ≡ k
  sole_owner s i result ok k after before = elim (dec_Owns (s.calls i)) [
    | inl owns ↦ ok.apart i k owns before
    | inr free ↦ elim (step_call_unowned result s.cell (s.calls i) ok.is_cell free) [
      | inl (zero_state, _) ↦
          absurd (omega (arith, zero_state, Knows-Owns s.cell (s.calls k) (ok.knows k) before))
      | inr (_, none_own) ↦ absurd (none_own after)
    ]
  ]

  -- At most one call owns the cell after a step.
  advance_apart :
      (s : Shared T) (i : ℕ) (result : Option T)
      → IsShared s
      → (j k : ℕ) → Owns ((advance i result s).calls j)
      → Owns ((advance i result s).calls k)
      → j ≡ k
  unfolding advance
  advance_apart s i result ok =
      let next = step_call result s.cell (s.calls i) in
      update_all s.calls i next.1
        (λ j c. (k : ℕ) → Owns c → Owns (update s.calls i next.1 k) → j ≡ k)
        (λ k h.
          update_all s.calls i next.1 (λ k c. Owns c → i ≡ k) (λ o. refl)
            (λ k ne o. sole_owner s i result ok k h o) k)
        (λ j ne k h.
          update_all s.calls i next.1 (λ k c. Owns c → j ≡ k)
            (λ o. sym (sole_owner s i result ok j o h)) (λ k nk o. ok.apart j k h o) k)

  advance_owner :
      (s : Shared T) (i : ℕ) (result : Option T)
      → IsShared s
      → (advance i result s).cell.state ≡ init_in_progress
      → (j : ℕ) × Owns ((advance i result s).calls j)
  unfolding advance
  advance_owner s i result ok h =
      let next = step_call result s.cell (s.calls i) in
      elim (dec_Owns (s.calls i)) [
        | inl owns ↦
            (i, rw (update_self s.calls i next.1) (step_call-Owns result s.cell (s.calls i) owns h))
        | inr free ↦ elim (step_call_unowned result s.cell (s.calls i) ok.is_cell free) [
          | inl (_, owns) ↦ (i, rw (update_self s.calls i next.1) owns)
          | inr (same, _) ↦
              let found = ok.owner (ap (λ c. c.state) (sym same) ∙ h) in
              (
                found.0,
                rw (update_ne s.calls i found.0 next.1 (λ e. free (rw (sym e) found.1))) (found.1),
              )
        ]
      ]

  pub advance-IsShared :
      (s : Shared T) (i : ℕ) (result : Option T) → IsShared s → IsShared (advance i result s)
  unfolding advance
  advance-IsShared s i result ok = record {
    is_cell = (step_call-Knows result s.cell (s.calls i) ok.is_cell (ok.knows i)).0;
    knows = advance-Knows s i result ok;
    apart = advance_apart s i result ok;
    owner = advance_owner s i result ok;
  }
