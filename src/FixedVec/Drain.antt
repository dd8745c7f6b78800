-- ===== src/FixedVec/Drain.antt =====
-- `drain`, and the iterator `Drain` with its destructor.
use hamerkop.Base.{
  ℕ, zero, suc, ◌-◌, Option, none, some, List, [], ◌∷◌, leb, ◌==◌, ◌&&◌, if◌then◌else◌, Outcome,
  done, ◌>>=◌, ◌>>◌, assert,
}
use hamerkop.FixedVec.Cells.{read_cell, read_range, copy_within}
use hamerkop.FixedVec.Ops.{FixedVec, sub_usize, add_usize, len, set_len}

-- `Bound<usize>`
pub data Bound : Type 0 where
  included : ℕ → Bound
  excluded : ℕ → Bound
  unbounded : Bound

pub record Drain (A : Type 0) : Type 0 where
  pub vec : FixedVec A
  pub start : ℕ
  pub end : ℕ
  pub current : ℕ
  pub old_len : ℕ

unfoldable pub start_of : Bound → ℕ
start_of (excluded x) = add_usize x 1
start_of (included x) = x
start_of unbounded = 0

module _ {A : Type 0} where
  unfoldable pub end_of : FixedVec A → Bound → ℕ
  end_of v (excluded x) = x
  end_of v (included x) = add_usize x 1
  end_of v unbounded = len v

  unfoldable pub drain : FixedVec A → Bound → Bound → Outcome (Drain A)
  drain v from to =
      let start = start_of from in
      let end = end_of v to in
      assert (leb start end && leb end (len v))
      >> done (record {
        vec = set_len v start;
        start = start;
        end = end;
        current = start;
        old_len = len v;
      })

  unfoldable pub next : Drain A → Outcome (Option A × Drain A)
  next d =
      if d.current == d.end
      then done (none, d)
      else (read_cell d.vec.cells d.current >>= λ value.
          done (some value, record d { current = add_usize d.current 1 }))

  -- the `for` loop over the iterator: what it yields, and the iterator at its end
  unfoldable pub collect : ℕ → Drain A → Outcome (List A × Drain A)
  collect zero d = done ([], d)
  collect (suc fuel) d = next d >>= λ r. elim (r.0) [
    | none ↦ done ([], r.1)
    | some a ↦ collect fuel r.1 >>= λ s. done (a ∷ s.0, s.1)
  ]

  -- `Drop for Drain`: the values that it drops, and the vector that it leaves
  unfoldable pub drop_drain : Drain A → Outcome (List A × FixedVec A)
  drop_drain d = read_range d.vec.cells d.start (d.end - d.start) >>= λ dropped.
      copy_within d.vec.cells d.end d.start (sub_usize d.old_len d.end) >>= λ cells.
      done (dropped, record { cells = cells; size = sub_usize d.old_len (sub_usize d.end d.start) })
