-- ===== src/FixedVec/Streams.antt =====
-- `io::Write` for a vector of bytes: the bytes go behind the elements until the vector is full.
use hamerkop.Base.{
  ℕ, ◌≡◌, sym, ◌∙◌, ap, ap₂, min, List, [], ◌∷◌, ◌++◌, append-nil, arith, length, take, done, true,
  leb, ◌==◌, Bool-cases, inl, inr, length-take, take_all, drop_all,
}
use hamerkop.FixedVec.Ops.{FixedVec, capacity, sub_usize}
use hamerkop.FixedVec.Bulk.{write, write_all}
use hamerkop.FixedVec.Rep.{holding, Fits, capacity-holding}
use hamerkop.FixedVec.Cells.{Cells}
use hamerkop.FixedVec.Transfer.{extended, extend_from_slice_lem, min_le}

extended_nil :
    (xs : List ℕ) (s : Cells ℕ) (buf : List ℕ) → length s ≡ 0 → extended xs s buf ≡ holding xs s
extended_nil xs [] [] e = ap (λ t. holding t []) (append-nil xs)
extended_nil xs [] (x ∷ buf) e = ap (λ t. holding t []) (append-nil xs)
extended_nil xs (c ∷ s) buf e = absurd (omega (arith, e))

extended_cut :
    (xs : List ℕ) (s : Cells ℕ) (buf : List ℕ)
    → (length (take (min (length buf) (length s)) buf) ≡ min (length s) (length buf))
      × (extended xs s (take (min (length buf) (length s)) buf) ≡ extended xs s buf)
extended_cut xs s buf = elim (min_le (length buf) (length s)) [
  | inl (e, h) ↦
      let whole : take (min (length buf) (length s)) buf ≡ buf =
        ap (λ k. take k buf) e ∙ take_all (length buf) buf (omega arith) in
      (omega (arith, ap length whole, h), ap (λ b. extended xs s b) whole)
  | inr (e, h) ↦
      let cut : take (min (length buf) (length s)) buf ≡ take (length s) buf =
        ap (λ k. take k buf) e in
      let n = length-take (length s) buf in
      (
        omega (arith, ap length cut, n, h),
        ap (λ b. extended xs s b) cut
            ∙ ap₂ (λ t r. holding (xs ++ t) r)
                (take_all (length s) (take (length s) buf) (omega (arith, n)))
                (drop_all (length (take (length s) buf)) s (omega (arith, n, h))
                  ∙ sym (drop_all (length buf) s h)),
      )
]

-- On a vector smaller than the address space, `write` appends the longest prefix of the buffer that
-- fits and returns its length; it never fails.
pub write_lem :
    (xs : List ℕ) (s : Cells ℕ) (buf : List ℕ)
    → Fits xs s
    → write (holding xs s) buf ≡ done (min (length s) (length buf), extended xs s buf)
unfolding write
write_lem xs s buf fits =
    let remaining : sub_usize (capacity (holding xs s)) (length xs) ≡ length s =
      omega (arith, capacity-holding xs s, fits) in
    let slice = take (min (length buf) (length s)) buf in
    elim (Bool-cases (length s == 0)) [
      | inl e ↦ rw remaining (
          rw e (
            ap₂ (λ n (v : FixedVec ℕ). done (n, v)) (ground (arith, e))
              (sym (extended_nil xs s buf (ground (arith, e))))))
      | inr e ↦ rw remaining (
          rw (e, extend_from_slice_lem true xs s slice fits)
            (ap₂ (λ n (v : FixedVec ℕ). done (n, v)) ((extended_cut xs s buf).0)
              ((extended_cut xs s buf).1)))
    ]

-- On a vector smaller than the address space, `write_all` fails with `WriteZero` exactly when the
-- buffer does not fit; the longest prefix that fits is written either way.
pub write_all_lem :
    (xs : List ℕ) (s : Cells ℕ) (buf : List ℕ)
    → Fits xs s
    → write_all (holding xs s) buf ≡ done (leb (length buf) (length s), extended xs s buf)
unfolding write_all
write_all_lem xs s buf fits =
    rw (write_lem xs s buf fits) (ap (λ b. done (b, extended xs s buf)) (ground arith))
