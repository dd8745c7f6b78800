-- ===== src/FixedVec/Transfer.antt =====
-- `extend_from_slice`, `extend`, `clone` and `Write`: how much is taken, and in which order.
use mathlib.Core.Path.{subst}
use hamerkop.Base.{
  leb→le, ℕ, zero, suc, ◌+◌, ◌≤◌, ◌<◌, ◌≡◌, refl, sym, ◌∙◌, ap, ap₂, min, Option, none, some, List,
  [], ◌∷◌, ◌++◌, append_assoc, append-nil, map, arith, ◌%◌, ◌⊎◌, length, take, drop, replicate,
  usize_mod, done, length-append, Bool, true, false, leb, Bool-cases, inl, inr, take-append-drop,
  length-take, length-replicate, take_all, drop_all,
}
use hamerkop.FixedVec.Cells.{Cells, copy_between}
use hamerkop.FixedVec.Ops.{FixedVec, with_capacity, available, add_usize}
use hamerkop.FixedVec.Bulk.{append, excise_front, write_each, extend_from_slice, as_slice, clone}
use hamerkop.FixedVec.Rep.{
  copy_within-at, holding, Fits, capacity-holding, write_cell-at, read_range-at, copy_between-at,
  cells_split, cells_append, length-some,
}
use hamerkop.FixedVec.Push.{available-holding}

pub min_le : (n k : ℕ) → (min n k ≡ n) × (n ≤ k) ⊎ (min n k ≡ k) × (k ≤ n)
min_le n k = elim (Bool-cases (leb n k)) [
  | inl e ↦ inl (omega (arith, leb→le n k e), leb→le n k e)
  | inr e ↦ let h : k ≤ n = ground (arith, e) in inr (omega (arith, h), h)
]

module _ {A : Type 0} where
  copied :
      (xs ys : List A) (s : Cells A)
      → length ys ≤ length s
      → copy_between (map some ys) (map some xs ++ s) 0 (length xs) (length ys)
        ≡ done (map some (xs ++ ys) ++ drop (length ys) s)
  copied xs ys s h =
      copy_between-at (map some ys) (map some xs ++ s) (length xs) (length ys) (map some ys) []
        (map some xs) (take (length ys) s) (drop (length ys) s) (sym (append-nil (map some ys)))
        (length-some ys) (ap (λ t. map some xs ++ t) (sym (take-append-drop (length ys) s)))
        (length-some xs) (omega (arith, length-take (length ys) s))
      ∙ ap (λ (t : Cells A). done t) (sym (cells_append xs ys (drop (length ys) s)))

  write_each_lem :
      (xs ys : List A) (s : Cells A)
      → length xs + length s < usize_mod
      → length ys ≤ length s
      → write_each (holding xs s) ys ≡ done (holding (xs ++ ys) (drop (length ys) s))
  unfolding write_each
  write_each_lem xs [] s fits h = rw append-nil
  write_each_lem xs (y ∷ ys) [] fits h = absurd (omega arith)
  write_each_lem xs (y ∷ ys) (c ∷ s) fits h =
      let v' : holding (xs ++ (y ∷ [])) s
          ≡ record { cells = map some xs ++ (some y ∷ s); size = add_usize (length xs) 1 } =
        ap₂ (λ c n. record { cells = c; size = n }) (cells_split xs y [] s)
          (omega (arith, length-append xs (y ∷ []))) in
      rw (write_cell-at (map some xs) c s y (length-some xs), ← v')
        (write_each_lem (xs ++ (y ∷ [])) ys s (omega (arith, length-append xs (y ∷ [])))
            (omega arith)
          ∙ ap (λ t. done (holding t (drop (length ys) s))) (append_assoc xs (y ∷ []) ys))

  -- the vector after the elements of `ys` that fit
  abbrev pub extended : List A → Cells A → List A → FixedVec A
  extended xs s ys = holding (xs ++ take (length s) ys) (drop (length ys) s)

  -- The elements `extend_from_slice` takes are as many as they should be.
  taken :
      (s : Cells A) (ys : List A)
      → (take (min (length s) (length ys)) ys ≡ take (length s) ys)
        × (drop (min (length s) (length ys)) s ≡ drop (length ys) s)
  taken s ys = elim (min_le (length s) (length ys)) [
    | inl (e, h) ↦ (
      ap (λ k. take k ys) e,
      ap (λ k. drop k s) e ∙ drop_all (length s) s (omega arith) ∙ sym (drop_all (length ys) s h),
    )
    | inr (e, h) ↦ (
      ap (λ k. take k ys) e
          ∙ take_all (length ys) ys (omega arith)
          ∙ sym (take_all (length s) ys h),
      ap (λ k. drop k s) e,
    )
  ]

  -- On a vector smaller than the address space, `extend_from_slice` appends the longest prefix that
  -- fits, by either of its ways to copy, and returns its length.
  pub extend_from_slice_lem :
      (is_copy : Bool) (xs : List A) (s : Cells A) (ys : List A)
      → Fits xs s
      → extend_from_slice is_copy (holding xs s) ys
        ≡ done (min (length s) (length ys), extended xs s ys)
  unfolding extend_from_slice
  extend_from_slice_lem is_copy xs s ys fits =
      let k = min (length s) (length ys) in
      let t = take k ys in
      let n : length t ≡ k = omega (arith, length-take k ys) in
      let after : holding (xs ++ t) (drop (length t) s) ≡ extended xs s ys =
        ap₂ (λ u w. holding (xs ++ u) w) ((taken s ys).0) (ap (λ i. drop i s) n ∙ (taken s ys).1) in
      let size : (length xs + length t) % usize_mod ≡ length (xs ++ t) =
        omega (arith, length-append xs t, n) in
      elim is_copy as (λ b. extend_from_slice b (holding xs s) ys ≡ done (k, extended xs s ys)) [
        | true ↦
            rw (extend_from_slice, available-holding xs s, copied xs t s (omega (arith, n)))
              (rw (size) (ap₂ (λ i (v : FixedVec A). done (i, v)) n after))
        | false ↦
            rw
              (
                extend_from_slice,
                available-holding xs s,
                write_each_lem xs t s fits (omega (arith, n)),
              )
              (ap₂ (λ i (v : FixedVec A). done (i, v)) n after)
      ]

  drop-replicate : (c : Option A) (n k : ℕ) → drop n (replicate (n + k) c) ≡ replicate k c
  drop-replicate c zero k = ap (λ t. replicate t c) {x = 0 + k} {y = k} (omega arith)
  drop-replicate c (suc n) k =
      ap (λ t. drop (suc n) (replicate t c)) {y = suc (n + k)} (omega arith) ∙ drop-replicate c n k

  -- The clone of a vector smaller than the address space has the same elements and the same
  -- capacity.
  pub clone_lem :
      (is_copy : Bool) (xs : List A) (s : Cells A)
      → Fits xs s
      → clone is_copy (holding xs s) ≡ done (holding xs (replicate (length s) none))
  unfolding clone as_slice with_capacity
  clone_lem is_copy xs s fits =
      let c : Cells A = replicate (length xs + length s) none in
      let n : length c ≡ length xs + length s = length-replicate (length xs + length s) none in
      rw
        (
          read_range-at [] xs s refl,
          capacity-holding xs s,
          extend_from_slice_lem is_copy [] c xs (omega (arith, n, fits)),
        )
        (ap₂ (λ t r. done (holding t r)) (take_all (length c) xs (omega (arith, n)))
          (drop-replicate none (length xs) (length s)))

  -- `append` when it takes `ys`: the cells behind them, `b` and as many as were taken, move up.
  append_taken :
      (xs : List A) (s : Cells A) (ys zs : List A) (t b g : Cells A)
      → Fits xs s
      → Fits (ys ++ zs) t
      → min (length s) (length ys + length zs) ≡ length ys
      → map some zs ++ t ≡ b ++ g
      → length b ≡ length ys
      → append (holding xs s) (holding (ys ++ zs) t)
        ≡ done (
          holding (xs ++ ys) (drop (length ys) s),
          record { cells = b ++ (b ++ g); size = length zs },
        )
  unfolding append excise_front
  append_taken xs s ys zs t b g fits fits' taken e n =
      let n2 = length-append ys zs in
      let amount : min (available (holding xs s)) (length (ys ++ zs)) ≡ length ys =
        omega (arith, available-holding xs s fits, n2, taken) in
      let cells : map some (ys ++ zs) ++ t ≡ map some ys ++ (map some zs ++ t) =
        cells_append ys zs t in
      let tail = drop (length ys) s in
      let moved =
        copy_between-at (map some (ys ++ zs) ++ t) (map some xs ++ s) (length xs) (length ys)
          (map some ys) (map some zs ++ t) (map some xs) (take (length ys) s) tail cells
          (length-some ys) (ap (λ c. map some xs ++ c) (sym (take-append-drop (length ys) s)))
          (length-some xs) (omega (arith, length-take (length ys) s, taken)) in
      let up =
        copy_within-at (map some (ys ++ zs) ++ t) (length ys) 0 (length ys) (map some ys) b g []
          (map some ys) (b ++ g) (cells ∙ ap (λ c. map some ys ++ c) e) (length-some ys) n
          (cells ∙ ap (λ c. map some ys ++ c) e) refl (length-some ys) in
      rw amount (
        rw (moved, up)
          (ap₂ (λ v w. done (v, w))
            (ap₂ (λ c k. record { cells = c; size = k }) (sym (cells_append xs ys tail))
              (omega (arith, length-append xs ys)))
            (ap (λ k. record { cells = b ++ (b ++ g); size = k }) (omega (arith, n2)))))

  -- `append` of a vector that fits into the spare cells of another, both smaller than the address
  -- space, moves all its elements and leaves it empty, if it has at least as many spare cells of
  -- its own as elements.
  pub append_lem :
      (xs : List A) (s : Cells A) (ys : List A) (t u : Cells A)
      → Fits xs s
      → Fits ys (t ++ u)
      → length ys ≤ length s
      → length t ≡ length ys
      → append (holding xs s) (holding ys (t ++ u))
        ≡ done (holding (xs ++ ys) (drop (length ys) s), holding [] (t ++ (t ++ u)))
  append_lem xs s ys t u fits fits' room spare =
      let e = append-nil ys in
      subst
        (λ z.
          append (holding xs s) (holding z (t ++ u))
          ≡ done (holding (xs ++ ys) (drop (length ys) s), holding [] (t ++ (t ++ u))))
        e
        (append_taken xs s ys [] (t ++ u) t u fits (omega (arith, ap length e, fits'))
          (omega (arith, room)) refl spare)

  -- `append` into a vector that it fills, both smaller than the address space, moves the first
  -- elements and leaves the others in order, if those and the spare cells behind them that it
  -- copies are as many as the moved ones.
  pub append_part :
      (xs : List A) (s : Cells A) (ys zs : List A) (t u : Cells A)
      → Fits xs s
      → Fits (ys ++ zs) (t ++ u)
      → length s ≡ length ys
      → length zs + length t ≡ length ys
      → append (holding xs s) (holding (ys ++ zs) (t ++ u))
        ≡ done (holding (xs ++ ys) [], holding zs (t ++ (map some zs ++ (t ++ u))))
  append_part xs s ys zs t u fits fits' full spare =
      let b = map some zs ++ t in
      append_taken xs s ys zs (t ++ u) b u fits fits' (omega (arith, full))
        (sym (append_assoc (map some zs) t u))
        (omega (arith, length-append (map some zs) t, length-some zs, spare))
      ∙ ap₂ (λ d c. done (holding (xs ++ ys) d, record { cells = c; size = length zs }))
          (drop_all (length ys) s (omega (arith, full)))
          (append_assoc (map some zs) t (b ++ u)
            ∙ ap (λ c. map some zs ++ (t ++ c)) (append_assoc (map some zs) t u))

  -- `append` into a vector that it fills, both smaller than the address space, when twice as many
  -- elements stay as were moved: the other vector then holds the first half of those that stay
  -- twice, and the second half not at all.
  pub append_repeats :
      (xs : List A) (s : Cells A) (ys zs ws : List A) (t : Cells A)
      → Fits xs s
      → Fits (ys ++ (zs ++ ws)) t
      → length s ≡ length ys
      → length zs ≡ length ys
      → length ws ≡ length ys
      → append (holding xs s) (holding (ys ++ (zs ++ ws)) t)
        ≡ done (holding (xs ++ ys) [], holding (zs ++ zs) (map some ws ++ t))
  append_repeats xs s ys zs ws t fits fits' full e f =
      append_taken xs s ys (zs ++ ws) t (map some zs) (map some ws ++ t) fits fits'
        (omega (arith, full)) (cells_append zs ws t) (omega (arith, length-some zs, e))
      ∙ ap₂ (λ d (v : FixedVec A). done (holding (xs ++ ys) d, v))
          (drop_all (length ys) s (omega (arith, full)))
          (ap₂ (λ c k. record { cells = c; size = k }) (sym (cells_append zs zs (map some ws ++ t)))
            (omega (arith, length-append zs ws, length-append zs zs, e, f)))
