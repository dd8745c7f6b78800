-- ===== src/FixedVec/Extend.antt =====
-- `extend`, `write_vectored` and `clone_from`, by what is appended until the vector is full.
use hamerkop.Base.{
  ℕ, zero, suc, ◌+◌, ◌-◌, ◌≤◌, ◌<◌, ◌≡◌, refl, sym, ◌∙◌, ap, ap₂, min, List, [], ◌∷◌, ◌++◌,
  append-nil, append_assoc, arith, length, take, drop, done, true, false, Option, none, some, leb,
  ltb, ◌==◌, not, Bool, Bool-cases, inl, inr, map, replicate, length-replicate, ==_iff,
  length-append, length-drop, take_all, drop_all, usize_mod,
}
use hamerkop.FixedVec.Ops.{FixedVec, capacity, available, add_usize}
use hamerkop.FixedVec.Bulk.{extend, write, write_bufs, write_vectored, clone_from, as_slice}
use hamerkop.FixedVec.Rep.{holding, Fits, capacity-holding, read_range-at}
use hamerkop.FixedVec.Cells.{Cells}
use hamerkop.FixedVec.Push.{push_lem, available-holding}
use hamerkop.FixedVec.Transfer.{extended, extend_from_slice_lem, clone_lem}
use hamerkop.FixedVec.Streams.{write_lem}
use hamerkop.FixedVec.Keep.{clear_lem, destroyed}

module _ {A : Type 0} where
  -- On a vector smaller than the address space, `extend` appends the longest prefix of what the
  -- iterator yields that fits, and leaves the rest in the iterator.
  pub extend_lem :
      (xs : List A) (s : Cells A) (ys : List A)
      → Fits xs s
      → extend (holding xs s) ys ≡ done (drop (length s) ys, extended xs s ys)
  unfolding extend
  extend_lem xs s [] fits =
      ap₂ (λ (l t : List A). done (l, holding t s)) (sym (drop_all (length s) [] (omega arith)))
        (sym (append-nil xs) ∙ ap (λ t. xs ++ t) (sym (take_all (length s) [] (omega arith))))
  extend_lem xs [] (y ∷ ys) fits =
      let full : ltb 0 (available (holding xs [])) ≡ false =
        ground (arith, available-holding xs [] fits) in
      rw (full) (ap (λ (t : List A). done (y ∷ ys, holding t [])) (sym (append-nil xs)))
  extend_lem xs (c ∷ s) (y ∷ ys) fits =
      let room : ltb 0 (available (holding xs (c ∷ s))) ≡ true =
        ground (arith, available-holding xs (c ∷ s) fits) in
      rw (room, push_lem xs c s y fits)
        (extend_lem (xs ++ (y ∷ [])) s ys (omega (arith, fits, length-append xs (y ∷ [])))
          ∙ ap (λ t. done (drop (length s) ys, holding t (drop (length ys) s)))
              (append_assoc xs (y ∷ []) (take (length s) ys)))

  -- appending twice is appending both
  take_parts :
      (n : ℕ) (xs ys : List A) → length xs ≤ n → take n (xs ++ ys) ≡ xs ++ take (n - length xs) ys
  take_parts n [] ys h = ap (λ m. take m ys) {x = n} {y = n - 0} (omega arith)
  take_parts zero (x ∷ xs) ys h = absurd (omega arith)
  take_parts (suc n) (x ∷ xs) ys h =
      ap (λ l. x ∷ l)
        (take_parts n xs ys (omega arith)
          ∙ ap (λ m. xs ++ take m ys) {x = n - length xs} {y = suc n - suc (length xs)}
              (omega arith))

  take_within : (n : ℕ) (xs ys : List A) → n ≤ length xs → take n (xs ++ ys) ≡ take n xs
  take_within zero xs ys h = refl
  take_within (suc n) [] ys h = absurd (omega arith)
  take_within (suc n) (x ∷ xs) ys h = ap (λ l. x ∷ l) (take_within n xs ys (omega arith))

  drop_twice : (m n : ℕ) (s : Cells A) → drop n (drop m s) ≡ drop (m + n) s
  drop_twice zero n s = ap (λ k. drop k s) {x = n} {y = 0 + n} (omega arith)
  drop_twice (suc m) n [] =
      drop_all n [] (omega arith) ∙ sym (drop_all (suc m + n) [] (omega arith))
  drop_twice (suc m) n (c ∷ s) =
      drop_twice m n s ∙ ap (λ k. drop k (c ∷ s)) {x = suc (m + n)} {y = suc m + n} (omega arith)

  extended_both :
      (xs : List A) (s : Cells A) (ys zs : List A)
      → length ys ≤ length s
      → extended (xs ++ ys) (drop (length ys) s) zs ≡ extended xs s (ys ++ zs)
  extended_both xs s ys zs h =
      let room : length (drop (length ys) s) ≡ length s - length ys = length-drop (length ys) s in
      let front : (xs ++ ys) ++ take (length (drop (length ys) s)) zs
          ≡ xs ++ take (length s) (ys ++ zs) =
        append_assoc xs ys (take (length (drop (length ys) s)) zs)
        ∙ ap (λ n. xs ++ (ys ++ take n zs)) room
        ∙ ap (λ l. xs ++ l) (sym (take_parts (length s) ys zs h)) in
      let back : drop (length zs) (drop (length ys) s) ≡ drop (length (ys ++ zs)) s =
        drop_twice (length ys) (length zs) s ∙ ap (λ n. drop n s) (sym (length-append ys zs)) in
      ap₂ (λ t r. holding t r) front back

  -- What does not fit makes no difference.
  extended_first :
      (xs : List A) (s : Cells A) (ys zs : List A)
      → length s ≤ length ys
      → extended xs s ys ≡ extended xs s (ys ++ zs)
  extended_first xs s ys zs h =
      ap₂ (λ t r. holding (xs ++ t) r) (sym (take_within (length s) ys zs h))
        (drop_all (length ys) s h
          ∙ sym (drop_all (length (ys ++ zs)) s (omega (arith, h, length-append ys zs))))

abbrev pub concat : List (List ℕ) → List ℕ
concat [] = []
concat (buf ∷ bufs) = buf ++ concat bufs

write_bufs_lem :
    (xs : List ℕ) (s : Cells ℕ) (bufs : List (List ℕ)) (total : ℕ)
    → Fits xs s
    → total + length s < usize_mod
    → write_bufs (holding xs s) bufs total
      ≡ done (total + min (length s) (length (concat bufs)), extended xs s (concat bufs))
unfolding write_bufs
write_bufs_lem xs s [] total fits low =
    ap₂ (λ n (v : FixedVec ℕ). done (n, v)) {x = total} {y = total + min (length s) 0} (omega arith)
      (ap (λ t. holding t s)
        (sym (append-nil xs) ∙ ap (λ t. xs ++ t) (sym (take_all (length s) [] (omega arith)))))
write_bufs_lem xs s (buf ∷ bufs) total fits low =
    let both = length-append buf (concat bufs) in
    elim (Bool-cases (leb (length buf) (length s))) [
      | inl e ↦
          let h : length buf ≤ length s = ground (arith, e) in
          let n : min (length s) (length buf) ≡ length buf = omega (arith, h) in
          let whole : extended xs s buf ≡ holding (xs ++ buf) (drop (length buf) s) =
            ap (λ t. holding (xs ++ t) (drop (length buf) s)) (take_all (length s) buf h) in
          let all : not (length buf == length buf) ≡ false = ground arith in
          let sum : add_usize total (length buf) ≡ total + length buf = omega (arith, low, h) in
          rw (write_lem xs s buf fits, n, whole, all, sum)
            (write_bufs_lem (xs ++ buf) (drop (length buf) s) bufs (total + length buf)
                (omega (arith, fits, h, length-append xs buf, length-drop (length buf) s))
                (omega (arith, low, h, length-drop (length buf) s))
              ∙ ap₂ (λ n (v : FixedVec ℕ). done (n, v))
                  (omega (arith, h, both, length-drop (length buf) s))
                  (extended_both xs s buf (concat bufs) h))
      | inr e ↦
          let h : length s < length buf = ground (arith, e) in
          let n : min (length s) (length buf) ≡ length s = omega (arith, h) in
          let part : not (length s == length buf) ≡ true = ground (arith, h) in
          rw (write_lem xs s buf fits, n, part)
            (ap₂ (λ n (v : FixedVec ℕ). done (n, v)) (omega (arith, h, both, low))
              (extended_first xs s buf (concat bufs) (omega (arith, h))))
    ]

-- On a vector smaller than the address space, `write_vectored` appends what `write` would of all the
-- buffers in one: the longest prefix that fits, across the ends of buffers, and returns its length.
pub write_vectored_lem :
    (xs : List ℕ) (s : Cells ℕ) (bufs : List (List ℕ))
    → Fits xs s
    → write_vectored (holding xs s) bufs ≡ write (holding xs s) (concat bufs)
unfolding write_vectored
write_vectored_lem xs s bufs fits =
    write_bufs_lem xs s bufs 0 fits (omega (arith, fits))
    ∙ ap (λ n. done (n, extended xs s (concat bufs)))
        {x = 0 + min (length s) (length (concat bufs))} {y = min (length s) (length (concat bufs))}
        (omega arith)
    ∙ sym (write_lem xs s (concat bufs) fits)

module _ {A : Type 0} where
  as_slice_lem : (ys : List A) (t : Cells A) → as_slice (holding ys t) ≡ done ys
  unfolding as_slice
  as_slice_lem ys t = read_range-at [] ys t refl

  -- `clone_from` drops the elements it had and holds those of the source, in its own cells when the
  -- capacities are equal and else in as many as the source has; sources are smaller than the address
  -- space.
  pub clone_from_lem :
      (drops is_copy : Bool) (xs : List A) (s : Cells A) (ys : List A) (t : Cells A)
      → Fits ys t
      → (cells : Cells A) × (clone_from drops is_copy (holding xs s) (holding ys t)
          ≡ done (destroyed drops xs, holding ys cells))
        × (length ys + length cells ≡ length ys + length t)
  unfolding clone_from
  clone_from_lem drops is_copy xs s ys t fits =
      let own : Cells A = map some xs ++ s in
      elim (Bool-cases (capacity (holding xs s) == capacity (holding ys t))) [
        | inl e ↦
            let n : length own ≡ length ys + length t =
              (==_iff (length own) (capacity (holding ys t))).0 e ∙ capacity-holding ys t in
            let reads : as_slice (holding ys t) ≡ done ys = as_slice_lem ys t in
            let given = extend_from_slice_lem is_copy [] own ys (omega (arith, n, fits)) in
            (
              drop (length ys) own,
              rw (clone_from, e, clear_lem drops xs s, reads, given)
                  (ap (λ (l : List A). done (destroyed drops xs, holding l (drop (length ys) own)))
                    (take_all (length own) ys (omega (arith, n)))),
              omega (arith, n, length-drop (length ys) own),
            )
        | inr e ↦ (
          replicate (length t) none,
          rw (clone_from, e, clone_lem is_copy ys t fits, clear_lem drops xs s) refl,
          omega (arith, length-replicate {A = Option A} (length t) none),
        )
      ]
