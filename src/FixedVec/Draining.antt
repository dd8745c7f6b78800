-- ===== src/FixedVec/Draining.antt =====
-- `drain` of a range in the middle: what the iterator yields, what its destructor drops, and what the
-- vector is left with.
use mathlib.Core.Path.{subst}
use hamerkop.Base.{
  false, ℕ, suc, ◌+◌, ◌-◌, ◌<◌, ◌≡◌, sym, ◌∙◌, ap, ap₂, true, some, List, [], ◌∷◌, ◌++◌,
  append_assoc, map, arith, length, take, drop, usize_mod, Outcome, done, ◌>>=◌, leb, ◌==◌,
  length-append, length-take, take-append-drop,
}
use hamerkop.FixedVec.Cells.{Cells, read_cell}
use hamerkop.FixedVec.Ops.{FixedVec, set_len, sub_usize, add_usize}
use hamerkop.FixedVec.Drain.{
  Drain, included, excluded, start_of, end_of, drain, next, collect, drop_drain,
}
use hamerkop.FixedVec.Rep.{
  holding, Fits, read_cell-at, read_range-at, copy_within-at, cells_split, cells_append,
  length-some,
}

module _ {A : Type 0} where
  -- the iterator over `ys`, between `xs` and `zs`, of which `n` elements were yielded
  abbrev pub draining : List A → List A → List A → Cells A → ℕ → Drain A
  draining xs ys zs rest n = record {
    vec = record {
      cells = map some xs ++ (map some ys ++ (map some zs ++ rest));
      size = length xs;
    };
    start = length xs;
    end = length xs + length ys;
    current = length xs + n;
    old_len = length xs + (length ys + length zs);
  }

  drain_middle :
      (xs ys zs : List A) (rest : Cells A)
      → Fits (xs ++ (ys ++ zs)) rest
      → drain
          (holding (xs ++ (ys ++ zs)) rest)
          (included (length xs))
          (excluded (length xs + length ys))
        ≡ done (draining xs ys zs rest 0)
  unfolding drain set_len start_of end_of
  drain_middle xs ys zs rest fits =
      let size : length (xs ++ (ys ++ zs)) ≡ length xs + (length ys + length zs) =
        omega (arith, length-append xs (ys ++ zs), length-append ys zs) in
      let order : leb (length xs) (length xs + length ys) ≡ true = ground arith in
      let inside : leb (length xs + length ys) (length (xs ++ (ys ++ zs))) ≡ true =
        ground (arith, size) in
      let cells : map some (xs ++ (ys ++ zs)) ++ rest
          ≡ map some xs ++ (map some ys ++ (map some zs ++ rest)) =
        cells_append xs (ys ++ zs) rest ∙ ap (λ c. map some xs ++ c) (cells_append ys zs rest) in
      rw (order, inside)
        (ap₂
            (λ c n. done (record {
              vec = record { cells = c; size = length xs };
              start = length xs;
              end = length xs + length ys;
              current = length xs;
              old_len = n;
            }))
            cells size
          ∙ ap (λ n. done (record (draining xs ys zs rest 0) { current = n })) {x = length xs}
              {y = length xs + 0} (omega arith))

  next_at :
      (xs us : List A) (b : A) (bs zs : List A) (rest : Cells A)
      → length xs + length (us ++ (b ∷ bs)) < usize_mod
      → next (draining xs (us ++ (b ∷ bs)) zs rest (length us))
        ≡ done (some b, draining xs (us ++ (b ∷ bs)) zs rest (suc (length us)))
  unfolding next
  next_at xs us b bs zs rest small =
      let later = map some zs ++ rest in
      let behind = map some bs ++ later in
      let split : map some xs ++ (map some (us ++ (b ∷ bs)) ++ later)
          ≡ (map some xs ++ map some us) ++ (some b ∷ behind) =
        ap (λ c. map some xs ++ c) (cells_split us b bs later)
        ∙ sym (append_assoc (map some xs) (map some us) (some b ∷ behind)) in
      let size = length-append us (b ∷ bs) in
      let at : length (map some xs ++ map some us) ≡ length xs + length us =
        omega (arith, length-append (map some xs) (map some us), length-some xs, length-some us) in
      let found : read_cell (map some xs ++ (map some (us ++ (b ∷ bs)) ++ later))
            (length xs + length us)
          ≡ done b =
        subst (λ c. read_cell c (length xs + length us) ≡ done b) (sym split)
          (read_cell-at (map some xs ++ map some us) b behind at) in
      let more : (length xs + length us == length xs + length (us ++ (b ∷ bs))) ≡ false =
        ground (arith, size) in
      rw (more, found)
        (ap (λ n. done (some b, record (draining xs (us ++ (b ∷ bs)) zs rest 0) { current = n }))
          {x = add_usize (length xs + length us) 1} {y = length xs + suc (length us)}
          (omega (arith, size, small)))

  -- the rest of the iteration
  collect_from :
      (xs us bs zs : List A) (rest : Cells A)
      → length xs + length (us ++ bs) < usize_mod
      → collect (suc (length bs)) (draining xs (us ++ bs) zs rest (length us))
        ≡ done (bs, draining xs (us ++ bs) zs rest (length (us ++ bs)))
  unfolding collect next
  collect_from xs us [] zs rest small =
      let at_end : (length xs + length us == length xs + length (us ++ [])) ≡ true =
        ground (arith, length-append us []) in
      rw (next, at_end)
        (ap (λ n. done ([], draining xs (us ++ []) zs rest n)) {x = length us}
          {y = length (us ++ [])} (omega (arith, length-append us [])))
  collect_from xs us (b ∷ bs) zs rest small =
      let one = b ∷ [] in
      let all = append_assoc us one bs in
      let same = ap length all in
      let rest_of =
        subst
          (λ n.
            collect (suc (length bs)) (draining xs ((us ++ one) ++ bs) zs rest n)
            ≡ done (bs, draining xs ((us ++ one) ++ bs) zs rest (length ((us ++ one) ++ bs))))
          {x = length (us ++ one)} {y = suc (length us)} (omega (arith, length-append us one))
          (collect_from xs (us ++ one) bs zs rest (omega (arith, same, small))) in
      let step =
        subst
          (λ ys.
            collect (suc (length bs)) (draining xs ys zs rest (suc (length us)))
            ≡ done (bs, draining xs ys zs rest (length ys)))
          all rest_of in
      rw (next_at xs us b bs zs rest small) (rw step)

  -- the cells behind the elements once `zs` moved down
  abbrev pub left_over : List A → List A → Cells A → Cells A
  left_over ys zs rest = drop (length zs) (map some ys ++ (map some zs ++ rest))

  drop_at :
      (xs ys zs : List A) (rest : Cells A) (n : ℕ)
      → length xs + (length ys + length zs) < usize_mod
      → drop_drain (draining xs ys zs rest n) ≡ done (ys, holding (xs ++ zs) (left_over ys zs rest))
  unfolding drop_drain
  drop_at xs ys zs rest n small =
      let tail = map some ys ++ (map some zs ++ rest) in
      let front = take (length zs) tail in
      let many : length xs + length ys - length xs ≡ length ys = omega arith in
      let count : sub_usize (length xs + (length ys + length zs)) (length xs + length ys)
          ≡ length zs =
        omega (arith, small) in
      let size : sub_usize (length xs + (length ys + length zs))
            (sub_usize (length xs + length ys) (length xs))
          ≡ length (xs ++ zs) =
        omega (arith, small, length-append xs zs) in
      let cut : length front ≡ length zs = omega (
        arith,
        length-take (length zs) tail,
        length-append (map some ys) (map some zs ++ rest),
        length-append (map some zs) rest,
        length-some zs,
      ) in
      let moved =
        copy_within-at (map some xs ++ tail) (length xs + length ys) (length xs) (length zs)
          (map some xs ++ map some ys) (map some zs) rest (map some xs) front (left_over ys zs rest)
          (sym (append_assoc (map some xs) (map some ys) (map some zs ++ rest)))
          (omega (arith, length-append (map some xs) (map some ys), length-some xs, length-some ys))
          (length-some zs) (ap (λ c. map some xs ++ c) (sym (take-append-drop (length zs) tail)))
          (length-some xs) cut in
      rw (many, read_range-at (map some xs) ys (map some zs ++ rest) (length-some xs), count, moved)
        (ap₂ (λ c k. done (ys, record { cells = c; size = k }))
          (sym (cells_append xs zs (left_over ys zs rest))) size)

  -- On a vector smaller than the address space, a drain of a range within the length that is
  -- dropped unused drops the elements of the range, each once and in order, and leaves those before
  -- and those behind it.
  pub drain-drop_drain :
      (xs ys zs : List A) (rest : Cells A)
      → Fits (xs ++ (ys ++ zs)) rest
      → (drain
            (holding (xs ++ (ys ++ zs)) rest)
            (included (length xs))
            (excluded (length xs + length ys))
          >>= λ d. drop_drain d)
        ≡ done (ys, holding (xs ++ zs) (left_over ys zs rest))
  drain-drop_drain xs ys zs rest fits =
      let size = length-append xs (ys ++ zs) in
      let size' = length-append ys zs in
      rw (drain_middle xs ys zs rest fits)
        (drop_at xs ys zs rest 0 (omega (arith, size, size', fits)))

  -- a loop over the iterator, and then its destructor: what it yields, what is dropped, the vector
  abbrev pub used_up : ℕ → Drain A → Outcome (List A × (List A × FixedVec A))
  used_up fuel d = collect fuel d >>= λ r. drop_drain r.1 >>= λ s. done (r.0, s)

  -- On a vector smaller than the address space, a drain of a range within the length that is used
  -- up yields the elements of the range in order, and then its destructor drops all of them again.
  pub drain-collect :
      (xs ys zs : List A) (rest : Cells A)
      → Fits (xs ++ (ys ++ zs)) rest
      → (drain
            (holding (xs ++ (ys ++ zs)) rest)
            (included (length xs))
            (excluded (length xs + length ys))
          >>= λ d. used_up (suc (length ys)) d)
        ≡ done (ys, (ys, holding (xs ++ zs) (left_over ys zs rest)))
  drain-collect xs ys zs rest fits =
      let size = length-append xs (ys ++ zs) in
      let size' = length-append ys zs in
      rw (
        drain_middle xs ys zs rest fits,
        collect_from xs [] ys zs rest (omega (arith, size, size', fits)),
        drop_at xs ys zs rest (length ys) (omega (arith, size, size', fits)),
      )
