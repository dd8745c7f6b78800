-- ===== src/FixedVec/Keep.antt =====
-- `truncate`, `clear` and `retain`: what stays, and what is dropped.
use mathlib.Core.Path.{subst}
use mathlib.Core.List.{Perm, perm_append_singleton}
use mathlib.Core.List.Perm
use hamerkop.Base.{
  ℕ, suc, ◌+◌, ◌-◌, ◌≤◌, ◌<◌, ◌≡◌, refl, sym, ◌∙◌, ap, ap₂, some, List, [], ◌∷◌, ◌++◌, append_assoc,
  append-nil, map, arith, length, set, done, length-append, Bool, true, false, if◌then◌else◌, leb,
  Bool-cases, inl, inr, get_elem?-append_length, set-append_length,
}
use hamerkop.FixedVec.Cells.{Cells, read_cell, read_range, swap_cells}
use hamerkop.FixedVec.Ops.{FixedVec, set_len, drop_range, truncate, clear}
use hamerkop.FixedVec.Bulk.{retain_from, retain}
use hamerkop.FixedVec.Rep.{
  holding, read_cell-at, read_range-at, cells_split, cells_append, length-some,
}
use hamerkop.FixedVec.Push.{swap_cells_at}

module _ {A : Type 0} where
  -- what `truncate` and `clear` drop of the elements that go
  abbrev pub destroyed : Bool → List A → List A
  destroyed drops ys = if drops then ys else []

  destroyed_nil : (drops : Bool) → destroyed drops [] ≡ []
  destroyed_nil true = refl
  destroyed_nil false = refl

  drop_range-at :
      (drops : Bool) (pre : Cells A) (ys : List A) (rest : Cells A) (n i k : ℕ)
      → length pre ≡ i
      → length ys ≡ k
      → drop_range drops (record { cells = pre ++ (map some ys ++ rest); size = n }) i k
        ≡ done (destroyed drops ys)
  unfolding drop_range
  drop_range-at true pre ys rest n i k h e =
      subst (λ t. read_range (pre ++ (map some ys ++ rest)) i t ≡ done ys) e
        (read_range-at pre ys rest h)
  drop_range-at false pre ys rest n i k h e = refl

  truncate_at :
      (drops : Bool) (v : FixedVec A) (n : ℕ) (ds : List A)
      → n < v.size
      → drop_range drops v n (v.size - n) ≡ done ds
      → truncate drops v n ≡ done (ds, record v { size = n })
  unfolding truncate set_len
  truncate_at drops v n ds h e =
      let shorter : leb v.size n ≡ false = ground (arith, h) in rw (shorter, e)

  -- a vector whose cells and size are those of the elements `xs ++ ys`, seen apart
  pub truncate_split :
      (drops : Bool) (xs ys : List A) (rest : Cells A) (n : ℕ)
      → n ≡ length xs + length ys
      → truncate drops
          (record { cells = map some xs ++ (map some ys ++ rest); size = n })
          (length xs)
        ≡ done (destroyed drops ys, holding xs (map some ys ++ rest))
  unfolding truncate
  truncate_split drops xs [] rest n e =
      let all : leb n (length xs) ≡ true = ground (arith, e) in
      rw all (
        ap₂ (λ d k. done (d, record { cells = map some xs ++ rest; size = k }))
          (sym (destroyed_nil drops)) (omega arith))
  truncate_split drops xs (y ∷ ys) rest n e =
      truncate_at drops (record { cells = map some xs ++ (map some (y ∷ ys) ++ rest); size = n })
        (length xs) (destroyed drops (y ∷ ys)) (omega arith)
        (drop_range-at drops (map some xs) (y ∷ ys) rest n (length xs) (n - length xs)
          (length-some xs) (omega arith))

  -- `truncate` to a length that is not greater keeps the first elements, and drops the others in
  -- order if they have a destructor.
  pub truncate_lem :
      (drops : Bool) (xs ys : List A) (rest : Cells A)
      → truncate drops (holding (xs ++ ys) rest) (length xs)
        ≡ done (destroyed drops ys, holding xs (map some ys ++ rest))
  truncate_lem drops xs ys rest =
      rw (cells_append xs ys rest)
        (truncate_split drops xs ys rest (length (xs ++ ys)) (length-append xs ys))

  pub truncate_longer :
      (drops : Bool) (xs : List A) (rest : Cells A) (n : ℕ)
      → length xs ≤ n
      → truncate drops (holding xs rest) n ≡ done ([], holding xs rest)
  unfolding truncate
  truncate_longer drops xs rest n h = ground (arith, h)

  pub clear_lem :
      (drops : Bool) (xs : List A) (rest : Cells A)
      → clear drops (holding xs rest) ≡ done (destroyed drops xs, holding [] (map some xs ++ rest))
  unfolding clear set_len
  clear_lem drops xs rest = rw (drop_range-at drops [] xs rest (length xs) 0 (length xs) refl refl)

  pub keep : (A → Bool) → List A → List A
  keep f [] = []
  keep f (x ∷ xs) = if f x then x ∷ keep f xs else keep f xs

  pub reject : (A → Bool) → List A → List A
  reject f [] = []
  reject f (x ∷ xs) = if f x then reject f xs else x ∷ reject f xs

  length-keep : (f : A → Bool) (xs : List A) → length (keep f xs) + length (reject f xs) ≡ length xs
  unfolding keep reject
  length-keep f [] = refl
  length-keep f (x ∷ xs) = ground (arith, length-keep f xs)

  -- the memory of `retain` in the middle of its loop
  abbrev stage : List A → List A → List A → Cells A → Cells A
  stage kept gap todo rest = map some kept ++ (map some gap ++ (map some todo ++ rest))

  swap_self :
      (p : Cells A) (a : A) (rest : Cells A) {i : ℕ}
      → length p ≡ i
      → swap_cells (p ++ (some a ∷ rest)) i i ≡ done (p ++ (some a ∷ rest))
  unfolding swap_cells
  swap_self p a rest h =
      let cells = p ++ (some a ∷ rest) in
      let self = set-append_length p (some a) (some a) rest in
      subst (λ i. swap_cells cells i i ≡ done cells) h
        (rw (get_elem?-append_length p (some a) rest, swap_cells)
          (rw (get_elem?-append_length p (some a) rest, swap_cells)
            (ap (λ (t : Cells A). done t) (ap (λ t. set t (length p) (some a)) self ∙ self))))

  swap_gap :
      (kept gap : List A) (g a : A) (later : Cells A) {i : ℕ}
      → length kept + suc (length gap) ≡ i
      → swap_cells (map some kept ++ (some g ∷ (map some gap ++ (some a ∷ later)))) i (length kept)
        ≡ done (map some (kept ++ (a ∷ [])) ++ (map some (gap ++ (g ∷ [])) ++ later))
  swap_gap kept gap g a later {i} h =
      let p = map some kept in
      let s = map some gap in
      let cells = p ++ (some g ∷ (s ++ (some a ∷ later))) in
      let at : length (p ++ (some g ∷ s)) ≡ i =
        omega (arith, length-append p (some g ∷ s), length-some kept, length-some gap, h) in
      let after : p ++ (some a ∷ (s ++ (some g ∷ later)))
          ≡ map some (kept ++ (a ∷ [])) ++ (map some (gap ++ (g ∷ [])) ++ later) =
        sym (
          cells_split kept a [] (map some (gap ++ (g ∷ [])) ++ later)
          ∙ ap (λ t. p ++ (some a ∷ t)) (cells_split gap g [] later)) in
      rw (← at, ← length-some kept)
        (swap_cells_at p s g a later ∙ ap (λ (t : Cells A). done t) after)

  -- One round that keeps the element moves it down, over the first one of the gap.
  swap_stage :
      (kept gap : List A) (a : A) (todo : List A) (rest : Cells A)
      → (g : List A) × Perm g gap
        × (swap_cells (stage kept gap (a ∷ todo) rest) (length kept + length gap) (length kept)
            ≡ done (stage (kept ++ (a ∷ [])) g todo rest))
        × (length g ≡ length gap)
  swap_stage kept [] a todo rest =
      let e : length kept + 0 ≡ length kept = omega arith in
      (
        [],
        Perm.refl [],
        rw e (
            swap_self (map some kept) a (map some todo ++ rest) (length-some kept)
            ∙ ap (λ (t : Cells A). done t) (sym (cells_split kept a [] (map some todo ++ rest)))),
        refl,
      )
  swap_stage kept (g ∷ gap) a todo rest = (
    gap ++ (g ∷ []),
    perm_append_singleton g gap,
    swap_gap kept gap g a (map some todo ++ rest) refl,
    omega (arith, length-append gap (g ∷ [])),
  )

  retain_pass :
      (f : A → Bool) (cells after : Cells A) (a : A) (i j n : ℕ)
      → f a ≡ true
      → read_cell cells i ≡ done a
      → swap_cells cells i j ≡ done after
      → retain_from f cells i j (suc n) ≡ retain_from f after (i + 1) (j + 1) n
  unfolding retain_from
  retain_pass f cells after a i j n passes hr hs = rw hr (rw (passes, hs))

  retain_fail :
      (f : A → Bool) (cells : Cells A) (a : A) (i j n : ℕ)
      → f a ≡ false
      → read_cell cells i ≡ done a
      → retain_from f cells i j (suc n) ≡ retain_from f cells (i + 1) j n
  unfolding retain_from
  retain_fail f cells a i j n fails hr = rw hr (rw fails)

  read_stage :
      (kept gap : List A) (a : A) (todo : List A) (rest : Cells A)
      → read_cell (stage kept gap (a ∷ todo) rest) (length kept + length gap) ≡ done a
  read_stage kept gap a todo rest =
      let p = map some kept in
      let s = map some gap in
      rw (← append_assoc p s (some a ∷ (map some todo ++ rest))) (
        read_cell-at (p ++ s) a (map some todo ++ rest)
          (omega (arith, length-append p s, length-some kept, length-some gap)))

  -- how the loop ends, for the elements `kept`
  abbrev Ends : (A → Bool) → Cells A → ℕ → ℕ → ℕ → List A → List A → Cells A → Type 0
  Ends f cells i j n kept g rest =
      retain_from f cells i j n ≡ done (length kept, map some kept ++ (map some g ++ rest))

  Ends-at :
      (f : A → Bool) (cells : Cells A) (n : ℕ) (kept g : List A) (rest : Cells A) {i i' j j' : ℕ}
      → i ≡ i'
      → j ≡ j'
      → Ends f cells i j n kept g rest
      → Ends f cells i' j' n kept g rest
  Ends-at f cells n kept g rest {i} {i'} {j} {j'} e1 e2 h =
      subst (λ k. Ends f cells k j' n kept g rest) e1
        (subst (λ k. Ends f cells i k n kept g rest) e2 h)

  -- From the middle of the loop: the kept elements are those that pass, in order, and behind them
  -- stand the rejected ones in some order.
  retain_stage :
      (f : A → Bool) (kept gap todo : List A) (rest : Cells A)
      → (g : List A) × Perm g (gap ++ reject f todo)
        × Ends f
            (stage kept gap todo rest)
            (length kept + length gap)
            (length kept)
            (length todo)
            (kept ++ keep f todo)
            g
            rest
        × (length g ≡ length gap + length (reject f todo))
  unfolding keep reject
  retain_stage f kept gap [] rest =
      (gap, rw append-nil (Perm.refl gap), rw append-nil (unfold retain_from in refl), omega arith)
  retain_stage f kept gap (a ∷ todo) rest = elim (Bool-cases (f a)) [
    | inl passes ↦
        let sw = swap_stage kept gap a todo rest in
        let after = stage (kept ++ (a ∷ [])) sw.0 todo rest in
        let ih = retain_stage f (kept ++ (a ∷ [])) sw.0 todo rest in
        let e1 : length (kept ++ (a ∷ [])) + length sw.0 ≡ length kept + length gap + 1 =
          omega (arith, length-append kept (a ∷ []), sw.3) in
        let e2 : length (kept ++ (a ∷ [])) ≡ length kept + 1 =
          omega (arith, length-append kept (a ∷ [])) in
        rw passes (
          ih.0,
          Perm.trans ih.1 (Perm.append_right (reject f todo) sw.1),
          retain_pass f (stage kept gap (a ∷ todo) rest) (stage (kept ++ (a ∷ [])) sw.0 todo rest) a
                (length kept + length gap) (length kept) (length todo) passes
                (read_stage kept gap a todo rest) sw.2
              ∙ subst
                  (λ x.
                    Ends f after (length kept + length gap + 1) (length kept + 1) (length todo) x
                      ih.0 rest)
                  (append_assoc kept (a ∷ []) (keep f todo))
                  (Ends-at f after (length todo) _ ih.0 rest e1 e2 ih.2),
          omega (arith, ih.3, sw.3),
        )
    | inr fails ↦
        let ih = retain_stage f kept (gap ++ (a ∷ [])) todo rest in
        rw fails (
          ih.0,
          rw append_assoc at ih.1,
          retain_fail f (stage kept gap (a ∷ todo) rest) a (length kept + length gap) (length kept)
                (length todo) fails (read_stage kept gap a todo rest)
              ∙ subst
                  (λ c.
                    Ends f c (length kept + length gap + 1) (length kept) (length todo)
                      (kept ++ keep f todo) ih.0 rest)
                  (ap (λ t. map some kept ++ t) (cells_split gap a [] (map some todo ++ rest)))
                  (Ends-at f (stage kept (gap ++ (a ∷ [])) todo rest) (length todo) _ ih.0 rest
                    (omega (arith, length-append gap (a ∷ []))) refl ih.2),
          omega (arith, ih.3, length-append gap (a ∷ [])),
        )
  ]

  -- `retain` keeps the elements that pass, in their order; the others are, in some order, what it
  -- drops if they have a destructor.
  pub retain_lem :
      (drops : Bool) (f : A → Bool) (xs : List A) (rest : Cells A)
      → (g : List A) × Perm g (reject f xs)
        × (retain drops f (holding xs rest)
            ≡ done (destroyed drops g, holding (keep f xs) (map some g ++ rest)))
  unfolding retain
  retain_lem drops f xs rest =
      let r = retain_stage f [] [] xs rest in
      (
        r.0,
        r.1,
        rw r.2 (
            truncate_split drops (keep f xs) r.0 rest (length xs)
              (omega (arith, r.3, length-keep f xs))),
      )
