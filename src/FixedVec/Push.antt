-- ===== src/FixedVec/Push.antt =====
-- `push`, `pop`, `insert`, `remove` and `swap_remove` against lists.
use mathlib.Core.Path.{subst}
use hamerkop.Base.{
  ℕ, suc, ◌+◌, ◌-◌, ◌≤◌, ◌<◌, ◌≡◌, ◌⊎◌, refl, sym, ◌∙◌, ap, ap₂, Option, none, some, List, [], ◌∷◌,
  ◌++◌, append_assoc, map, arith, length, get_elem?, set, usize_mod, done, panics, ◌>>=◌,
  length-append, get_elem?-append_length, set-append_length, ltb, leb, ◌==◌, true, false,
}
use hamerkop.FixedVec.Cells.{Cells, read_cell, write_cell, copy_within, swap_cells}
use hamerkop.FixedVec.Ops.{
  FixedVec, is_empty, available, push, pop, insert, remove, swap_remove, swap_last, sub_usize,
  add_usize,
}
use hamerkop.FixedVec.Rep.{
  holding, Fits, capacity-holding, read_cell-at, write_cell-at, copy_within-at, cells_split,
  cells_append, length-some,
}

module _ {A : Type 0} where
  pub available-holding :
      (xs : List A) (rest : Cells A) → Fits xs rest → available (holding xs rest) ≡ length rest
  unfolding available
  available-holding xs rest fits = omega (arith, capacity-holding xs rest)

  -- On a vector smaller than the address space with a spare cell, `push` appends the element.
  pub push_lem :
      (xs : List A) (c : Option A) (rest : Cells A) (x : A)
      → Fits xs (c ∷ rest)
      → push (holding xs (c ∷ rest)) x ≡ done (none, holding (xs ++ (x ∷ [])) rest)
  unfolding push
  push_lem xs c rest x fits =
      let room : (available (holding xs (c ∷ rest)) == 0) ≡ false =
        ground (arith, available-holding xs (c ∷ rest) fits) in
      rw (room, write_cell-at (map some xs) c rest x (length-some xs))
        (ap₂ (λ t n. done (none, record { cells = t; size = n })) (sym (cells_split xs x [] rest))
          (omega (arith, length-append xs (x ∷ []))))

  -- A full vector hands the element back and stays as it is.
  pub push_full :
      (xs : List A) (x : A) → Fits xs [] → push (holding xs []) x ≡ done (some x, holding xs [])
  unfolding push
  push_full xs x fits =
      let full : (available (holding xs []) == 0) ≡ true =
        ground (arith, available-holding xs [] fits) in
      rw full

  pop_at :
      (v : FixedVec A) (n : ℕ) (x : A)
      → v.size ≡ suc n
      → suc n < usize_mod
      → read_cell v.cells n ≡ done x
      → pop v ≡ done (some x, record v { size = n })
  unfolding pop is_empty
  pop_at v n x e small h =
      let occupied : (v.size == 0) ≡ false = ground (arith, e) in
      let last : sub_usize v.size 1 ≡ n = omega arith in rw (occupied, last, h)

  -- On a vector smaller than the address space that is not empty, `pop` takes the last element,
  -- whose cell becomes spare.
  pub pop_lem :
      (xs : List A) (x : A) (rest : Cells A)
      → Fits (xs ++ (x ∷ [])) rest
      → pop (holding (xs ++ (x ∷ [])) rest) ≡ done (some x, holding xs (some x ∷ rest))
  pop_lem xs x rest fits =
      let split = cells_split xs x [] rest in
      let size : length (xs ++ (x ∷ [])) ≡ suc (length xs) =
        omega (arith, length-append xs (x ∷ [])) in
      pop_at (holding (xs ++ (x ∷ [])) rest) (length xs) x size (omega (arith, fits, size))
        (rw split (read_cell-at (map some xs) x rest (length-some xs)))
      ∙ ap (λ c. done (some x, record { cells = c; size = length xs })) split

  pub pop_empty : (rest : Cells A) → pop (holding [] rest) ≡ done (none, holding [] rest)
  unfolding pop is_empty
  pop_empty rest = refl

  -- the cells from an index on, seen one cell further
  shift_one :
      (ys : Cells A) (r : Option A) (rest : Cells A)
      → (c : Option A) × (f : Cells A) × (ys ++ (r ∷ rest) ≡ c ∷ (f ++ rest))
        × (length f ≡ length ys)
  shift_one [] r rest = (r, [], refl, refl)
  shift_one (y ∷ ys) r rest = (
    y,
    ys ++ (r ∷ []),
    ap (λ t. y ∷ t) (sym (append_assoc ys (r ∷ []) rest)),
    omega (arith, length-append ys (r ∷ [])),
  )

  -- the two steps of `insert` in memory
  insert_cells :
      (p s : Cells A) (r : Option A) (rest : Cells A) (x : A) (i n : ℕ)
      → length p ≡ i
      → length s ≡ n
      → (copy_within (p ++ (s ++ (r ∷ rest))) i (i + 1) n >>= λ moved. write_cell moved i x)
        ≡ done (p ++ (some x ∷ (s ++ rest)))
  insert_cells p s r rest x i n hp hs =
      let sh = shift_one s r rest in
      let e = p ++ (sh.0 ∷ []) in
      let cells = p ++ (s ++ (r ∷ rest)) in
      let seen : cells ≡ e ++ (sh.1 ++ rest) =
        ap (λ t. p ++ t) sh.2 ∙ sym (append_assoc p (sh.0 ∷ []) (sh.1 ++ rest)) in
      let moved : copy_within cells i (i + 1) n ≡ done (p ++ (sh.0 ∷ (s ++ rest))) =
        copy_within-at cells i (i + 1) n p s (r ∷ rest) e sh.1 rest refl hp hs seen
          (omega (arith, length-append p (sh.0 ∷ []), hp)) (sh.3 ∙ hs)
        ∙ ap (λ (t : Cells A). done t) (append_assoc p (sh.0 ∷ []) (s ++ rest)) in
      rw moved (write_cell-at p sh.0 (s ++ rest) x hp)

  insert_at :
      (v : FixedVec A) (i n : ℕ) (x : A) (cells : Cells A)
      → v.size ≡ i + n
      → i + n + 1 < usize_mod
      → 0 < available v
      → (copy_within v.cells i (i + 1) n >>= λ moved. write_cell moved i x) ≡ done cells
      → insert v i x ≡ done (record { cells = cells; size = i + n + 1 })
  unfolding insert
  insert_at v i n x cells e small room h =
      let count : sub_usize v.size i ≡ n = omega arith in
      let grown : add_usize v.size 1 ≡ i + n + 1 = omega arith in
      let a1 : leb i v.size ≡ true = ground (arith, e) in
      let a2 : ltb 0 (available v) ≡ true = ground (arith, room) in
      rw (a1, a2, count, grown) (ground (arith, h))

  -- On a vector smaller than the address space with a spare cell, `insert` at an index within the
  -- length puts the element before those from the index on.
  pub insert-holding :
      (xs ys : List A) (r : Option A) (rest : Cells A) (x : A)
      → Fits (xs ++ ys) (r ∷ rest)
      → insert (holding (xs ++ ys) (r ∷ rest)) (length xs) x ≡ done (holding (xs ++ (x ∷ ys)) rest)
  insert-holding xs ys r rest x fits =
      let v = holding (xs ++ ys) (r ∷ rest) in
      let size = length-append xs ys in
      let cells = cells_split xs x ys rest in
      insert_at v (length xs) (length ys) x (map some xs ++ (some x ∷ (map some ys ++ rest))) size
        (omega (arith, fits, size)) (omega (arith, available-holding (xs ++ ys) (r ∷ rest) fits))
        (rw (cells_append xs ys (r ∷ rest)) (
          insert_cells (map some xs) (map some ys) r rest x (length xs) (length ys) (length-some xs)
            (length-some ys)))
      ∙ ap₂ (λ c n. done (record { cells = c; size = n })) (sym cells)
          (omega (arith, length-append xs (x ∷ ys)))

  -- On a vector smaller than the address space, `insert` panics at an index past the length, and at
  -- any index when no cell is spare.
  pub insert_panics :
      (xs : List A) (rest : Cells A) (i : ℕ) (x : A)
      → Fits xs rest
      → (length xs < i) ⊎ (rest ≡ [])
      → insert (holding xs rest) i x ≡ panics
  unfolding insert
  insert_panics xs rest i x fits h = ground (arith, available-holding xs rest fits)

  remove_at :
      (v : FixedVec A) (i n : ℕ) (x : A) (cells : Cells A)
      → v.size ≡ i + suc n
      → i + suc n < usize_mod
      → read_cell v.cells i ≡ done x
      → copy_within v.cells (i + 1) i n ≡ done cells
      → remove v i ≡ done (x, record { cells = cells; size = i + n })
  unfolding remove
  remove_at v i n x cells e small hr hc =
      let a1 : ltb i v.size ≡ true = ground (arith, e) in
      let count : sub_usize (sub_usize v.size i) 1 ≡ n = omega arith in
      let shrunk : sub_usize v.size 1 ≡ i + n = omega arith in rw (a1, hr, count, hc, shrunk)

  -- the same shift, the other way: what stands behind the last cell that is left
  last_cell :
      (x : Option A) (s rest : Cells A)
      → (l : Option A) × (f : Cells A) × (x ∷ (s ++ rest) ≡ f ++ (l ∷ rest)) × (length f ≡ length s)
  last_cell x [] rest = (x, [], refl, refl)
  last_cell x (y ∷ s) rest =
      let r = last_cell y s rest in (r.0, x ∷ r.1, ap (λ t. x ∷ t) r.2, omega (arith, r.3))

  -- On a vector smaller than the address space, `remove` takes the element at an index within the
  -- length and closes the gap; a cell becomes spare.
  pub remove-holding :
      (xs : List A) (x : A) (ys : List A) (rest : Cells A)
      → Fits (xs ++ (x ∷ ys)) rest
      → (c : Option A) × (remove (holding (xs ++ (x ∷ ys)) rest) (length xs)
          ≡ done (x, holding (xs ++ ys) (c ∷ rest)))
  remove-holding xs x ys rest fits =
      let p = map some xs in
      let s = map some ys in
      let l = last_cell (some x) s rest in
      let split = cells_split xs x ys rest in
      let size = length-append xs (x ∷ ys) in
      let moved : copy_within (p ++ (some x ∷ (s ++ rest))) (length xs + 1) (length xs) (length ys)
          ≡ done (p ++ (s ++ (l.0 ∷ rest))) =
        copy_within-at (p ++ (some x ∷ (s ++ rest))) (length xs + 1) (length xs) (length ys)
          (p ++ (some x ∷ [])) s rest p l.1 (l.0 ∷ rest)
          (sym (append_assoc p (some x ∷ []) (s ++ rest)))
          (omega (arith, length-append p (some x ∷ []), length-some xs)) (length-some ys)
          (ap (λ t. p ++ t) l.2) (length-some xs) (omega (arith, l.3, length-some ys)) in
      (
        l.0,
        remove_at (holding (xs ++ (x ∷ ys)) rest) (length xs) (length ys) x
              (p ++ (s ++ (l.0 ∷ rest))) size (omega (arith, fits, size))
              (rw split (read_cell-at p x (s ++ rest) (length-some xs))) (rw split moved)
            ∙ ap₂ (λ c n. done (x, record { cells = c; size = n }))
                (sym (cells_append xs ys (l.0 ∷ rest))) (sym (length-append xs ys)),
      )

  pub remove_panics :
      (xs : List A) (rest : Cells A) (i : ℕ) → length xs ≤ i → remove (holding xs rest) i ≡ panics
  unfolding remove
  remove_panics xs rest i h = ground (arith, h)

  swap_remove_at :
      (v v' : FixedVec A) (i : ℕ) (r : A × FixedVec A)
      → i < v.size
      → swap_last v i ≡ done v'
      → pop v' ≡ done (some r.0, r.1)
      → swap_remove v i ≡ done r
  unfolding swap_remove
  swap_remove_at v v' i r h hs hp =
      let inside : ltb i v.size ≡ true = ground (arith, h) in rw (inside, hs, hp)

  pub swap_cells_at :
      (p s : Cells A) (x z : A) (rest : Cells A)
      → swap_cells (p ++ (some x ∷ (s ++ (some z ∷ rest)))) (length (p ++ (some x ∷ s))) (length p)
        ≡ done (p ++ (some z ∷ (s ++ (some x ∷ rest))))
  unfolding swap_cells
  swap_cells_at p s x z rest =
      let m = p ++ (some x ∷ s) in
      let cells = p ++ (some x ∷ (s ++ (some z ∷ rest))) in
      let assoc : m ++ (some z ∷ rest) ≡ cells = append_assoc p (some x ∷ s) (some z ∷ rest) in
      let g1 : get_elem? cells (length m) ≡ some (some z) =
        subst (λ c. get_elem? c (length m) ≡ some (some z)) assoc
          (get_elem?-append_length m (some z) rest) in
      let g2 = get_elem?-append_length p (some x) (s ++ (some z ∷ rest)) in
      let s1 : set cells (length m) (some x) ≡ p ++ (some x ∷ (s ++ (some x ∷ rest))) =
        subst (λ c. set c (length m) (some x) ≡ p ++ (some x ∷ (s ++ (some x ∷ rest)))) assoc
          (set-append_length m (some z) (some x) rest
            ∙ append_assoc p (some x ∷ s) (some x ∷ rest)) in
      rw (g1, swap_cells)
        (rw (g2, swap_cells)
          (ap (λ (t : Cells A). done t)
            (ap (λ t. set t (length p) (some z)) s1
              ∙ set-append_length p (some x) (some z) (s ++ (some x ∷ rest)))))

  swap_last_at :
      (v : FixedVec A) (i : ℕ) (cells : Cells A)
      → suc i < v.size
      → v.size < usize_mod
      → swap_cells v.cells (v.size - 1) i ≡ done cells
      → swap_last v i ≡ done (record v { cells = cells })
  unfolding swap_last
  swap_last_at v i cells h small hs =
      let other : ltb (add_usize i 1) v.size ≡ true = ground (arith, h, small) in rw (other, hs)

  no_swap_at :
      (v : FixedVec A) (i : ℕ) → suc i ≡ v.size → v.size < usize_mod → swap_last v i ≡ done v
  unfolding swap_last
  no_swap_at v i h small =
      let last : ltb (add_usize i 1) v.size ≡ false = ground (arith, h, small) in rw last

  -- On a vector smaller than the address space, `swap_remove` at an index before the last takes the
  -- element there and puts the last one in its place.
  pub swap_remove_lem :
      (xs : List A) (x : A) (ys : List A) (z : A) (rest : Cells A)
      → Fits (xs ++ (x ∷ (ys ++ (z ∷ [])))) rest
      → swap_remove (holding (xs ++ (x ∷ (ys ++ (z ∷ [])))) rest) (length xs)
        ≡ done (x, holding (xs ++ (z ∷ ys)) (some x ∷ rest))
  swap_remove_lem xs x ys z rest fits =
      let all = xs ++ (x ∷ (ys ++ (z ∷ []))) in
      let kept = xs ++ (z ∷ ys) in
      let p = map some xs in
      let s = map some ys in
      let size : length all ≡ length xs + length ys + 2 =
        omega (arith, length-append xs (x ∷ (ys ++ (z ∷ []))), length-append ys (z ∷ [])) in
      let seen : map some all ++ rest ≡ p ++ (some x ∷ (s ++ (some z ∷ rest))) =
        cells_split xs x (ys ++ (z ∷ [])) rest
        ∙ ap (λ t. p ++ (some x ∷ t)) (cells_split ys z [] rest) in
      let at : length (p ++ (some x ∷ s)) ≡ length all - 1 =
        omega (arith, length-append p (some x ∷ s), length-some xs, length-some ys, size) in
      let swapped : swap_cells (map some all ++ rest) (length all - 1) (length xs)
          ≡ done (p ++ (some z ∷ (s ++ (some x ∷ rest)))) =
        rw (seen, ← at, ← length-some xs) (swap_cells_at p s x z rest) in
      let v' : FixedVec A = record {
        cells = p ++ (some z ∷ (s ++ (some x ∷ rest)));
        size = length all;
      } in
      let count : length (kept ++ (x ∷ [])) ≡ length all =
        omega (arith, size, length-append kept (x ∷ []), length-append xs (z ∷ ys)) in
      let same : v' ≡ holding (kept ++ (x ∷ [])) rest =
        ap₂ (λ c n. record { cells = c; size = n })
          (sym (cells_split kept x [] rest ∙ cells_split xs z ys (some x ∷ rest))) (sym count) in
      swap_remove_at (holding all rest) v' (length xs) (x, holding kept (some x ∷ rest))
        (omega (arith, size))
        (swap_last_at (holding all rest) (length xs) v'.cells (omega (arith, size))
          (omega (arith, fits)) swapped)
        (rw same (pop_lem kept x rest (omega (arith, fits, count))))

  -- At the last index it is `pop`.
  pub swap_remove_last :
      (xs : List A) (x : A) (rest : Cells A)
      → Fits (xs ++ (x ∷ [])) rest
      → swap_remove (holding (xs ++ (x ∷ [])) rest) (length xs)
        ≡ done (x, holding xs (some x ∷ rest))
  swap_remove_last xs x rest fits =
      let v = holding (xs ++ (x ∷ [])) rest in
      let size = length-append xs (x ∷ []) in
      swap_remove_at v v (length xs) (x, holding xs (some x ∷ rest)) (omega (arith, size))
        (no_swap_at v (length xs) (omega (arith, size)) (omega (arith, fits)))
        (pop_lem xs x rest fits)
