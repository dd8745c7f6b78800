-- ===== src/FixedVec/Rep.antt =====
-- A vector that holds a list: its elements, and behind them the spare cells. The lemmas say what
-- the raw memory operations do to it.
use mathlib.Core.Path.{subst}
use hamerkop.Base.{
  ℕ, ◌+◌, ◌<◌, ◌≡◌, refl, sym, ◌∙◌, ap, Option, some, List, [], ◌∷◌, ◌++◌, append_assoc, map, arith,
  length, set, take, drop, usize_mod, done, length-append, take-append_length, drop-append_length,
  get_elem?-append_length, set-append_length, length-map,
}
use hamerkop.FixedVec.Cells.{Cells, read_cell, write_cell, read_range, copy_within, copy_between}
use hamerkop.FixedVec.Ops.{FixedVec, capacity}

module _ {A : Type 0} where
  -- the vector of the elements `xs` with the spare cells `rest`
  abbrev pub holding : List A → Cells A → FixedVec A
  holding xs rest = record { cells = map some xs ++ rest; size = length xs }

  -- The allocation is smaller than the address space.
  abbrev pub Fits : List A → Cells A → Type 0
  Fits xs rest = length xs + length rest < usize_mod

  pub capacity-holding :
      (xs : List A) (rest : Cells A) → capacity (holding xs rest) ≡ length xs + length rest
  capacity-holding xs rest =
      omega (arith, length-append (map some xs) rest, length-map (λ (a : A). some a) xs)

  pub map-append : (xs ys : List A) → map some (xs ++ ys) ≡ map some xs ++ map some ys
  map-append [] ys = refl
  map-append (x ∷ xs) ys = ap (λ t. some x ∷ t) (map-append xs ys)

  -- the elements as a prefix, one more element and what follows
  pub cells_split :
      (xs : List A) (x : A) (ys : List A) (rest : Cells A)
      → map some (xs ++ (x ∷ ys)) ++ rest ≡ map some xs ++ (some x ∷ (map some ys ++ rest))
  cells_split [] x ys rest = refl
  cells_split (y ∷ xs) x ys rest = ap (λ t. some y ∷ t) (cells_split xs x ys rest)

  pub cells_append :
      (xs ys : List A) (rest : Cells A)
      → map some (xs ++ ys) ++ rest ≡ map some xs ++ (map some ys ++ rest)
  cells_append [] ys rest = refl
  cells_append (y ∷ xs) ys rest = ap (λ t. some y ∷ t) (cells_append xs ys rest)

  pub length-some : (xs : List A) → length (map (λ (a : A). some a) xs) ≡ length xs
  length-some xs = length-map (λ (a : A). some a) xs

  pub read_cell-at :
      (pre : Cells A) (x : A) (post : Cells A) {i : ℕ}
      → length pre ≡ i
      → read_cell (pre ++ (some x ∷ post)) i ≡ done x
  unfolding read_cell
  read_cell-at pre x post e =
      subst (λ k. read_cell (pre ++ (some x ∷ post)) k ≡ done x) e
        (rw (get_elem?-append_length, read_cell))

  pub write_cell-at :
      (pre : Cells A) (c : Option A) (post : Cells A) (x : A) {i : ℕ}
      → length pre ≡ i
      → write_cell (pre ++ (c ∷ post)) i x ≡ done (pre ++ (some x ∷ post))
  unfolding write_cell
  write_cell-at pre c post x {i} e = ground (
    arith,
    set-append_length pre c (some x) post,
    length-append pre (c ∷ post),
    ap (set (pre ++ (c ∷ post))) e,
  )

  pub read_range-at :
      (pre : Cells A) (xs : List A) (post : Cells A) {i : ℕ}
      → length pre ≡ i
      → read_range (pre ++ (map some xs ++ post)) i (length xs) ≡ done xs
  unfolding read_range
  read_range-at pre [] post e = refl
  read_range-at pre (x ∷ xs) post {i} e =
      let one = some x ∷ [] in
      let later = map some xs ++ post in
      let tail : read_range (pre ++ (some x ∷ later)) (i + 1) (length xs) ≡ done xs =
        subst (λ c. read_range c (i + 1) (length xs) ≡ done xs) (append_assoc pre one later)
          (read_range-at (pre ++ one) xs post (omega (arith, length-append pre one, e))) in
      rw (read_cell-at pre x later e, tail)

  take_of : (cells e x : Cells A) {n : ℕ} → cells ≡ e ++ x → length e ≡ n → take n cells ≡ e
  take_of cells e x h l = subst (λ k. take k cells ≡ e) l (rw h (take-append_length e x))

  drop_of : (cells e x : Cells A) {n : ℕ} → cells ≡ e ++ x → length e ≡ n → drop n cells ≡ x
  drop_of cells e x h l = subst (λ k. drop k cells ≡ x) l (rw h (drop-append_length e x))

  -- A copy within one allocation: `b` moves over `f`.
  pub copy_within-at :
      (cells : Cells A) (from to n : ℕ) (a b c e f g : Cells A)
      → cells ≡ a ++ (b ++ c)
      → length a ≡ from
      → length b ≡ n
      → cells ≡ e ++ (f ++ g)
      → length e ≡ to
      → length f ≡ n
      → copy_within cells from to n ≡ done (e ++ (b ++ g))
  unfolding copy_within
  copy_within-at cells from to n a b c e f g h ha hb k he hf = ground (
    arith,
    length-append a (b ++ c),
    length-append b c,
    length-append e (f ++ g),
    length-append f g,
    length-append e f,
    k ∙ sym (append_assoc e f g),
    take_of cells e (f ++ g) k he,
    drop_of cells a (b ++ c) h ha,
    take_of (b ++ c) b c refl hb,
    drop_of cells (e ++ f) g {n = to + n} (k ∙ sym (append_assoc e f g)),
    ap length h,
    ap length k,
  )

  -- A copy into another allocation.
  pub copy_between-at :
      (src dst : Cells A) (to n : ℕ) (b c e f g : Cells A)
      → src ≡ b ++ c
      → length b ≡ n
      → dst ≡ e ++ (f ++ g)
      → length e ≡ to
      → length f ≡ n
      → copy_between src dst 0 to n ≡ done (e ++ (b ++ g))
  unfolding copy_between
  copy_between-at src dst to n b c e f g h hb k he hf = ground (
    arith,
    length-append b c,
    length-append e (f ++ g),
    length-append f g,
    length-append e f,
    take_of dst e (f ++ g) k he,
    take_of src b c h hb,
    drop_of dst (e ++ f) g {n = to + n} (k ∙ sym (append_assoc e f g)),
    ap length h,
    ap length k,
  )
