-- ===== src/Uring/RingBuf/Window.antt =====
-- The iterator of a ring against `get`.
use hamerkop.Base.{
  ℕ, zero, suc, ◌+◌, ◌-◌, ◌%◌, ◌^◌, ◌≤◌, ◌<◌, ◌≡◌, refl, sym, ◌∙◌, ap, true, false, Option, none,
  some, List, [], ◌∷◌, ◌++◌, ltb, leb, ◌==◌, length, get_elem?, take, drop, usize_mod, bit_and,
  arith, done, panics, ◌>>=◌, raw_read, ◌⊎◌, inl, inr, get_elem?_of_lt, get_elem?-append_left,
  length-take, length-drop, length-append, take_all,
}
use native.Mathlib.Nat.{pow-le-pow_right}
use hamerkop.Base.Bits.{bit_and_mask, pow_two_pos, mod_small, mod_once}
use hamerkop.Uring.RingBuf.{
  RingBuf, len, get_unchecked, get, backing, slice_range, split_at, into_iter,
}

pub narrow_pow : (k : ℕ) → k < 32 → 2 ^ k ≤ 2 ^ 31
narrow_pow k h = pow-le-pow_right {n = 2} (omega arith) {i = k} {j = 31} (omega arith)

pub le_or_lt : (a b : ℕ) → (a ≤ b) ⊎ (b < a)
le_or_lt a b = ground arith

module _ {A : Type 0} where
  get_elem?-take : (n : ℕ) (xs : List A) (i : ℕ) → i < n → get_elem? (take n xs) i ≡ get_elem? xs i
  get_elem?-take zero xs i h = absurd (omega arith)
  get_elem?-take (suc n) [] i h = refl
  get_elem?-take (suc n) (x ∷ xs) zero h = refl
  get_elem?-take (suc n) (x ∷ xs) (suc i) h = get_elem?-take n xs i (omega arith)

  get_elem?-drop : (n : ℕ) (xs : List A) (i : ℕ) → get_elem? (drop n xs) i ≡ get_elem? xs (n + i)
  get_elem?-drop zero xs i = ap (λ k. get_elem? xs k) {x = i} {y = 0 + i} (omega arith)
  get_elem?-drop (suc n) [] i = refl
  get_elem?-drop (suc n) (x ∷ xs) i =
      get_elem?-drop n xs i
      ∙ ap (λ k. get_elem? (x ∷ xs) k) {x = suc (n + i)} {y = suc n + i} (omega arith)

  get_elem?-append_right :
      (xs ys : List A) (i : ℕ)
      → length xs ≤ i
      → get_elem? (xs ++ ys) i ≡ get_elem? ys (i - length xs)
  get_elem?-append_right [] ys i h = ap (λ k. get_elem? ys k) {x = i} {y = i - 0} (omega arith)
  get_elem?-append_right (x ∷ xs) ys zero h = absurd (omega arith)
  get_elem?-append_right (x ∷ xs) ys (suc i) h =
      get_elem?-append_right xs ys i (omega arith)
      ∙ ap (λ k. get_elem? ys k) {x = i - length xs} {y = suc i - suc (length xs)} (omega arith)

  -- A window of a ring of `2 ^ k` cells, of which `memory` has exactly as many.
  pub record IsRing (k : ℕ) (r : RingBuf A) : Type 0 where
    pub narrow : k < 32
    pub mask_is : r.mask ≡ 2 ^ k - 1
    pub cells_are : length r.memory ≡ 2 ^ k
    pub size_fits : r.size ≤ 2 ^ k

  -- the cell of an index
  abbrev pub cell_at : ℕ → RingBuf A → ℕ → Option A
  cell_at k r i = get_elem? r.memory ((r.offset + i) % 2 ^ k)

  pub masked : (k : ℕ) (r : RingBuf A) (n : ℕ) → IsRing k r → bit_and n r.mask ≡ n % 2 ^ k
  masked k r n ring = ap (λ m. bit_and n m) ring.mask_is ∙ bit_and_mask k n

  pub backing_all : (k : ℕ) (r : RingBuf A) → IsRing k r → backing r ≡ r.memory
  unfolding backing
  backing_all k r ring =
      let small = narrow_pow k ring.narrow in
      let one = pow_two_pos k in
      take_all ((r.mask + 1) % usize_mod) r.memory
        (omega (arith, ring.mask_is, ring.cells_are, small, one))

  -- In a ring of `2 ^ k` cells, `get` at an index within the size reads the cell of that index,
  -- wherever below `2 ^ 32` the window starts.
  pub get_lem :
      (k : ℕ) (r : RingBuf A) (i : ℕ)
      → IsRing k r
      → r.offset < 2 ^ 32
      → i < r.size
      → (a : A) × (get r i ≡ done (some a)) × (cell_at k r i ≡ some a)
  unfolding get get_unchecked len
  get_lem k r i ring low h =
      let small = narrow_pow k ring.narrow in
      let one = pow_two_pos k in
      let found =
        get_elem?_of_lt r.memory ((r.offset + i) % 2 ^ k) (omega (arith, one, ring.cells_are)) in
      let at : bit_and ((r.offset + i) % usize_mod) r.mask ≡ (r.offset + i) % 2 ^ k =
        masked k r ((r.offset + i) % usize_mod) ring
        ∙ ap (λ n. n % 2 ^ k) {x = (r.offset + i) % usize_mod} {y = r.offset + i}
            (omega (arith, small, ring.size_fits, low, h)) in
      let inside : leb r.size i ≡ false = ground (arith, h) in
      (found.0, rw (inside, at) (ap (λ c. raw_read c >>= λ a. done (some a)) found.1), found.1)

  pub get_past : (r : RingBuf A) (i : ℕ) → r.size ≤ i → get r i ≡ done none
  unfolding get len
  get_past r i h = ground (arith, h)

  slice_at :
      (s : List A) (a b : ℕ)
      → a ≤ b
      → b ≤ length s
      → slice_range s a b ≡ done (take (b - a) (drop a s))
  unfolding slice_range
  slice_at s a b h g =
      let order : ltb b a ≡ false = ground (arith, h) in
      let inside : ltb (length s) b ≡ false = ground (arith, g) in rw (order, inside)

  split : (s : List A) (n : ℕ) → n ≤ length s → split_at s n ≡ done (take n s, drop n s)
  unfolding split_at
  split s n h = let inside : ltb (length s) n ≡ false = ground (arith, h) in rw inside

  -- In a ring of `2 ^ k` cells, the iterator of a window that starts inside yields the cells of its
  -- indices in order.
  pub into_iter_lem :
      (k : ℕ) (r : RingBuf A)
      → IsRing k r
      → r.offset < 2 ^ k
      → (xs : List A) × (into_iter r ≡ done xs)
        × (length xs ≡ r.size)
        × ((i : ℕ) → i < r.size → get_elem? xs i ≡ cell_at k r i)
  unfolding into_iter
  into_iter_lem k r ring low =
      let small = narrow_pow k ring.narrow in
      let one = pow_two_pos k in
      let cells = ring.cells_are in
      let fits = ring.size_fits in
      let o = r.offset in
      let n = r.size in
      let end : (o + n) % usize_mod ≡ o + n = omega (arith, small, fits, low) in
      let at : bit_and (o + n) r.mask ≡ (o + n) % 2 ^ k = masked k r (o + n) ring in
      elim (le_or_lt (2 ^ k) (o + n)) [
        | inr below ↦
            let e : ((o + n) % 2 ^ k == o + n) ≡ true =
              ground (arith, mod_small (o + n) (2 ^ k) below) in
            let xs = take n (drop o r.memory) in
            (
              xs,
              rw (end, at, e, backing_all k r ring)
                  (slice_at r.memory o (o + n) (omega arith) (omega (arith, cells, below))
                    ∙ ap (λ j. done (take j (drop o r.memory))) {x = o + n - o} {y = n}
                        (omega arith)),
              omega (arith, length-take n (drop o r.memory), length-drop o r.memory, cells, below),
              λ i h.
                  get_elem?-take n (drop o r.memory) i h
                  ∙ get_elem?-drop o r.memory i
                  ∙ ap (λ j. get_elem? r.memory j) {x = o + i} {y = (o + i) % 2 ^ k}
                      (sym (mod_small (o + i) (2 ^ k) (omega (arith, below, h)))),
            )
        | inl wraps ↦
            let w : (o + n) % 2 ^ k ≡ o + n - 2 ^ k =
              mod_once (o + n) (2 ^ k) wraps (omega (arith, fits, low)) in
            let e : ((o + n) % 2 ^ k == o + n) ≡ false = ground (arith, w, one, wraps) in
            let lower = take o r.memory in
            let upper = drop o r.memory in
            let tail = take ((o + n) % 2 ^ k) lower in
            let la = length-take o r.memory in
            let lb = length-drop o r.memory in
            let lc = length-take ((o + n) % 2 ^ k) lower in
            (
              upper ++ tail,
              rw (end, at, e, backing_all k r ring, split r.memory o (omega (arith, cells, low)))
                  (rw
                    (slice_at lower 0 ((o + n) % 2 ^ k) (omega arith)
                      (omega (arith, la, lb, lc, cells, low, w, fits)))
                    (ap (λ j. done (upper ++ take j lower)) {x = (o + n) % 2 ^ k - 0}
                      {y = (o + n) % 2 ^ k} (omega arith))),
              omega (arith, length-append upper tail, la, lb, lc, cells, w, wraps, fits, low),
              λ i h. elim (le_or_lt (length upper) i) [
                | inr here ↦
                    get_elem?-append_left upper tail i here
                    ∙ get_elem?-drop o r.memory i
                    ∙ ap (λ j. get_elem? r.memory j) {x = o + i} {y = (o + i) % 2 ^ k}
                        (sym (mod_small (o + i) (2 ^ k) (omega (arith, here, la, lb, lc, cells))))
                | inl there ↦
                    get_elem?-append_right upper tail i there
                    ∙ get_elem?-take ((o + n) % 2 ^ k) lower (i - length upper)
                        (omega (arith, there, la, lb, lc, cells, w, wraps, h, low))
                    ∙ get_elem?-take o r.memory (i - length upper)
                        (omega (arith, there, la, lb, lc, cells, fits, h, low))
                    ∙ ap (λ j. get_elem? r.memory j) {x = i - length upper} {y = (o + i) % 2 ^ k}
                        (omega (
                          arith,
                          there,
                          la,
                          lb,
                          lc,
                          cells,
                          low,
                          mod_once (o + i) (2 ^ k) (omega (arith, there, la, lb, lc, cells, low))
                              (omega (arith, h, fits, low)),
                        ))
              ],
            )
      ]

  -- In a ring of `2 ^ k` cells, the iterator of a window that starts behind cell `2 ^ k` and below
  -- `2 ^ 32` panics.
  pub into_iter_panics :
      (k : ℕ) (r : RingBuf A)
      → IsRing k r
      → r.offset < 2 ^ 32
      → 2 ^ k < r.offset
      → into_iter r ≡ panics
  unfolding into_iter split_at
  into_iter_panics k r ring low past =
      let small = narrow_pow k ring.narrow in
      let one = pow_two_pos k in
      let o = r.offset in
      let n = r.size in
      let end : (o + n) % usize_mod ≡ o + n = omega (arith, small, ring.size_fits, low) in
      let at : bit_and (o + n) r.mask ≡ (o + n) % 2 ^ k = masked k r (o + n) ring in
      let e : ((o + n) % 2 ^ k == o + n) ≡ false = ground (arith, one, past) in
      let out : ltb (length r.memory) o ≡ true = ground (arith, past, ring.cells_are) in
      rw (end, at, e, backing_all k r ring, out)
