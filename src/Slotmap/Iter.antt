-- ===== src/Slotmap/Iter.antt =====
-- `new`, `get_mut`, `iter`, `len` and indexing, against `get`.
use mathlib.Core.List.{flatten}
use hamerkop.Base.{
  ℕ, zero, suc, ◌+◌, ◌*◌, ◌/◌, ◌%◌, ◌<◌, ◌≡◌, refl, ap, Option, none, some, List, [], ◌∷◌, ◌++◌,
  arith, ◌==◌, if◌then◌else◌, length, get_elem?, All, sym, ◌∙◌, ap₂, ◌&&◌, Bool, true, false,
}
use hamerkop.Slotmap.{
  StableSlotmap, Entry, element, link, slab_size, slot_in, slot_at, write_slot, write_slabs, get,
  get_mut, len, iter, new, elements, occupant,
}
use hamerkop.Slotmap.Slots.{
  IsSlab, slot_in-write_slabs, length-write_slabs, write_slabs-All, elements-write_slabs,
  elements-append,
}
use hamerkop.Slotmap.FreeList.{Chain-agree, Chain-vacant}
use hamerkop.Slotmap.Invariant.{Threaded, IsValid, next_at}

abbrev pub is_some : {A : Type 0} → Option A → Bool
is_some none = false
is_some (some _) = true

module _ {A : Type 0} where
  pub new-IsValid : IsValid (new {A = A})
  unfolding new flatten elements slot_in
  new-IsValid = (
    [],
    record {
      slab_sizes = tt;
      chain = refl;
      distinct = tt;
      complete = λ i n h. ground (arith, h);
      counted = refl;
      total = omega arith;
      fits = omega arith;
    },
  )

  abbrev occupied : Option (Entry A) → Option A
  occupied none = none
  occupied (some e) = occupant e

  prepend : Option A → List A → List A
  prepend none xs = xs
  prepend (some a) xs = a ∷ xs

  -- what `f` holds at `0 .. n - 1`, in order
  pub gather : (ℕ → Option A) → ℕ → List A
  gather f zero = []
  gather f (suc n) = prepend (f 0) (gather (λ i. f (suc i)) n)

  gather-agree :
      (f g : ℕ → Option A) (n : ℕ) → ((i : ℕ) → i < n → f i ≡ g i) → gather f n ≡ gather g n
  unfolding gather
  gather-agree f g zero h = refl
  gather-agree f g (suc n) h =
      ap₂ prepend (h 0 (omega arith))
        (gather-agree (λ i. f (suc i)) (λ i. g (suc i)) n (λ i p. h (suc i) (omega arith)))

  prepend-append : (o : Option A) (xs ys : List A) → prepend o (xs ++ ys) ≡ prepend o xs ++ ys
  unfolding prepend
  prepend-append none xs ys = refl
  prepend-append (some a) xs ys = refl

  gather-add :
      (f g : ℕ → Option A) (n k m : ℕ)
      → m ≡ n + k
      → ((i : ℕ) → g i ≡ f (n + i))
      → gather f m ≡ gather f n ++ gather g k
  unfolding gather
  gather-add f g zero k m e h =
      let e' : m ≡ k = omega arith in
      rw e' (gather-agree f g k (λ i p. sym (h i ∙ ap f (omega arith))))
  gather-add f g (suc n) k m e h =
      let e' : m ≡ suc (n + k) = omega arith in
      rw e' (
        ap (prepend (f 0))
          (gather-add (λ i. f (suc i)) g n k (n + k) refl (λ i. h i ∙ ap f (omega arith)))
        ∙ prepend-append (f 0) (gather (λ i. f (suc i)) n) (gather g k))

  elements-gather :
      (xs : List (Entry A)) → elements xs ≡ gather (λ i. occupied (get_elem? xs i)) (length xs)
  unfolding elements gather prepend
  elements-gather [] = refl
  elements-gather (element v ∷ xs) = ap (λ t. v ∷ t) (elements-gather xs)
  elements-gather (link n ∷ xs) = elements-gather xs

  slot_in_first :
      (slab : List (Entry A)) (slabs : List (List (Entry A))) (i : ℕ)
      → i < slab_size
      → slot_in (slab ∷ slabs) i ≡ get_elem? slab i
  unfolding slot_in
  slot_in_first slab slabs i h =
      let q : i / slab_size ≡ 0 = omega arith in
      let r : i % slab_size ≡ i = omega arith in rw (q, r, slot_in)

  abbrev look : List (List (Entry A)) → ℕ → ℕ → Option (Entry A)
  look slabs a b = elim (get_elem? slabs a) [ none ↦ none | some slab ↦ get_elem? slab b ]

  slot_in_rest :
      (slab : List (Entry A)) (slabs : List (List (Entry A))) (i : ℕ)
      → slot_in (slab ∷ slabs) (slab_size + i) ≡ slot_in slabs i
  unfolding slot_in
  slot_in_rest slab slabs i =
      let q : (slab_size + i) / slab_size ≡ suc (i / slab_size) = omega arith in
      let r : (slab_size + i) % slab_size ≡ i % slab_size = omega arith in
      ap₂ (λ (a b : ℕ). look (slab ∷ slabs) a b) q r

  elements-gather_slots :
      (slabs : List (List (Entry A)))
      → All IsSlab slabs
      → elements (flatten slabs)
        ≡ gather (λ i. occupied (slot_in slabs i)) (length slabs * slab_size)
  unfolding flatten
  elements-gather_slots [] a = unfold elements gather in refl
  elements-gather_slots (s ∷ slabs) a =
      elements-append s (flatten slabs)
      ∙ ap₂ ◌++◌
          (elements-gather s
            ∙ ap (gather (λ i. occupied (get_elem? s i))) a.0
            ∙ gather-agree (λ i. occupied (get_elem? s i)) (λ i. occupied (slot_in (s ∷ slabs) i))
                slab_size (λ i p. ap occupied (sym (slot_in_first s slabs i p))))
          (elements-gather_slots slabs a.1)
      ∙ sym (
          gather-add (λ i. occupied (slot_in (s ∷ slabs) i)) (λ i. occupied (slot_in slabs i))
            slab_size (length slabs * slab_size) (suc (length slabs) * slab_size) (omega arith)
            (λ i. ap occupied (sym (slot_in_rest s slabs i))))

  -- On a valid map `iter` yields what `get` returns at the indices in their order, and `len` counts it.
  pub iter_lem :
      (m : StableSlotmap A)
      → IsValid m
      → (iter m ≡ gather (get m) (length m.slabs * slab_size)) × (length (iter m) ≡ len m)
  unfolding iter len
  iter_lem m valid = (
    elements-gather_slots m.slabs valid.1.slab_sizes
        ∙ gather-agree (λ i. occupied (slot_in m.slabs i)) (get m) (length m.slabs * slab_size)
            (λ i p. unfold get slot_at in ground arith),
    sym valid.1.counted,
  )

  overwrite-Threaded :
      (m : StableSlotmap A) (i : ℕ) (v : A) (free : List ℕ) {old : A}
      → Threaded m free
      → slot_at m i ≡ some (element old)
      → Threaded (write_slot m i (element v)) free
  unfolding write_slot slot_at
  overwrite-Threaded m i v free t h =
      let e : Entry A = element v in
      let after = λ (j : ℕ). slot_in-write_slabs m.slabs i j e h in
      record {
        slab_sizes = write_slabs-All m.slabs i e t.slab_sizes;
        chain =
            Chain-agree (next_at m.slabs) (next_at (write_slabs m.slabs i e)) m.head free
              (λ j p.
                let n = Chain-vacant (next_at m.slabs) m.head free j t.chain p in
                ground (arith, after j, n.1))
              t.chain;
        distinct = t.distinct;
        complete = λ j k p. ground (arith, t.complete j k, after j);
        counted = omega (arith, t.counted, elements-write_slabs m.slabs i e h);
        total = omega (arith, t.total, length-write_slabs m.slabs i e);
        fits = omega (arith, t.fits, length-write_slabs m.slabs i e);
      }

  abbrev MutLaw : StableSlotmap A → ℕ → A → Bool × StableSlotmap A → Type 0
  MutLaw m i v r =
      (r.0 ≡ is_some (get m i))
      × ((j : ℕ) → get r.1 j ≡ (if is_some (get m i) && i == j then some v else get m j))
      × (len r.1 ≡ len m)
      × IsValid r.1

  get-overwrite :
      (m : StableSlotmap A) (i j : ℕ) (v : A) {old : A}
      → slot_at m i ≡ some (element old)
      → get (write_slot m i (element v)) j ≡ (if i == j then some v else get m j)
  unfolding get slot_at write_slot
  get-overwrite m i j v h = ground (arith, slot_in-write_slabs m.slabs i j (element v) h)

  get_mut_at :
      (m : StableSlotmap A) (i : ℕ) (v : A) (o : Option (Entry A))
      → IsValid m
      → slot_at m i ≡ o
      → MutLaw m i v (get_mut m i v)
  unfolding len get_mut
  get_mut_at m i v none valid h =
      let e : get m i ≡ none = unfold get in ground (arith, h) in
      rw (e, get_mut) (refl, λ j. refl, refl, valid)
  get_mut_at m i v (some (link n)) valid h =
      let e : get m i ≡ none = unfold get in ground (arith, h) in
      rw (e, get_mut) (refl, λ j. refl, refl, valid)
  get_mut_at m i v (some (element old)) valid h =
      let e : get m i ≡ some old = unfold get in ground (arith, h) in
      rw (e, get_mut)
        (
          refl,
          λ j. get-overwrite m i j v h,
          unfold write_slot in refl,
          (valid.0, overwrite-Threaded m i v valid.0 valid.1 h),
        )

  -- A write through `get_mut` reports whether the index held an element, replaces it if so, and
  -- keeps the map valid, its size and all other elements.
  pub get_mut_lem :
      (m : StableSlotmap A) (i : ℕ) (v : A)
      → IsValid m
      → ((get_mut m i v).0 ≡ is_some (get m i))
        × ((j : ℕ)
            → get (get_mut m i v).1 j ≡ (if is_some (get m i) && i == j then some v else get m j))
        × (len (get_mut m i v).1 ≡ len m)
        × IsValid (get_mut m i v).1
  get_mut_lem m i v valid = get_mut_at m i v (slot_at m i) valid refl
