-- ===== src/Slotmap/Slots.antt =====
-- The slots of a slot map as a function of the index: what a write and a new slab do to it.
use mathlib.Core.List.{flatten}
use hamerkop.Base.{
  ℕ, zero, suc, ◌+◌, ◌-◌, ◌*◌, ◌/◌, ◌%◌, ◌≤◌, ◌<◌, ◌≡◌, refl, ap, none, some, List, [], ◌∷◌, ◌++◌,
  append-nil, arith, ◌==◌, ltb, if◌then◌else◌, length, get_elem?, set, All, usize_mod, Option-cases,
  inl, inr, ◌∙◌, length-append, length-set, get_elem?-set_self, get_elem?-set_ne, lt_of_get_elem?,
  get_elem?-append_left, get_elem?_past,
}
use hamerkop.Slotmap.{Entry, element, link, slab_size, links, slot_in, write_slabs, elements}

pub length-links : (A : Type 0) (head n base : ℕ) → length (links {A = A} head n base) ≡ suc n
unfolding links
length-links A head zero base = refl
length-links A head (suc n) base = ap suc (length-links A head n (base + 1))

module _ {A : Type 0} where
  -- where a slab of links leads from its `k`-th entry
  pub get_elem?-links :
      (head n base k : ℕ)
      → base + n < usize_mod
      → k ≤ n
      → get_elem? (links {A = A} head n base) k
        ≡ some (link (if k == n then head else base + k + 1))
  unfolding links
  get_elem?-links head zero base zero fits h = refl
  get_elem?-links head zero base (suc k) fits h = absurd (omega arith)
  get_elem?-links head (suc n) base zero fits h = ground arith
  get_elem?-links head (suc n) base (suc k) fits h =
      ground (arith, get_elem?-links head n (base + 1) k (omega arith) (omega arith))

  pub elements-links : (head n base : ℕ) → elements (links {A = A} head n base) ≡ []
  unfolding links elements
  elements-links head zero base = refl
  elements-links head (suc n) base = elements-links head n (base + 1)

  abbrev pub IsSlab : List (Entry A) → Type 0
  IsSlab slab = length slab ≡ slab_size

  pub All-get_elem? :
      (slabs : List (List (Entry A))) (i : ℕ) {slab : List (Entry A)}
      → All IsSlab slabs
      → get_elem? slabs i ≡ some slab
      → length slab ≡ slab_size
  All-get_elem? [] i a h = absurd (cc)
  All-get_elem? (s ∷ slabs) zero a h = ground arith
  All-get_elem? (s ∷ slabs) (suc i) a h = All-get_elem? slabs i (a.1) h

  pub All-set :
      (slabs : List (List (Entry A))) (i : ℕ) (slab : List (Entry A))
      → All IsSlab slabs
      → length slab ≡ slab_size
      → All IsSlab (set slabs i slab)
  All-set [] i slab a h = a
  All-set (s ∷ slabs) zero slab a h = (h, a.1)
  All-set (s ∷ slabs) (suc i) slab a h = (a.0, All-set slabs i slab a.1 h)

  pub All-append_one :
      (slabs : List (List (Entry A))) (slab : List (Entry A))
      → All IsSlab slabs
      → length slab ≡ slab_size
      → All IsSlab (slabs ++ (slab ∷ []))
  All-append_one [] slab a h = (h, tt)
  All-append_one (s ∷ slabs) slab a h = (a.0, All-append_one slabs slab a.1 h)

  -- a slot that exists stands in a slab that exists
  pub slab_of_slot :
      (slabs : List (List (Entry A))) (i : ℕ) {e : Entry A}
      → slot_in slabs i ≡ some e
      → (slab : List (Entry A)) × (get_elem? slabs (i / slab_size) ≡ some slab)
        × (get_elem? slab (i % slab_size) ≡ some e)
  unfolding slot_in
  slab_of_slot slabs i h = elim (Option-cases (get_elem? slabs (i / slab_size))) [
    | inl n ↦ absurd (ground arith)
    | inr (slab, e) ↦ (slab, e, ground arith)
  ]

  pub lt_of_slot :
      (slabs : List (List (Entry A))) (i : ℕ) {e : Entry A}
      → slot_in slabs i ≡ some e
      → i < length slabs * slab_size
  lt_of_slot slabs i h =
      let s = slab_of_slot slabs i h in omega (arith, lt_of_get_elem? slabs (i / slab_size) s.1)

  pub slot_past :
      (slabs : List (List (Entry A))) (i : ℕ)
      → length slabs * slab_size ≤ i
      → slot_in slabs i ≡ none
  unfolding slot_in
  slot_past slabs i h = ground (arith, get_elem?_past slabs (i / slab_size))

  write_in_slab :
      (slabs : List (List (Entry A))) (i j : ℕ) (e : Entry A) (slab : List (Entry A))
      → get_elem? slabs (i / slab_size) ≡ some slab
      → i % slab_size < length slab
      → slot_in (write_slabs slabs i e) j ≡ (if i == j then some e else slot_in slabs j)
  unfolding slot_in write_slabs
  write_in_slab slabs i j e slab h k = ground (
    arith,
    get_elem?-set_self slabs (i / slab_size) (set slab (i % slab_size) e),
    get_elem?-set_ne slabs (i / slab_size) (j / slab_size) (set slab (i % slab_size) e),
    get_elem?-set_self slab (i % slab_size) e,
    get_elem?-set_ne slab (i % slab_size) (j % slab_size) e,
    lt_of_get_elem? slabs (i / slab_size) h,
  )

  -- A write changes the slot that it names, and no other.
  pub slot_in-write_slabs :
      (slabs : List (List (Entry A))) (i j : ℕ) (e : Entry A) {old : Entry A}
      → slot_in slabs i ≡ some old
      → slot_in (write_slabs slabs i e) j ≡ (if i == j then some e else slot_in slabs j)
  slot_in-write_slabs slabs i j e h =
      let s = slab_of_slot slabs i h in
      write_in_slab slabs i j e s.0 s.1 (lt_of_get_elem? s.0 (i % slab_size) s.2)

  pub length-write_slabs :
      (slabs : List (List (Entry A))) (i : ℕ) (e : Entry A)
      → length (write_slabs slabs i e) ≡ length slabs
  unfolding write_slabs
  length-write_slabs slabs i e = elim (Option-cases (get_elem? slabs (i / slab_size))) [
    | inl n ↦ rw (n, write_slabs)
    | inr (slab, s) ↦
        rw (s, write_slabs) (length-set slabs (i / slab_size) (set slab (i % slab_size) e))
  ]

  pub write_slabs-All :
      (slabs : List (List (Entry A))) (i : ℕ) (e : Entry A)
      → All IsSlab slabs
      → All IsSlab (write_slabs slabs i e)
  unfolding write_slabs
  write_slabs-All slabs i e a = elim (Option-cases (get_elem? slabs (i / slab_size))) [
    | inl n ↦ rw (n, write_slabs) a
    | inr (slab, s) ↦
        rw (s, write_slabs)
          (All-set slabs (i / slab_size) (set slab (i % slab_size) e) a
            (length-set slab (i % slab_size) e ∙ All-get_elem? slabs (i / slab_size) a s))
  ]

  get_elem?-append_one :
      (slabs : List (List (Entry A))) (slab : List (Entry A)) (k : ℕ)
      → length slabs ≤ k
      → get_elem? (slabs ++ (slab ∷ [])) k ≡ (if k == length slabs then some slab else none)
  get_elem?-append_one [] slab zero h = refl
  get_elem?-append_one [] slab (suc k) h = ground arith
  get_elem?-append_one (s ∷ slabs) slab zero h = absurd (omega arith)
  get_elem?-append_one (s ∷ slabs) slab (suc k) h =
      ground (arith, get_elem?-append_one slabs slab k (omega arith))

  -- Behind the old slots a new slab adds its own, and no more.
  pub slot_in-append_one :
      (slabs : List (List (Entry A))) (slab : List (Entry A)) (j : ℕ)
      → length slab ≡ slab_size
      → slot_in (slabs ++ (slab ∷ [])) j ≡ (
          if ltb j (length slabs * slab_size)
          then slot_in slabs j
          else get_elem? slab (j - length slabs * slab_size))
  unfolding slot_in
  slot_in-append_one slabs slab j h = ground (
    arith,
    get_elem?-append_left slabs (slab ∷ []) (j / slab_size),
    get_elem?-append_one slabs slab (j / slab_size),
    get_elem?_past slab (j - length slabs * slab_size),
  )

  -- How many elements an entry counts for.
  abbrev pub weight : Entry A → ℕ
  weight (element _) = 1
  weight (link _) = 0

  pub elements-append : (xs ys : List (Entry A)) → elements (xs ++ ys) ≡ elements xs ++ elements ys
  unfolding elements
  elements-append [] ys = refl
  elements-append (element v ∷ xs) ys = ap (λ t. v ∷ t) (elements-append xs ys)
  elements-append (link n ∷ xs) ys = elements-append xs ys

  elements-set :
      (xs : List (Entry A)) (k : ℕ) (e : Entry A) {old : Entry A}
      → get_elem? xs k ≡ some old
      → length (elements (set xs k e)) + weight old ≡ length (elements xs) + weight e
  unfolding elements
  elements-set [] k e h = absurd (cc)
  elements-set (x ∷ xs) zero e h = ground arith
  elements-set (element v ∷ xs) (suc k) e h = omega (arith, elements-set xs k e h)
  elements-set (link v ∷ xs) (suc k) e h = omega (arith, elements-set xs k e h)

  elements-set_slab :
      (slabs : List (List (Entry A))) (k : ℕ) (slab new : List (Entry A))
      → get_elem? slabs k ≡ some slab
      → length (elements (flatten (set slabs k new))) + length (elements slab)
        ≡ length (elements (flatten slabs)) + length (elements new)
  unfolding flatten
  elements-set_slab [] k slab new h = absurd (cc)
  elements-set_slab (s ∷ slabs) zero slab new h = ground (
    arith,
    elements-append new (flatten slabs),
    elements-append s (flatten slabs),
    length-append (elements new) (elements (flatten slabs)),
    length-append (elements s) (elements (flatten slabs)),
  )
  elements-set_slab (s ∷ slabs) (suc k) slab new h = ground (
    arith,
    elements-append s (flatten (set slabs k new)),
    elements-append s (flatten slabs),
    length-append (elements s) (elements (flatten (set slabs k new))),
    length-append (elements s) (elements (flatten slabs)),
    elements-set_slab slabs k slab new h,
  )

  -- A write changes the number of elements by what it puts in and what it takes out.
  pub elements-write_slabs :
      (slabs : List (List (Entry A))) (i : ℕ) (e : Entry A) {old : Entry A}
      → slot_in slabs i ≡ some old
      → length (elements (flatten (write_slabs slabs i e))) + weight old
        ≡ length (elements (flatten slabs)) + weight e
  elements-write_slabs slabs i e h =
      let s = slab_of_slot slabs i h in
      let k = i / slab_size in
      let new = set s.0 (i % slab_size) e in
      let opened : write_slabs slabs i e ≡ set slabs k new =
        unfold write_slabs in rw (s.1, write_slabs) in
      rw opened (
        omega
          (arith, elements-set_slab slabs k s.0 new s.1, elements-set s.0 (i % slab_size) e s.2))

  pub elements-append_one :
      (slabs : List (List (Entry A))) (slab : List (Entry A))
      → elements slab ≡ []
      → length (elements (flatten (slabs ++ (slab ∷ [])))) ≡ length (elements (flatten slabs))
  unfolding flatten elements
  elements-append_one [] slab h = rw (append-nil, h)
  elements-append_one (s ∷ slabs) slab h = ground (
    arith,
    elements-append s (flatten (slabs ++ (slab ∷ []))),
    elements-append s (flatten slabs),
    length-append (elements s) (elements (flatten (slabs ++ (slab ∷ [])))),
    length-append (elements s) (elements (flatten slabs)),
    elements-append_one slabs slab h,
  )
