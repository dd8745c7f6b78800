-- ===== src/Slotmap/Invariant.antt =====
-- The representation invariant of the slot map, and that every operation keeps it.
use mathlib.Core.List.{flatten}
use mathlib.Core.Path.{subst}
use hamerkop.Base.{
  ℕ, ◌+◌, ◌-◌, ◌*◌, ◌%◌, ◌<◌, ◌≡◌, ◌≢◌, refl, Option, none, some, List, [], ◌∷◌, arith, ◌==◌, ltb,
  if◌then◌else◌, length, All, usize_mod, Bool-cases, Option-cases, inl, inr, sym, true, false,
  length-append, get_elem?_past,
}
use hamerkop.Slotmap.{
  StableSlotmap, Entry, element, link, sentinel, slab_size, links, create_slab, slot_in, slot_at,
  write_slot, write_slabs, expand, next_slot, elements,
}
use hamerkop.Slotmap.Slots.{
  get_elem?-links, length-links, elements-links, IsSlab, All-append_one, lt_of_slot,
  slot_in-write_slabs, length-write_slabs, write_slabs-All, slot_in-append_one,
  elements-write_slabs, elements-append_one,
}
use hamerkop.Slotmap.FreeList.{
  next_of, contains, Distinct, Chain, Chain-agree, Chain-vacant, indices, contains-indices,
  indices-Distinct, length-indices, Chain-indices, indices-suc,
}

module _ {A : Type 0} where
  abbrev pub next_at : List (List (Entry A)) → ℕ → Option ℕ
  next_at slabs i = next_of (slot_in slabs i)

  -- `free` lists the vacant slots, each once, in the order of the links from `head`; the size counts
  -- the elements; and the slots have indices that fit a `usize`.
  pub record Threaded (m : StableSlotmap A) (free : List ℕ) : Type 0 where
    pub slab_sizes : All IsSlab m.slabs
    pub chain : Chain (next_at m.slabs) m.head free
    pub distinct : Distinct free
    pub complete : (i n : ℕ) → next_at m.slabs i ≡ some n → contains free i ≡ true
    pub counted : m.size ≡ length (elements (flatten m.slabs))
    pub total : m.size + length free ≡ length m.slabs * slab_size
    pub fits : length m.slabs * slab_size < usize_mod

  abbrev pub IsValid : StableSlotmap A → Type 0
  IsValid m = (free : List ℕ) × Threaded m free

  -- A vacant slot is a slot.
  pub lt_of_next :
      (slabs : List (List (Entry A))) (i : ℕ) {n : ℕ}
      → next_at slabs i ≡ some n
      → i < length slabs * slab_size
  lt_of_next slabs i h = elim (Option-cases (slot_in slabs i)) [
    | inl e ↦ absurd (ground arith)
    | inr (entry, e) ↦ lt_of_slot slabs i e
  ]

  -- The head is the sentinel exactly when no slot is vacant.
  pub free_of_sentinel :
      {m : StableSlotmap A} (free : List ℕ) → Threaded m free → m.head ≡ sentinel → free ≡ []
  free_of_sentinel [] t h = refl
  free_of_sentinel {m} (i ∷ is) t h =
      absurd (omega (arith, lt_of_next m.slabs i t.chain.1.1, t.fits, h, t.chain.0))

  -- the slots behind a new slab, from a full map
  next_at-expand :
      {m : StableSlotmap A} (j : ℕ)
      → Threaded m []
      → (length m.slabs + 1) * slab_size < usize_mod
      → next_at (expand m).slabs j ≡ (
          if ltb j (length m.slabs * slab_size)
          then next_at m.slabs j
          else if ltb j (length m.slabs * slab_size + 1024)
          then some (if j == length m.slabs * slab_size + 1023 then sentinel else j + 1)
          else none)
  unfolding expand create_slab
  next_at-expand {m} j t room =
      let base = length m.slabs * slab_size in
      let slab = links {A = A} m.head 1023 (base % usize_mod) in
      ground (
        arith,
        length-links A m.head 1023 (base % usize_mod),
        slot_in-append_one m.slabs slab j,
        get_elem?-links {A = A} m.head 1023 (base % usize_mod) (j - base),
        get_elem?_past slab (j - base),
        t.chain,
      )

  -- A new slab, from a full map.
  pub expand-Threaded :
      {m : StableSlotmap A}
      → Threaded m []
      → (length m.slabs + 1) * slab_size < usize_mod
      → Threaded (expand m) (indices 1023 (length m.slabs * slab_size))
  unfolding expand create_slab
  expand-Threaded {m} t room =
      let base = length m.slabs * slab_size in
      let slab = links {A = A} m.head 1023 (base % usize_mod) in
      let wraps : base ≡ base % usize_mod = omega arith in
      record {
        slab_sizes =
            All-append_one m.slabs slab t.slab_sizes
              (length-links A m.head 1023 (base % usize_mod));
        chain =
            subst (λ h. Chain (next_at (expand m).slabs) h (indices 1023 base)) wraps
              (Chain-indices (next_at (expand m).slabs) 1023 base
                (λ j p q. ground (arith, next_at-expand j t room)));
        distinct = indices-Distinct 1023 base;
        complete = λ i n h.
            ground (arith, t.complete i n, next_at-expand i t room, contains-indices 1023 base i);
        counted = omega (
          arith,
          t.counted,
          elements-append_one m.slabs slab (elements-links m.head 1023 (base % usize_mod)),
        );
        total = omega (arith, t.total, length-indices 1023 base, length-append m.slabs (slab ∷ []));
        fits = omega (arith, room, length-append m.slabs (slab ∷ []));
      }

  -- what `next_slot` leaves: a map with a vacant slot at its head
  abbrev pub HasRoom : StableSlotmap A → Type 0
  HasRoom m = m.head ≡ sentinel → (length m.slabs + 1) * slab_size < usize_mod

  pub next_slot_full : (m : StableSlotmap A) → m.head ≡ sentinel → next_slot m ≡ expand m
  unfolding next_slot
  next_slot_full m h = ground (arith, h)

  pub next_slot_vacant : (m : StableSlotmap A) → m.head ≢ sentinel → next_slot m ≡ m
  unfolding next_slot
  next_slot_vacant m h = ground (arith, h)

  expand_head-Threaded :
      {m : StableSlotmap A}
      → Threaded m []
      → (length m.slabs + 1) * slab_size < usize_mod
      → Threaded (expand m) ((expand m).head ∷ indices 1022 (length m.slabs * slab_size + 1))
  expand_head-Threaded {m} t room =
      let base = length m.slabs * slab_size in
      let wraps : base ≡ (expand m).head = unfold expand in omega (arith, t.fits) in
      subst (λ h. Threaded (expand m) (h ∷ indices 1022 (base + 1))) wraps
        (rw indices-suc at (expand-Threaded t room))

  pub next_slot-Threaded :
      {m : StableSlotmap A} (free : List ℕ)
      → Threaded m free
      → HasRoom m
      → (rest : List ℕ) × Threaded (next_slot m) ((next_slot m).head ∷ rest)
  next_slot-Threaded {m} [] t room = (
    indices 1022 (length m.slabs * slab_size + 1),
    rw (next_slot_full m t.chain) (expand_head-Threaded t (room t.chain)),
  )
  next_slot-Threaded {m} (i ∷ is) t room =
      let vacant : m.head ≢ sentinel =
        omega (arith, lt_of_next m.slabs i t.chain.1.1, t.fits, t.chain.0) in
      (is, rw (next_slot_vacant m vacant) (subst (λ h. Threaded m (h ∷ is)) (sym t.chain.0) t))

  -- Filling the slot at the head.
  pub occupy-Threaded :
      (m : StableSlotmap A) (v : A) (rest : List ℕ) (n : ℕ)
      → Threaded m (m.head ∷ rest)
      → slot_at m m.head ≡ some (link n)
      → Threaded
          (record (write_slot m m.head (element v)) { head = n; size = (m.size + 1) % usize_mod })
          rest
  unfolding write_slot slot_at
  occupy-Threaded m v rest n t vacant =
      let e : Entry A = element v in
      record {
        slab_sizes = write_slabs-All m.slabs m.head e t.slab_sizes;
        chain =
            Chain-agree (next_at m.slabs) (next_at (write_slabs m.slabs m.head e)) n rest
              (λ j p. ground (arith, t.distinct.0, slot_in-write_slabs m.slabs m.head j e vacant))
              (subst (λ h. Chain (next_at m.slabs) h rest) (ground (arith, t.chain.1.1))
                t.chain.1.2);
        distinct = t.distinct.1;
        complete =
            λ i k h. ground (arith, t.complete i k, slot_in-write_slabs m.slabs m.head i e vacant);
        counted =
            omega (arith, t.counted, t.total, t.fits, elements-write_slabs m.slabs m.head e vacant);
        total = omega (arith, t.total, t.fits, length-write_slabs m.slabs m.head e);
        fits = omega (arith, t.fits, length-write_slabs m.slabs m.head e);
      }

  occupied_not_free :
      (slabs : List (List (Entry A))) (i : ℕ) (v : A) (h : ℕ) (free : List ℕ)
      → Chain (next_at slabs) h free
      → slot_in slabs i ≡ some (element v)
      → contains free i ≡ false
  occupied_not_free slabs i v h free c e = elim (Bool-cases (contains free i)) [
    | inl p ↦ absurd (let n = Chain-vacant (next_at slabs) h free i c p in ground (arith, n.1))
    | inr q ↦ q
  ]

  -- Emptying a slot puts it at the head of the free list.
  pub vacate-Threaded :
      (m : StableSlotmap A) (i : ℕ) (v : A) (free : List ℕ)
      → Threaded m free
      → slot_at m i ≡ some (element v)
      → Threaded
          (record (write_slot m i (link m.head)) {
            head = i;
            size = (m.size + usize_mod - 1) % usize_mod;
          })
          (i ∷ free)
  unfolding write_slot slot_at
  vacate-Threaded m i v free t occupied =
      let e : Entry A = link m.head in
      let taken : contains free i ≡ false =
        occupied_not_free m.slabs i v m.head free t.chain occupied in
      record {
        slab_sizes = write_slabs-All m.slabs i e t.slab_sizes;
        chain = (
          refl,
          (
            m.head,
            ground (arith, slot_in-write_slabs m.slabs i i e occupied),
            Chain-agree (next_at m.slabs) (next_at (write_slabs m.slabs i e)) m.head free
                (λ j p. ground (arith, taken, slot_in-write_slabs m.slabs i j e occupied)) t.chain,
          ),
        );
        distinct = (taken, t.distinct);
        complete =
            λ j k h. ground (arith, t.complete j k, slot_in-write_slabs m.slabs i j e occupied);
        counted =
            omega (arith, t.counted, t.total, t.fits, elements-write_slabs m.slabs i e occupied);
        total = omega (
          arith,
          t.total,
          t.fits,
          t.counted,
          elements-write_slabs m.slabs i e occupied,
          length-write_slabs m.slabs i e,
        );
        fits = omega (arith, t.fits, length-write_slabs m.slabs i e);
      }
