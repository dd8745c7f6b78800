-- ===== src/Slotmap/Reuse.antt =====
-- Which index an insertion takes: the one freed last, and one below 65536 while the map stays small.
use hamerkop.Base.{
  ℕ, ◌+◌, ◌-◌, ◌*◌, ◌%◌, ◌^◌, ◌≤◌, ◌<◌, ◌≡◌, ◌≢◌, ap, some, List, [], ◌∷◌, arith, ◌==◌,
  if◌then◌else◌, length, usize_mod, done, Bool-cases, true, ==_iff, inl, inr, ◌∙◌, length-append,
}
use hamerkop.Slotmap.{
  StableSlotmap, element, sentinel, slab_size, slot_at, next_slot, insert, remove, get, len, expand,
  create_slab,
}
use hamerkop.Slotmap.Invariant.{
  Threaded, IsValid, next_slot_vacant, vacate-Threaded, free_of_sentinel,
}
use hamerkop.Slotmap.Laws.{
  filled, emptied, get-filled, get-emptied, insert_vacant, vacant_head, lt_of_slot_at,
  remove_occupied, Inserted, insert_lem,
}

module _ {A : Type 0} where
  slot_of_get :
      (m : StableSlotmap A) (i : ℕ) (v : A) → get m i ≡ some v → slot_at m i ≡ some (element v)
  unfolding get
  slot_of_get m i v h = ground (arith, h)

  insert_at_head :
      (m : StableSlotmap A) (w : A) (rest : List ℕ)
      → Threaded m (m.head ∷ rest)
      → m.head ≢ sentinel
      → (m' : StableSlotmap A) × (insert m w ≡ done (m.head, m'))
        × ((j : ℕ) → get m' j ≡ (if m.head == j then some w else get m j))
  insert_at_head m w rest t ne =
      let vac = vacant_head rest t in
      (
        filled m w vac.0,
        insert_vacant m m w vac.0 (next_slot_vacant m ne) vac.1,
        λ j. get-filled m w vac.0 j vac.1,
      )

  -- On a valid map with an element at the index, the slot that its removal frees is the one that
  -- the next insertion fills, and no other element changes.
  pub insert-remove :
      (m : StableSlotmap A) (i : ℕ) (v w : A)
      → IsValid m
      → get m i ≡ some v
      → (m' : StableSlotmap A) × (insert (remove m i).1 w ≡ done (i, m'))
        × ((j : ℕ) → get m' j ≡ (if i == j then some w else get m j))
  insert-remove m i v w valid h =
      let s = slot_of_get m i v h in
      let t = vacate-Threaded m i v valid.0 valid.1 s in
      let r =
        insert_at_head (emptied m i) w valid.0 t
          (omega (arith, lt_of_slot_at m i s, valid.1.fits)) in
      rw (remove_occupied m i v s) (r.0, r.1, λ j. ground (arith, r.2 j, get-emptied m i j s))

  length-next_slot :
      (m : StableSlotmap A)
      → length (next_slot m).slabs
        ≡ (if m.head == sentinel then length m.slabs + 1 else length m.slabs)
  unfolding next_slot expand
  length-next_slot m = ground (
    arith,
    length-append m.slabs (create_slab m.head (length m.slabs * slab_size % usize_mod) ∷ []),
  )

  -- A map is full when it grows.
  slabs_small :
      (m : StableSlotmap A)
      → IsValid m
      → length m.slabs ≤ 64
      → m.size < 2 ^ 16 - 1
      → length (next_slot m).slabs ≤ 64
  slabs_small m valid small few = elim (Bool-cases (m.head == sentinel)) [
    | inl full ↦
        let none_free = free_of_sentinel valid.0 valid.1 ((==_iff m.head sentinel).0 full) in
        omega (arith, valid.1.total, ap length none_free, ground_full full)
    | inr vacant ↦ rw (next_slot_vacant m (λ e. ground (arith, vacant, e))) small
  ]
    where
      ground_full : (m.head == sentinel) ≡ true → length (next_slot m).slabs ≡ length m.slabs + 1
      ground_full full = length-next_slot m ∙ rw full

  -- While a map has at most 64 slabs and holds fewer than 65535 elements, `insert` gives out an index
  -- below 65536, and leaves at most 64 slabs.
  pub insert-lt-u16 :
      (m : StableSlotmap A) (v : A)
      → IsValid m
      → length m.slabs ≤ 64
      → len m < 2 ^ 16 - 1
      → (i : ℕ) × (m' : StableSlotmap A) × (insert m v ≡ done (i, m'))
        × (i < 2 ^ 16)
        × (length m'.slabs ≤ 64)
        × Inserted m v i m'
  unfolding len
  insert-lt-u16 m v valid small few =
      let r = insert_lem m v valid (λ _. omega (arith, small)) in
      let s = slabs_small m valid small few in
      (r.0, r.1, r.2, omega (arith, r.3.in_range, r.3.grows, s), omega (arith, r.3.grows, s), r.3)
