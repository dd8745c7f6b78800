-- ===== src/Slotmap/Laws.antt =====
-- What a user of the slot map may rely on.
use mathlib.Core.Path.{subst}
use hamerkop.Base.{
  ℕ, ◌+◌, ◌-◌, ◌*◌, ◌%◌, ◌≤◌, ◌<◌, ◌≡◌, refl, Option, none, some, List, [], ◌∷◌, arith, ◌==◌,
  if◌then◌else◌, length, length-append, usize_mod, done, sym, ◌∙◌, get_elem?_past,
}
use hamerkop.Slotmap.{
  StableSlotmap, Entry, element, link, slab_size, links, create_slab, slot_at, write_slot, expand,
  next_slot, occupy, vacate, insert, remove, get, len,
}
use hamerkop.Slotmap.Slots.{
  get_elem?-links, slot_past, length-links, lt_of_slot, slot_in-write_slabs, length-write_slabs,
  slot_in-append_one, elements-write_slabs,
}
use hamerkop.Slotmap.Invariant.{
  Threaded, IsValid, HasRoom, next_slot-Threaded, occupy-Threaded, vacate-Threaded,
}

module _ {A : Type 0} where
  -- A new slab holds no element.
  get-expand :
      (m : StableSlotmap A) (j : ℕ)
      → length m.slabs * slab_size < usize_mod
      → (length m.slabs + 1) * slab_size < usize_mod
      → get (expand m) j ≡ get m j
  unfolding get expand slot_at create_slab
  get-expand m j fits room =
      let base = length m.slabs * slab_size in
      let slab = links {A = A} m.head 1023 (base % usize_mod) in
      ground (
        arith,
        length-links A m.head 1023 (base % usize_mod),
        slot_in-append_one m.slabs slab j,
        get_elem?-links {A = A} m.head 1023 (base % usize_mod) (j - base),
        get_elem?_past slab (j - base),
        slot_past m.slabs j,
      )

  get-next_slot :
      {m : StableSlotmap A} (free : List ℕ) (j : ℕ)
      → Threaded m free
      → HasRoom m
      → get (next_slot m) j ≡ get m j
  unfolding next_slot
  get-next_slot {m} free j t room = ground (arith, get-expand m j t.fits, room)

  -- The slot at the head of the free list is vacant.
  pub vacant_head :
      {m : StableSlotmap A} (rest : List ℕ)
      → Threaded m (m.head ∷ rest)
      → (n : ℕ) × (slot_at m m.head ≡ some (link n))
  unfolding slot_at
  vacant_head {m} rest t = (t.chain.1.0, ground (arith, t.chain.1.1))

  abbrev pub weight_of : Option A → ℕ
  weight_of none = 0
  weight_of (some _) = 1

  -- `i` was vacant in `m`, and `m'` is `m` with `v` at `i`.
  pub record Inserted (m : StableSlotmap A) (v : A) (i : ℕ) (m' : StableSlotmap A) : Type 0 where
    pub vacant : get m i ≡ none
    pub gets : (j : ℕ) → get m' j ≡ (if i == j then some v else get m j)
    pub counts : len m' ≡ len m + 1
    pub valid : IsValid m'
    pub in_range : i < length m'.slabs * slab_size
    pub grows : length m'.slabs ≡ length (next_slot m).slabs

  abbrev pub filled : StableSlotmap A → A → ℕ → StableSlotmap A
  filled s v n = record (write_slot s s.head (element v)) {
    head = n;
    size = (s.size + 1) % usize_mod;
  }

  pub get-filled :
      (s : StableSlotmap A) (v : A) (n j : ℕ)
      → slot_at s s.head ≡ some (link n)
      → get (filled s v n) j ≡ (if s.head == j then some v else get s j)
  unfolding get slot_at write_slot
  get-filled s v n j h = ground (arith, slot_in-write_slabs s.slabs s.head j (element v) h)

  length-filled :
      (s : StableSlotmap A) (v : A) (n : ℕ) → length (filled s v n).slabs ≡ length s.slabs
  unfolding write_slot
  length-filled s v n = length-write_slabs s.slabs s.head (element v)

  get_vacant : (s : StableSlotmap A) (i n : ℕ) → slot_at s i ≡ some (link n) → get s i ≡ none
  unfolding get
  get_vacant s i n h = ground (arith, h)

  pub lt_of_slot_at :
      (s : StableSlotmap A) (i : ℕ) {e : Entry A}
      → slot_at s i ≡ some e
      → i < length s.slabs * slab_size
  unfolding slot_at
  lt_of_slot_at s i h = lt_of_slot s.slabs i h

  size-next_slot : (m : StableSlotmap A) → (next_slot m).size ≡ m.size
  unfolding next_slot expand
  size-next_slot m = ground arith

  pub length-next_slot : (m : StableSlotmap A) → length (next_slot m).slabs ≤ length m.slabs + 1
  unfolding next_slot expand
  length-next_slot m = ground (
    arith,
    length-append m.slabs (create_slab m.head (length m.slabs * slab_size % usize_mod) ∷ []),
  )

  len-filled :
      (s : StableSlotmap A) (v : A) (n : ℕ) {free : List ℕ}
      → Threaded s (s.head ∷ free)
      → len (filled s v n) ≡ s.size + 1
  unfolding len
  len-filled s v n t = omega (arith, t.total, t.fits)

  insert_vacant_self :
      (m : StableSlotmap A) (v : A) (n : ℕ)
      → slot_at (next_slot m) (next_slot m).head ≡ some (link n)
      → insert m v ≡ done ((next_slot m).head, filled (next_slot m) v n)
  unfolding insert occupy
  insert_vacant_self m v n h = rw (h, insert)

  -- `insert` from the map that `next_slot` leaves
  pub insert_vacant :
      (m s : StableSlotmap A) (v : A) (n : ℕ)
      → next_slot m ≡ s
      → slot_at s s.head ≡ some (link n)
      → insert m v ≡ done (s.head, filled s v n)
  insert_vacant m s v n e =
      subst (λ s. slot_at s s.head ≡ some (link n) → insert m v ≡ done (s.head, filled s v n)) e
        (insert_vacant_self m v n)

  -- On a valid map that has room to grow, `insert` does not panic: it returns the index of a slot
  -- that was vacant and now holds the value, and changes no other element.
  pub insert_lem :
      (m : StableSlotmap A) (v : A)
      → IsValid m
      → HasRoom m
      → (i : ℕ) × (m' : StableSlotmap A) × (insert m v ≡ done (i, m')) × Inserted m v i m'
  unfolding len
  insert_lem m v valid room =
      let t = next_slot-Threaded valid.0 valid.1 room in
      let s = next_slot m in
      let vac = vacant_head t.0 t.1 in
      let same = λ (j : ℕ). get-next_slot valid.0 j valid.1 room in
      (
        s.head,
        filled s v vac.0,
        insert_vacant m s v vac.0 refl vac.1,
        record {
          vacant = sym (same s.head) ∙ get_vacant s s.head vac.0 vac.1;
          gets = λ j. ground (arith, get-filled s v vac.0 j vac.1, same j);
          counts = omega (arith, len-filled s v vac.0 t.1, size-next_slot m);
          valid = (t.0, occupy-Threaded s v t.0 vac.0 t.1 vac.1);
          in_range = omega (arith, lt_of_slot_at s s.head vac.1, length-filled s v vac.0);
          grows = length-filled s v vac.0;
        },
      )

  -- `m'` is `m` without what stood at `i`.
  pub record Removed (m : StableSlotmap A) (i : ℕ) (m' : StableSlotmap A) : Type 0 where
    pub gets : (j : ℕ) → get m' j ≡ (if i == j then none else get m j)
    pub counts : len m ≡ len m' + weight_of (get m i)
    pub valid : IsValid m'
    pub stays : length m'.slabs ≡ length m.slabs

  abbrev pub emptied : StableSlotmap A → ℕ → StableSlotmap A
  emptied m i = record (write_slot m i (link m.head)) {
    head = i;
    size = (m.size + usize_mod - 1) % usize_mod;
  }

  pub get-emptied :
      (m : StableSlotmap A) (i j : ℕ) {v : A}
      → slot_at m i ≡ some (element v)
      → get (emptied m i) j ≡ (if i == j then none else get m j)
  unfolding get slot_at write_slot
  get-emptied m i j h = ground (arith, slot_in-write_slabs m.slabs i j (link m.head) h)

  length-emptied : (m : StableSlotmap A) (i : ℕ) → length (emptied m i).slabs ≡ length m.slabs
  unfolding write_slot
  length-emptied m i = length-write_slabs m.slabs i (link m.head)

  pub get_occupied :
      (m : StableSlotmap A) (i : ℕ) (v : A) → slot_at m i ≡ some (element v) → get m i ≡ some v
  unfolding get
  get_occupied m i v h = ground (arith, h)

  get_missing : (m : StableSlotmap A) (i : ℕ) → slot_at m i ≡ none → get m i ≡ none
  unfolding get
  get_missing m i h = ground (arith, h)

  pub remove_occupied :
      (m : StableSlotmap A) (i : ℕ) (v : A)
      → slot_at m i ≡ some (element v)
      → remove m i ≡ (some v, emptied m i)
  unfolding remove vacate
  remove_occupied m i v h = rw (h, remove)

  remove_vacant : (m : StableSlotmap A) (i : ℕ) → get m i ≡ none → remove m i ≡ (none, m)
  unfolding remove vacate get
  remove_vacant m i h = ground (arith, h)

  -- An element is counted: there is at least one.
  counted_pos :
      (m : StableSlotmap A) (i : ℕ) (v : A)
      → IsValid m
      → slot_at m i ≡ some (element v)
      → 0 < m.size
  unfolding slot_at
  counted_pos m i v valid h =
      omega (arith, valid.1.counted, elements-write_slabs m.slabs i (link m.head) h)

  abbrev RemoveLaw : StableSlotmap A → ℕ → Option A × StableSlotmap A → Type 0
  RemoveLaw m i r = (r.0 ≡ get m i) × Removed m i r.1 × (get m i ≡ none → r.1 ≡ m)

  RemoveLaw-vacant :
      (m : StableSlotmap A) (i : ℕ) → IsValid m → get m i ≡ none → RemoveLaw m i (remove m i)
  RemoveLaw-vacant m i valid h = rw (remove_vacant m i h) (
    sym h,
    record {
      gets = λ j. ground (arith, h);
      counts = ground (arith, h);
      valid = valid;
      stays = refl;
    },
    λ _. refl,
  )

  RemoveLaw-occupied :
      (m : StableSlotmap A) (i : ℕ) (v : A)
      → IsValid m
      → slot_at m i ≡ some (element v)
      → RemoveLaw m i (remove m i)
  unfolding len
  RemoveLaw-occupied m i v valid h = rw (remove_occupied m i v h) (
    sym (get_occupied m i v h),
    record {
      gets = λ j. get-emptied m i j h;
      counts =
          ground
            (arith, get_occupied m i v h, counted_pos m i v valid h, valid.1.total, valid.1.fits);
      valid = (i ∷ valid.0, vacate-Threaded m i v valid.0 valid.1 h);
      stays = length-emptied m i;
    },
    λ e. absurd (cc (get_occupied m i v h)),
  )

  RemoveLaw-at :
      (m : StableSlotmap A) (i : ℕ) (o : Option (Entry A))
      → IsValid m
      → slot_at m i ≡ o
      → RemoveLaw m i (remove m i)
  RemoveLaw-at m i none valid h = RemoveLaw-vacant m i valid (get_missing m i h)
  RemoveLaw-at m i (some (link n)) valid h = RemoveLaw-vacant m i valid (get_vacant m i n h)
  RemoveLaw-at m i (some (element v)) valid h = RemoveLaw-occupied m i v valid h

  -- On a valid map `remove` returns what `get` returns, and then the index holds nothing; no other
  -- element changes, and where there was none the map stays as it was.
  pub remove_lem :
      (m : StableSlotmap A) (i : ℕ)
      → IsValid m
      → ((remove m i).0 ≡ get m i)
        × Removed m i (remove m i).1
        × (get m i ≡ none → (remove m i).1 ≡ m)
  remove_lem m i valid = RemoveLaw-at m i (slot_at m i) valid refl
