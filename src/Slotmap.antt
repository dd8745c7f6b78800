-- ===== src/Slotmap.antt =====
-- hamerkop/src/stable_slotmap.rs: slabs of 1024 entries that never move, with a free list threaded
-- through the vacant ones. A method that takes `&mut self` returns the new map beside its result.
pub mod Slots
pub mod FreeList
pub mod Invariant
pub mod Laws
pub mod Reuse
pub mod Iter
mod Tests
use hamerkop.Base.{
  ℕ, zero, suc, ◌+◌, ◌-◌, ◌*◌, ◌/◌, ◌%◌, ◌^◌, Bool, true, false, Option, none, some, List, [], ◌∷◌,
  ◌++◌, ltb, ◌==◌, if◌then◌else◌, length, get_elem?, set, usize_mod, Outcome, done, panics, ◌>>=◌,
  unwrap,
}
use mathlib.Core.List.{flatten}

-- `usize::MAX`, which is never the index of a slot
abbrev pub sentinel : ℕ
sentinel = 2 ^ 64 - 1

abbrev pub slab_size : ℕ
slab_size = 1024

pub data Entry (A : Type 0) : Type 0 where
  element : A → Entry A
  link : ℕ → Entry A

pub record StableSlotmap (A : Type 0) : Type 0 where
  pub slabs : List (List (Entry A))
  pub head : ℕ
  pub size : ℕ

module _ {A : Type 0} where
  -- the links `base + 1 .. base + n`, and behind them the link to the old head
  pub links : ℕ → ℕ → ℕ → List (Entry A)
  links head zero base = link head ∷ []
  links head (suc n) base = link ((base + 1) % usize_mod) ∷ links head n (base + 1)

  pub create_slab : ℕ → ℕ → List (Entry A)
  create_slab head base = links head (slab_size - 1) base

  unfoldable pub new : StableSlotmap A
  new = record { slabs = []; head = sentinel; size = 0 }

  unfoldable pub len : StableSlotmap A → ℕ
  len m = m.size

  pub is_empty : StableSlotmap A → Bool
  is_empty m = len m == 0

  pub slot_in : List (List (Entry A)) → ℕ → Option (Entry A)
  slot_in slabs index = elim (get_elem? slabs (index / slab_size)) [
    | none ↦ none
    | some slab ↦ get_elem? slab (index % slab_size)
  ]

  pub slot_at : StableSlotmap A → ℕ → Option (Entry A)
  slot_at m index = slot_in m.slabs index

  -- `*entry = e` through the reference that `slot_at_mut` gives
  pub write_slabs : List (List (Entry A)) → ℕ → Entry A → List (List (Entry A))
  write_slabs slabs index e = elim (get_elem? slabs (index / slab_size)) [
    | none ↦ slabs
    | some slab ↦ set slabs (index / slab_size) (set slab (index % slab_size) e)
  ]

  pub write_slot : StableSlotmap A → ℕ → Entry A → StableSlotmap A
  write_slot m index e = record m { slabs = write_slabs m.slabs index e }

  pub expand : StableSlotmap A → StableSlotmap A
  expand m =
      let base = length m.slabs * slab_size % usize_mod in
      record m { slabs = m.slabs ++ (create_slab m.head base ∷ []); head = base }

  -- the map after `next_slot`, which returns its head
  pub next_slot : StableSlotmap A → StableSlotmap A
  next_slot m = if m.head == sentinel then expand m else m

  -- `insert` from the entry that it found on; an occupied one is `unreachable!`
  pub occupy : StableSlotmap A → A → Entry A → Outcome (ℕ × StableSlotmap A)
  occupy m value (element _) = panics
  occupy m value (link next) = done (
    m.head,
    record (write_slot m m.head (element value)) { head = next; size = (m.size + 1) % usize_mod },
  )

  pub insert : StableSlotmap A → A → Outcome (ℕ × StableSlotmap A)
  insert m value =
      let m' = next_slot m in unwrap (slot_at m' m'.head) >>= λ entry. occupy m' value entry

  -- `remove` from the entry that it found on
  pub vacate : StableSlotmap A → ℕ → Entry A → Option A × StableSlotmap A
  vacate m index (link _) = (none, m)
  vacate m index (element value) = (
    some value,
    record (write_slot m index (link m.head)) {
      head = index;
      size = (m.size + usize_mod - 1) % usize_mod;
    },
  )

  pub remove : StableSlotmap A → ℕ → Option A × StableSlotmap A
  remove m index = elim (slot_at m index) [ none ↦ (none, m) | some entry ↦ vacate m index entry ]

  abbrev pub occupant : Entry A → Option A
  occupant (element v) = some v
  occupant (link _) = none

  pub get : StableSlotmap A → ℕ → Option A
  get m index = elim (slot_at m index) [ none ↦ none | some entry ↦ occupant entry ]

  -- `*get_mut(index)? = v`; the flag tells whether there was an element to write to.
  pub get_mut : StableSlotmap A → ℕ → A → Bool × StableSlotmap A
  get_mut m index v = elim (get m index) [
    | none ↦ (false, m)
    | some _ ↦ (true, write_slot m index (element v))
  ]

  pub elements : List (Entry A) → List A
  elements [] = []
  elements (element v ∷ es) = v ∷ elements es
  elements (link _ ∷ es) = elements es

  pub iter : StableSlotmap A → List A
  iter m = elements (flatten m.slabs)

  -- `index` and `index_mut` panic where there is no element.
  pub index : StableSlotmap A → ℕ → Outcome A
  index m i = unwrap (get m i)
