-- ===== src/Uring/Setup/Layout.antt =====
-- Where the queues of a ring lie, and the indirection array.
use mathlib.Core.Path.{subst}
use hamerkop.Base.{
  ℕ, zero, suc, ◌+◌, ◌*◌, ◌^◌, ◌≤◌, ◌<◌, ◌≡◌, refl, sym, ◌∙◌, ap, Bool-cases, inl, inr, true, false,
  some, List, ◌∷◌, ◌==◌, ==_refl, arith, add32, u32_mod,
}
use hamerkop.Base.Bits.{mod_small}
use hamerkop.Uring.Submission.{IoResult, ok, os_error, sysresult}
use hamerkop.Uring.System.{
  IoUringParams, Event, mapped, stored, setup, Kernel, map_failed, Mapping, mappings, last_stored,
  ioring_off_sq_ring, ioring_off_cq_ring, ioring_off_sqes,
}
use hamerkop.Uring.Setup.{
  IoUring, UringParams, Queues, single_mmap, sq_ring_sz, cq_ring_sz, sq_need, cq_need, sqes_sz,
  sq_at, cq_at, mmap_sqes, mmap_cq_ring, mmap_queues, requested, write_array, finish_ring,
  open_ring, with_params, u32_size, cqe_size,
}
use hamerkop.Uring.Setup.Accounts.{mappings-mapped_live}
use hamerkop.Uring.Setup.Resources.{mappings-write_array}

-- `size` bytes from `address` lie in one of the mappings.
pub data Covers (address size : ℕ) : List Mapping → Type 0 where
  here :
      (a n : ℕ) (ms : List Mapping)
      → a ≤ address
      → address + size ≤ a + n
      → Covers address size ((a, n) ∷ ms)
  there : (m : Mapping) (ms : List Mapping) → Covers address size ms → Covers address size (m ∷ ms)

sq_need_fits : (p : IoUringParams) → sq_need p ≤ sq_ring_sz p
unfolding sq_ring_sz
sq_need_fits p = ground arith

cq_need_fits : (p : IoUringParams) → cq_need p ≤ cq_ring_sz p
unfolding cq_ring_sz
cq_need_fits p = ground arith

cq_need_shared : (p : IoUringParams) → single_mmap p ≡ true → cq_need p ≤ sq_ring_sz p
unfolding sq_ring_sz
cq_need_shared p single = rw (sq_ring_sz, single) (omega arith)

-- The words of the indirection array, the completions and the submission queue entries are mapped.
Placed : IoUringParams → IoResult Queues × List Event → Type 0
Placed p (os_error code, t) = Unit {0}
Placed p (ok (sq, cq), t) =
    Covers sq.array (p.sq_entries * u32_size) (mappings t)
    × Covers cq.cqes (p.cq_entries * cqe_size) (mappings t)
    × Covers sq.sqes (sqes_sz p) (mappings t)

module _ (kernel : Kernel) (fd : ℕ) (p : IoUringParams) where
  mmap_sqes-Placed :
      (sq_ptr cq_ptr : ℕ) (t : List Event)
      → Covers (sq_ptr + p.sq_off.array) (p.sq_entries * u32_size) (mappings t)
      → Covers (cq_ptr + p.cq_off.cqes) (p.cq_entries * cqe_size) (mappings t)
      → Placed p (mmap_sqes kernel fd p sq_ptr cq_ptr t)
  unfolding mmap_sqes Placed sq_at cq_at
  mmap_sqes-Placed sq_ptr cq_ptr t array cqes =
      let r = (kernel.mmap t (sqes_sz p) fd ioring_off_sqes).returned in
      elim (Bool-cases (r == map_failed)) [
        | inl e ↦ rw (mmap_sqes, e) tt
        | inr e ↦
            let live = mappings-mapped_live (sqes_sz p) fd ioring_off_sqes r t e in
            rw (mmap_sqes, e, live)
              (
                Covers.there (r, sqes_sz p) (mappings t) array,
                Covers.there (r, sqes_sz p) (mappings t) cqes,
                Covers.here r (sqes_sz p) (mappings t) (omega arith) (omega arith),
              )
      ]

  mmap_cq_ring-Placed :
      (sq_ptr : ℕ) (t : List Event) (ms : List Mapping)
      → mappings t ≡ (sq_ptr, sq_ring_sz p) ∷ ms
      → Placed p (mmap_cq_ring kernel fd p sq_ptr t)
  unfolding mmap_cq_ring Placed
  mmap_cq_ring-Placed sq_ptr t ms live =
      let size = cq_ring_sz p in
      let r = (kernel.mmap t size fd ioring_off_cq_ring).returned in
      let array : Covers (sq_ptr + p.sq_off.array) (p.sq_entries * u32_size) (mappings t) =
        subst (λ l. Covers (sq_ptr + p.sq_off.array) (p.sq_entries * u32_size) l) (sym live)
          (Covers.here sq_ptr (sq_ring_sz p) ms (omega arith) (omega (arith, sq_need_fits p))) in
      elim (Bool-cases (single_mmap p)) [
        | inl single ↦
            rw (mmap_cq_ring, single)
              (mmap_sqes-Placed sq_ptr sq_ptr t array (
                subst (λ l. Covers (sq_ptr + p.cq_off.cqes) (p.cq_entries * cqe_size) l) (sym live)
                  (Covers.here sq_ptr (sq_ring_sz p) ms (omega arith)
                    (omega (arith, cq_need_shared p single)))))
        | inr double ↦ elim (Bool-cases (r == map_failed)) [
          | inl e ↦ rw (mmap_cq_ring, double, e) tt
          | inr e ↦
              let now = mappings-mapped_live size fd ioring_off_cq_ring r t e in
              rw (mmap_cq_ring, double, e)
                (mmap_sqes-Placed sq_ptr r (mapped size fd ioring_off_cq_ring r ∷ t)
                  (subst (λ l. Covers (sq_ptr + p.sq_off.array) (p.sq_entries * u32_size) l)
                    (sym now) (Covers.there (r, size) (mappings t) array))
                  (subst (λ l. Covers (r + p.cq_off.cqes) (p.cq_entries * cqe_size) l) (sym now)
                    (Covers.here r size (mappings t) (omega arith)
                      (omega (arith, cq_need_fits p)))))
        ]
      ]

  mmap_queues-Placed : (t : List Event) → Placed p (mmap_queues kernel fd p t)
  unfolding mmap_queues Placed
  mmap_queues-Placed t =
      let size = sq_ring_sz p in
      let r = (kernel.mmap t size fd ioring_off_sq_ring).returned in
      elim (Bool-cases (r == map_failed)) [
        | inl e ↦ rw (mmap_queues, e) tt
        | inr e ↦
            rw (mmap_queues, e)
              (mmap_cq_ring-Placed r (mapped size fd ioring_off_sq_ring r ∷ t) (mappings t)
                (mappings-mapped_live size fd ioring_off_sq_ring r t e))
      ]

-- The ring's arrays are mapped, and the indirection array was written last, as long as the kernel's
-- mask says.
pub IsPlaced : Kernel → IoUringParams → IoResult IoUring × List Event → Type 0
IsPlaced kernel p (os_error code, t) = Unit {0}
IsPlaced kernel p (ok ring, t) =
    Covers ring.sq.array (p.sq_entries * u32_size) (mappings t)
    × Covers ring.cq.cqes (p.cq_entries * cqe_size) (mappings t)
    × Covers ring.sq.sqes (sqes_sz p) (mappings t)
    × ((u : List Event) × (t
          ≡ write_array ring.sq.array (add32 (kernel.load u ring.sq.kring_mask) 1) u))

finish_ring-IsPlaced :
    (kernel : Kernel) (flags fd : ℕ) (p : IoUringParams) (r : IoResult Queues × List Event)
    → Placed p r
    → IsPlaced kernel p (finish_ring kernel flags fd r)
unfolding finish_ring Placed IsPlaced
finish_ring-IsPlaced kernel flags fd p (os_error code, t) h = tt
finish_ring-IsPlaced kernel flags fd p (ok (sq, cq), t) h =
    let n = add32 (kernel.load t sq.kring_mask) 1 in
    rw (mappings-write_array sq.array n t) (h.0, h.1, h.2, (t, refl))

open_ring-IsPlaced :
    (kernel : Kernel) (flags : ℕ) (p : IoUringParams) (r : IoResult ℕ) (t : List Event)
    → IsPlaced kernel p (open_ring kernel flags p r t)
unfolding open_ring IsPlaced
open_ring-IsPlaced kernel flags p (os_error code) t = tt
open_ring-IsPlaced kernel flags p (ok fd) t =
    finish_ring-IsPlaced kernel flags fd p (mmap_queues kernel fd p t)
      (mmap_queues-Placed kernel fd p t)

with_params-IsPlaced :
    (kernel : Kernel) (entries : ℕ) (params : UringParams) (t : List Event)
    → IsPlaced kernel
        (kernel.written t entries (requested params))
        (with_params kernel entries params t)
unfolding with_params
with_params-IsPlaced kernel entries params t =
    let p = requested params in
    let s = kernel.setup t entries p in
    open_ring-IsPlaced kernel params.flags (kernel.written t entries p)
      (sysresult s.returned s.errno) (setup entries p s.returned ∷ t)

stored_here : (at value : ℕ) (t : List Event) → last_stored at (stored at value ∷ t) ≡ some value
unfolding last_stored
stored_here at value t = rw (==_refl at) refl

stored_elsewhere :
    (at address value : ℕ) (t : List Event)
    → (address == at) ≡ false
    → last_stored at (stored address value ∷ t) ≡ last_stored at t
unfolding last_stored
stored_elsewhere at address value t e = rw (e) refl

-- `write_array` leaves in each word its index.
last_stored-write_array :
    (array n i : ℕ) (t : List Event)
    → i < n
    → last_stored (array + i * u32_size) (write_array array n t) ≡ some i
unfolding write_array
last_stored-write_array array zero i t h = absurd (omega arith)
last_stored-write_array array (suc n) i t h = elim (Bool-cases (array + n * 4 == array + i * 4)) [
  | inl e ↦
      let same : n ≡ i = ground arith in
      subst (λ j. last_stored (array + j * 4) (write_array array (suc n) t) ≡ some j) same
        (stored_here (array + n * 4) n (write_array array n t))
  | inr e ↦
      stored_elsewhere (array + i * 4) (array + n * 4) n (write_array array n t) e
      ∙ last_stored-write_array array n i t (ground arith)
]

Covers-part :
    (address size from n : ℕ) (ms : List Mapping)
    → address ≤ from
    → from + n ≤ address + size
    → Covers address size ms
    → Covers from n ms
Covers-part address size from n ms low high (Covers.here a k rest l h) =
    Covers.here a k rest (omega arith) (omega arith)
Covers-part address size from n ms low high (Covers.there m rest c) =
    Covers.there m rest (Covers-part address size from n rest low high c)

-- When `with_params` gives a ring whose mask word holds `n`, below the number of entries of the
-- submission queue, the word of the indirection array at each index up to `n` is mapped and holds
-- that index.
pub with_params-last_stored :
    (kernel : Kernel) (entries : ℕ) (params : UringParams) (t : List Event)
    → (ring : IoUring) (after : List Event) (n i : ℕ)
    → with_params kernel entries params t ≡ (ok ring, after)
    → ((u : List Event) → kernel.load u ring.sq.kring_mask ≡ n)
    → n < (kernel.written t entries (requested params)).sq_entries
    → (kernel.written t entries (requested params)).sq_entries < 2 ^ 32
    → i ≤ n
    → (last_stored (ring.sq.array + i * u32_size) after ≡ some i)
      × Covers (ring.sq.array + i * u32_size) u32_size (mappings after)
unfolding IsPlaced
with_params-last_stored kernel entries params t ring after n i made mask few narrow low =
    let p = kernel.written t entries (requested params) in
    let placed : IsPlaced kernel p (ok ring, after) =
      subst (λ r. IsPlaced kernel p r) made (with_params-IsPlaced kernel entries params t) in
    let u = placed.3.0 in
    let count : add32 (kernel.load u ring.sq.kring_mask) 1 ≡ suc n =
      ap (λ m. add32 m 1) (mask u) ∙ mod_small (n + 1) u32_mod (omega arith) ∙ omega arith in
    let written = placed.3.1 ∙ ap (λ m. write_array ring.sq.array m u) count in
    (
      ap (λ w. last_stored (ring.sq.array + i * u32_size) w) written
          ∙ last_stored-write_array ring.sq.array (suc n) i u (omega arith),
      Covers-part ring.sq.array (p.sq_entries * u32_size) (ring.sq.array + i * u32_size) u32_size
          (mappings after) (omega arith) (omega arith) placed.0,
    )
