-- ===== src/Uring/Setup/Resources.antt =====
-- What a ring leaves behind of the mappings and descriptors it took.
use hamerkop.Base.{
  ℕ, zero, suc, ◌^◌, ◌≡◌, refl, ◌∙◌, ap, Bool-cases, inl, inr, ◌&&◌, not, List, ◌∷◌, ◌==◌, ==_refl,
  leb, add32,
}
use hamerkop.Uring.Submission.{IoResult, ok, os_error, sysresult}
use hamerkop.Uring.System.{
  IoUringParams, Event, setup, Kernel, remove_mapping, remove_descriptor, mappings, descriptors,
  IsMmap,
}
use hamerkop.Uring.Setup.{
  IoUringSq, IoUringCq, IoUring, UringParams, Queues, sqes_sz, mmap_queues, unmap_queues, requested,
  write_array, finish_ring, open_ring, with_params, drop,
}
use hamerkop.Uring.Setup.Accounts.{Accounted, mmap_queues-Accounted}

remove_descriptor_head : (fd : ℕ) (ds : List ℕ) → remove_descriptor fd (fd ∷ ds) ≡ ds
unfolding remove_descriptor
remove_descriptor_head fd ds = rw (remove_descriptor, ==_refl fd) refl

pub mappings-write_array :
    (array n : ℕ) (t : List Event) → mappings (write_array array n t) ≡ mappings t
unfolding write_array mappings
mappings-write_array array zero t = refl
mappings-write_array array (suc n) t = mappings-write_array array n t

descriptors-write_array :
    (array n : ℕ) (t : List Event) → descriptors (write_array array n t) ≡ descriptors t
unfolding write_array descriptors
descriptors-write_array array zero t = refl
descriptors-write_array array (suc n) t = descriptors-write_array array n t

-- What is left of the mappings by `unmap_queues` depends on the mappings only.
unmap_queues-mappings :
    (sq : IoUringSq) (cq : IoUringCq) (t u : List Event)
    → mappings t ≡ mappings u
    → mappings (unmap_queues sq cq t) ≡ mappings (unmap_queues sq cq u)
unfolding unmap_queues mappings
unmap_queues-mappings sq cq t u same =
    elim (Bool-cases (not (cq.ring_ptr == 0) && not (cq.ring_ptr == sq.ring_ptr))) [
      | inl e ↦
          rw (unmap_queues, e)
            (ap
              (λ ms.
                remove_mapping cq.ring_ptr cq.ring_sz (remove_mapping sq.ring_ptr sq.ring_sz ms))
              same)
      | inr e ↦ rw (unmap_queues, e) (ap (λ ms. remove_mapping sq.ring_ptr sq.ring_sz ms) same)
    ]

unmap_queues-descriptors :
    (sq : IoUringSq) (cq : IoUringCq) (t : List Event)
    → descriptors (unmap_queues sq cq t) ≡ descriptors t
unfolding unmap_queues descriptors
unmap_queues-descriptors sq cq t =
    elim (Bool-cases (not (cq.ring_ptr == 0) && not (cq.ring_ptr == sq.ring_ptr))) [
      | inl e ↦ rw (unmap_queues, e) refl
      | inr e ↦ rw (unmap_queues, e) refl
    ]

-- An error leaves the process with the mappings and descriptors it had, and so does a ring that is
-- made and dropped, less the mapping of its entries.
pub IsReleased : IoUringParams → List Event → IoResult IoUring × List Event → Type 0
IsReleased p before (os_error code, t) =
    (mappings t ≡ mappings before) × (descriptors t ≡ descriptors before)
IsReleased p before (ok ring, t) =
    (mappings (drop ring t) ≡ (ring.sq.sqes, sqes_sz p) ∷ mappings before)
    × (descriptors (drop ring t) ≡ descriptors before)

finish_ring-IsReleased :
    (kernel : Kernel) (flags fd : ℕ) (p : IoUringParams) (before t : List Event)
    → mappings t ≡ mappings before
    → descriptors t ≡ fd ∷ descriptors before
    → (r : IoResult Queues × List Event) → Accounted (mappings t) (descriptors t) p r
    → IsReleased p before (finish_ring kernel flags fd r)
unfolding finish_ring IsReleased Accounted mappings descriptors drop
finish_ring-IsReleased kernel flags fd p before t same opened (os_error code, u) h = (
  h.0 ∙ same,
  ap (λ ds. remove_descriptor fd ds) (h.1 ∙ opened)
      ∙ remove_descriptor_head fd (descriptors before),
)
finish_ring-IsReleased kernel flags fd p before t same opened (ok (sq, cq), u) h =
    let n = add32 (kernel.load u sq.kring_mask) 1 in
    (
      unmap_queues-mappings sq cq (write_array sq.array n u) u (mappings-write_array sq.array n u)
          ∙ h.0
          ∙ ap (λ ms. (sq.sqes, sqes_sz p) ∷ ms) same,
      ap (λ ds. remove_descriptor fd ds)
            (unmap_queues-descriptors sq cq (write_array sq.array n u)
              ∙ descriptors-write_array sq.array n u
              ∙ h.1
              ∙ opened)
          ∙ remove_descriptor_head fd (descriptors before),
    )

open_ring-IsReleased :
    (kernel : Kernel) (law : IsMmap kernel) (flags entries returned errno : ℕ)
    → (asked p : IoUringParams) (t : List Event)
    → IsReleased p t
        (open_ring kernel flags p (sysresult returned errno) (setup entries asked returned ∷ t))
unfolding open_ring sysresult IsReleased mappings descriptors
open_ring-IsReleased kernel law flags entries returned errno asked p t =
    let t1 : List Event = setup entries asked returned ∷ t in
    elim (Bool-cases (leb (2 ^ 31) returned)) [
      | inl e ↦ rw (open_ring, sysresult, e) (refl, (rw (e) refl))
      | inr e ↦
          rw (open_ring, sysresult, e)
            (finish_ring-IsReleased kernel flags returned p t t1 refl (rw (e) refl)
              (mmap_queues kernel returned p t1) (mmap_queues-Accounted kernel law returned p t1))
    ]

-- Where `mmap` maps neither a mapped page nor the null page: when `with_params` fails, in the setup
-- call or in any of the mappings, with one shared ring or two, the process has the mappings and
-- descriptors it had before. When it succeeds, dropping the ring closes its descriptor and unmaps
-- its rings, but the mapping of its submission queue entries stays.
pub with_params-IsReleased :
    (kernel : Kernel) (law : IsMmap kernel) (entries : ℕ) (params : UringParams) (t : List Event)
    → IsReleased
        (kernel.written t entries (requested params))
        t
        (with_params kernel entries params t)
unfolding with_params
with_params-IsReleased kernel law entries params t =
    let p = requested params in
    let s = kernel.setup t entries p in
    open_ring-IsReleased kernel law params.flags entries s.returned s.errno p
      (kernel.written t entries p) t
