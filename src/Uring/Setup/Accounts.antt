-- ===== src/Uring/Setup/Accounts.antt =====
-- uring/src/detail.rs: what `mmap_queues` and `unmap_queues` do to the mappings.
use mathlib.Core.Path.{subst}
use hamerkop.Base.{
  ℕ, ◌≡◌, ◌≢◌, refl, sym, ◌∙◌, ap, Bool-cases, inl, inr, true, false, List, [], ◌∷◌, ◌==◌, ==_refl,
  ==_iff, All,
}
use hamerkop.Uring.Submission.{IoResult, ok, os_error}
use hamerkop.Uring.System.{
  IoUringParams, Event, mapped, Kernel, map_failed, Mapping, remove_mapping, mappings, descriptors,
  IsMmap, ioring_off_sq_ring, ioring_off_cq_ring, ioring_off_sqes,
}
use hamerkop.Uring.Setup.{
  Queues, single_mmap, sq_ring_sz, cq_ring_sz, sqes_sz, sq_at, cq_at, mmap_sqes, mmap_cq_ring,
  mmap_queues, unmap_queues,
}

==_false : (a b : ℕ) → a ≢ b → (a == b) ≡ false
==_false a b apart = elim (Bool-cases (a == b)) [
  | inl e ↦ absurd (apart ((==_iff a b).0 e))
  | inr e ↦ e
]

remove_mapping_head : (a n : ℕ) (ms : List Mapping) → remove_mapping a n ((a, n) ∷ ms) ≡ ms
unfolding remove_mapping
remove_mapping_head a n ms = rw (remove_mapping, ==_refl a, ==_refl n) refl

remove_mapping_next :
    (a n b k : ℕ) (ms : List Mapping)
    → b ≢ a
    → remove_mapping a n ((b, k) ∷ ms) ≡ (b, k) ∷ remove_mapping a n ms
unfolding remove_mapping
remove_mapping_next a n b k ms apart = rw (remove_mapping, ==_false b a apart) refl

remove_mapping_fresh :
    (a n : ℕ) (ms : List Mapping) → All (λ m. m.0 ≢ a) ms → remove_mapping a n ms ≡ ms
unfolding remove_mapping
remove_mapping_fresh a n [] h = refl
remove_mapping_fresh a n ((b, k) ∷ ms) h =
    remove_mapping_next a n b k ms h.0
    ∙ ap (λ rest. (b, k) ∷ rest) (remove_mapping_fresh a n ms h.1)

mappings-mapped_failed :
    (size fd offset returned : ℕ) (t : List Event)
    → (returned == map_failed) ≡ true
    → mappings (mapped size fd offset returned ∷ t) ≡ mappings t
unfolding mappings
mappings-mapped_failed size fd offset returned t e = rw (e) refl

pub mappings-mapped_live :
    (size fd offset returned : ℕ) (t : List Event)
    → (returned == map_failed) ≡ false
    → mappings (mapped size fd offset returned ∷ t) ≡ (returned, size) ∷ mappings t
unfolding mappings
mappings-mapped_live size fd offset returned t e = rw (e) refl

-- A failure leaves the mappings as they were; a success leaves only the entries' mapping when the
-- queues are unmapped. No descriptor is opened or closed.
unfoldable pub Accounted :
    List Mapping → List ℕ → IoUringParams → IoResult Queues × List Event → Type 0
Accounted before opened p (os_error code, t) = (mappings t ≡ before) × (descriptors t ≡ opened)
Accounted before opened p (ok (sq, cq), t) =
    (mappings (unmap_queues sq cq t) ≡ (sq.sqes, sqes_sz p) ∷ before) × (descriptors t ≡ opened)

module _ (kernel : Kernel) (law : IsMmap kernel) (fd : ℕ) (p : IoUringParams) where
  mmap_sqes-Accounted :
      (sq_ptr cq_ptr : ℕ) (t : List Event) (before : List Mapping)
      → (remove_mapping cq_ptr (cq_ring_sz p) (remove_mapping sq_ptr (sq_ring_sz p) (mappings t))
          ≡ before)
      → ((sqes : ℕ) (u : List Event)
          → All (λ m. m.0 ≢ sqes) (mappings t)
          → mappings u ≡ (sqes, sqes_sz p) ∷ mappings t
          → mappings (unmap_queues (sq_at p sq_ptr sqes) (cq_at p cq_ptr) u)
            ≡ (sqes, sqes_sz p) ∷ before)
      → Accounted before (descriptors t) p (mmap_sqes kernel fd p sq_ptr cq_ptr t)
  unfolding mmap_sqes Accounted sq_at mappings remove_mapping descriptors
  mmap_sqes-Accounted sq_ptr cq_ptr t before failing succeeding =
      let r = (kernel.mmap t (sqes_sz p) fd ioring_off_sqes).returned in
      elim (Bool-cases (r == map_failed)) [
        | inl e ↦
            rw (mmap_sqes, e)
              (
                ap
                      (λ ms.
                        remove_mapping cq_ptr (cq_ring_sz p)
                          (remove_mapping sq_ptr (sq_ring_sz p) ms))
                      (mappings-mapped_failed (sqes_sz p) fd ioring_off_sqes r t e)
                    ∙ failing,
                refl,
              )
        | inr e ↦
            rw (mmap_sqes, e)
              (
                succeeding r (mapped (sqes_sz p) fd ioring_off_sqes r ∷ t)
                    (law.fresh t (sqes_sz p) fd ioring_off_sqes)
                    (mappings-mapped_live (sqes_sz p) fd ioring_off_sqes r t e),
                refl,
              )
      ]

-- unmapping one shared ring, and two rings
unmap_shared :
    (p : IoUringParams) (sq_ptr sqes : ℕ) (u : List Event) (before : List Mapping)
    → sq_ptr ≢ sqes
    → mappings u ≡ (sqes, sqes_sz p) ∷ (sq_ptr, sq_ring_sz p) ∷ before
    → mappings (unmap_queues (sq_at p sq_ptr sqes) (cq_at p sq_ptr) u) ≡ (sqes, sqes_sz p) ∷ before
unfolding unmap_queues sq_at cq_at mappings
unmap_shared p sq_ptr sqes u before apart live =
    let one : remove_mapping sq_ptr (sq_ring_sz p) (mappings u) ≡ (sqes, sqes_sz p) ∷ before =
      ap (λ ms. remove_mapping sq_ptr (sq_ring_sz p) ms) live
      ∙ remove_mapping_next sq_ptr (sq_ring_sz p) sqes (sqes_sz p) ((sq_ptr, sq_ring_sz p) ∷ before)
          (λ e. apart (sym e))
      ∙ ap (λ ms. (sqes, sqes_sz p) ∷ ms) (remove_mapping_head sq_ptr (sq_ring_sz p) before) in
    elim (Bool-cases (sq_ptr == 0)) [
      | inl e ↦ rw (unmap_queues, sq_at, cq_at, e) one
      | inr e ↦ rw (unmap_queues, sq_at, cq_at, e, ==_refl sq_ptr) one
    ]

unmap_apart :
    (p : IoUringParams) (sq_ptr cq_ptr sqes : ℕ) (u : List Event) (before : List Mapping)
    → sq_ptr ≢ sqes
    → cq_ptr ≢ sqes
    → sq_ptr ≢ cq_ptr
    → cq_ptr ≢ 0
    → mappings u ≡ (sqes, sqes_sz p) ∷ (cq_ptr, cq_ring_sz p) ∷ (sq_ptr, sq_ring_sz p) ∷ before
    → mappings (unmap_queues (sq_at p sq_ptr sqes) (cq_at p cq_ptr) u) ≡ (sqes, sqes_sz p) ∷ before
unfolding unmap_queues sq_at cq_at mappings
unmap_apart p sq_ptr cq_ptr sqes u before apart cq_apart rings_apart not_null live =
    let size = sq_ring_sz p in
    let one : remove_mapping sq_ptr size (mappings u)
        ≡ (sqes, sqes_sz p) ∷ (cq_ptr, cq_ring_sz p) ∷ before =
      ap (λ ms. remove_mapping sq_ptr size ms) live
      ∙ remove_mapping_next sq_ptr size sqes (sqes_sz p)
          ((cq_ptr, cq_ring_sz p) ∷ (sq_ptr, size) ∷ before) (λ e. apart (sym e))
      ∙ ap (λ ms. (sqes, sqes_sz p) ∷ ms)
          (remove_mapping_next sq_ptr size cq_ptr (cq_ring_sz p) ((sq_ptr, size) ∷ before)
              (λ e. rings_apart (sym e))
            ∙ ap (λ ms. (cq_ptr, cq_ring_sz p) ∷ ms) (remove_mapping_head sq_ptr size before)) in
    let both : remove_mapping cq_ptr (cq_ring_sz p) (remove_mapping sq_ptr size (mappings u))
        ≡ (sqes, sqes_sz p) ∷ before =
      ap (λ ms. remove_mapping cq_ptr (cq_ring_sz p) ms) one
      ∙ remove_mapping_next cq_ptr (cq_ring_sz p) sqes (sqes_sz p) ((cq_ptr, cq_ring_sz p) ∷ before)
          (λ e. cq_apart (sym e))
      ∙ ap (λ ms. (sqes, sqes_sz p) ∷ ms) (remove_mapping_head cq_ptr (cq_ring_sz p) before) in
    rw
      (
        unmap_queues,
        sq_at,
        cq_at,
        ==_false cq_ptr 0 not_null,
        ==_false cq_ptr sq_ptr (λ e. rings_apart (sym e)),
      )
      both

module _ (kernel : Kernel) (law : IsMmap kernel) (fd : ℕ) (p : IoUringParams) where
  mmap_sqes_shared :
      (sq_ptr : ℕ) (t : List Event) (before : List Mapping)
      → All (λ m. m.0 ≢ sq_ptr) before
      → mappings t ≡ (sq_ptr, sq_ring_sz p) ∷ before
      → Accounted before (descriptors t) p (mmap_sqes kernel fd p sq_ptr sq_ptr t)
  mmap_sqes_shared sq_ptr t before fresh live =
      mmap_sqes-Accounted kernel law fd p sq_ptr sq_ptr t before
        (ap (λ ms. remove_mapping sq_ptr (cq_ring_sz p) (remove_mapping sq_ptr (sq_ring_sz p) ms))
            live
          ∙ ap (λ ms. remove_mapping sq_ptr (cq_ring_sz p) ms)
              (remove_mapping_head sq_ptr (sq_ring_sz p) before)
          ∙ remove_mapping_fresh sq_ptr (cq_ring_sz p) before fresh)
        (λ sqes u apart now.
          let here = subst (λ ms. All (λ m. m.0 ≢ sqes) ms) live apart in
          unmap_shared p sq_ptr sqes u before here.0 (now ∙ ap (λ ms. (sqes, sqes_sz p) ∷ ms) live))

  mmap_sqes_apart :
      (sq_ptr cq_ptr : ℕ) (t : List Event) (before : List Mapping)
      → sq_ptr ≢ cq_ptr
      → cq_ptr ≢ 0
      → mappings t ≡ (cq_ptr, cq_ring_sz p) ∷ (sq_ptr, sq_ring_sz p) ∷ before
      → Accounted before (descriptors t) p (mmap_sqes kernel fd p sq_ptr cq_ptr t)
  mmap_sqes_apart sq_ptr cq_ptr t before apart not_null live =
      mmap_sqes-Accounted kernel law fd p sq_ptr cq_ptr t before
        (ap (λ ms. remove_mapping cq_ptr (cq_ring_sz p) (remove_mapping sq_ptr (sq_ring_sz p) ms))
            live
          ∙ ap (λ ms. remove_mapping cq_ptr (cq_ring_sz p) ms)
              (remove_mapping_next sq_ptr (sq_ring_sz p) cq_ptr (cq_ring_sz p)
                  ((sq_ptr, sq_ring_sz p) ∷ before) (λ e. apart (sym e))
                ∙ ap (λ ms. (cq_ptr, cq_ring_sz p) ∷ ms)
                    (remove_mapping_head sq_ptr (sq_ring_sz p) before))
          ∙ remove_mapping_head cq_ptr (cq_ring_sz p) before)
        (λ sqes u fresh now.
          let here = subst (λ ms. All (λ m. m.0 ≢ sqes) ms) live fresh in
          unmap_apart p sq_ptr cq_ptr sqes u before here.1.0 here.0 apart not_null
            (now ∙ ap (λ ms. (sqes, sqes_sz p) ∷ ms) live))

  mmap_cq_ring-Accounted :
      (sq_ptr : ℕ) (t : List Event) (before : List Mapping)
      → All (λ m. m.0 ≢ sq_ptr) before
      → mappings t ≡ (sq_ptr, sq_ring_sz p) ∷ before
      → Accounted before (descriptors t) p (mmap_cq_ring kernel fd p sq_ptr t)
  unfolding mmap_cq_ring Accounted mappings remove_mapping descriptors
  mmap_cq_ring-Accounted sq_ptr t before fresh live =
      let size = cq_ring_sz p in
      let r = (kernel.mmap t size fd ioring_off_cq_ring).returned in
      elim (Bool-cases (single_mmap p)) [
        | inl single ↦ rw (mmap_cq_ring, single) (mmap_sqes_shared sq_ptr t before fresh live)
        | inr double ↦ elim (Bool-cases (r == map_failed)) [
          | inl e ↦
              rw (mmap_cq_ring, double, e)
                (
                  ap (λ ms. remove_mapping sq_ptr (sq_ring_sz p) ms)
                        (mappings-mapped_failed size fd ioring_off_cq_ring r t e ∙ live)
                      ∙ remove_mapping_head sq_ptr (sq_ring_sz p) before,
                  refl,
                )
          | inr e ↦
              let here =
                subst (λ ms. All (λ m. m.0 ≢ r) ms) live (law.fresh t size fd ioring_off_cq_ring) in
              rw (mmap_cq_ring, double, e)
                (mmap_sqes_apart sq_ptr r (mapped size fd ioring_off_cq_ring r ∷ t) before here.0
                  (law.not_null t size fd ioring_off_cq_ring)
                  (mappings-mapped_live size fd ioring_off_cq_ring r t e
                    ∙ ap (λ ms. (r, size) ∷ ms) live))
        ]
      ]

  pub mmap_queues-Accounted :
      (t : List Event) → Accounted (mappings t) (descriptors t) p (mmap_queues kernel fd p t)
  unfolding mmap_queues Accounted descriptors
  mmap_queues-Accounted t =
      let size = sq_ring_sz p in
      let r = (kernel.mmap t size fd ioring_off_sq_ring).returned in
      let t1 : List Event = mapped size fd ioring_off_sq_ring r ∷ t in
      elim (Bool-cases (r == map_failed)) [
        | inl e ↦
            rw (mmap_queues, e) (mappings-mapped_failed size fd ioring_off_sq_ring r t e, refl)
        | inr e ↦
            rw (mmap_queues, e)
              (mmap_cq_ring-Accounted r t1 (mappings t) (law.fresh t size fd ioring_off_sq_ring)
                (mappings-mapped_live size fd ioring_off_sq_ring r t e))
      ]
