-- ===== src/Uring/System.antt =====
-- What uring/src asks of the kernel when a ring is set up and torn down. The kernel is a parameter:
-- its answer to a call depends on all that the process did before. What the process did is a list
-- of events, the last one first.
use hamerkop.Base.{
  ℕ, ◌-◌, ◌^◌, ◌≢◌, ◌&&◌, List, [], ◌∷◌, if◌then◌else◌, ◌==◌, leb, All, Option, none, some,
}

pub record IoSqringOffsets : Type 0 where
  pub head : ℕ
  pub tail : ℕ
  pub ring_mask : ℕ
  pub ring_entries : ℕ
  pub flags : ℕ
  pub dropped : ℕ
  pub array : ℕ

pub record IoCqringOffsets : Type 0 where
  pub head : ℕ
  pub tail : ℕ
  pub ring_mask : ℕ
  pub ring_entries : ℕ
  pub overflow : ℕ
  pub cqes : ℕ
  pub flags : ℕ

-- The reserved words of the three structures are left out.
pub record IoUringParams : Type 0 where
  pub sq_entries : ℕ
  pub cq_entries : ℕ
  pub flags : ℕ
  pub sq_thread_cpu : ℕ
  pub sq_thread_idle : ℕ
  pub features : ℕ
  pub wq_fd : ℕ
  pub sq_off : IoSqringOffsets
  pub cq_off : IoCqringOffsets

-- a call with what it returned, and a store to memory that the kernel sees
pub data Event : Type 0 where
  setup : ℕ → IoUringParams → (returned : ℕ) → Event
  mapped : (size fd offset returned : ℕ) → Event
  unmapped : (address size : ℕ) → Event
  closed : ℕ → Event
  stored : (address value : ℕ) → Event

-- what a call returns and the `errno` behind it
pub record Answer : Type 0 where
  pub returned : ℕ
  pub errno : ℕ

-- `setup` also writes the parameters; `load` is what a word of shared memory holds.
pub record Kernel : Type 0 where
  pub setup : List Event → ℕ → IoUringParams → Answer
  pub written : List Event → ℕ → IoUringParams → IoUringParams
  pub mmap : List Event → ℕ → ℕ → ℕ → Answer
  pub load : List Event → ℕ → ℕ

-- `!0usize`
abbrev pub map_failed : ℕ
map_failed = 2 ^ 64 - 1

abbrev pub ioring_off_sq_ring : ℕ
ioring_off_sq_ring = 0

abbrev pub ioring_off_cq_ring : ℕ
ioring_off_cq_ring = 134217728

abbrev pub ioring_off_sqes : ℕ
ioring_off_sqes = 268435456

-- its address and its size
abbrev pub Mapping : Type 0
Mapping = ℕ × ℕ

unfoldable pub remove_mapping : ℕ → ℕ → List Mapping → List Mapping
remove_mapping address size [] = []
remove_mapping address size ((a, n) ∷ ms) =
    let rest = remove_mapping address size ms in
    if a == address && n == size then ms else (a, n) ∷ rest

unfoldable pub remove_descriptor : ℕ → List ℕ → List ℕ
remove_descriptor fd [] = []
remove_descriptor fd (d ∷ ds) =
    let rest = remove_descriptor fd ds in if d == fd then ds else d ∷ rest

-- the mappings that the process has made and not undone, the last one first
unfoldable pub mappings : List Event → List Mapping
mappings [] = []
mappings (setup entries p returned ∷ t) = mappings t
mappings (mapped size fd offset returned ∷ t) =
    let rest = mappings t in if returned == map_failed then rest else (returned, size) ∷ rest
mappings (unmapped address size ∷ t) = remove_mapping address size (mappings t)
mappings (closed fd ∷ t) = mappings t
mappings (stored address value ∷ t) = mappings t

-- the rings that the process has opened and not closed
unfoldable pub descriptors : List Event → List ℕ
descriptors [] = []
descriptors (setup entries p returned ∷ t) =
    let rest = descriptors t in if leb (2 ^ 31) returned then rest else returned ∷ rest
descriptors (mapped size fd offset returned ∷ t) = descriptors t
descriptors (unmapped address size ∷ t) = descriptors t
descriptors (closed fd ∷ t) = remove_descriptor fd (descriptors t)
descriptors (stored address value ∷ t) = descriptors t

-- the value last stored at an address
unfoldable pub last_stored : ℕ → List Event → Option ℕ
last_stored at [] = none
last_stored at (setup entries p returned ∷ t) = last_stored at t
last_stored at (mapped size fd offset returned ∷ t) = last_stored at t
last_stored at (unmapped address size ∷ t) = last_stored at t
last_stored at (closed fd ∷ t) = last_stored at t
last_stored at (stored address value ∷ t) =
    let rest = last_stored at t in if address == at then some value else rest

-- `mmap` with no address of the caller's, as documented: it neither chooses a page that is mapped
-- nor the null page.
pub record IsMmap (kernel : Kernel) : Type 0 where
  pub fresh :
      (t : List Event) (size fd offset : ℕ)
      → All (λ m. m.0 ≢ (kernel.mmap t size fd offset).returned) (mappings t)
  pub not_null : (t : List Event) (size fd offset : ℕ) → (kernel.mmap t size fd offset).returned ≢ 0
