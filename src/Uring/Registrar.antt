-- ===== src/Uring/Registrar.antt =====
-- uring/src/registrar.rs: what a ring registers with the kernel. The system call is a parameter. An
-- argument that is a pointer is what the kernel finds there.
pub mod Serve
mod Tests
use hamerkop.Base.{
  ℕ, ◌-◌, ◌%◌, List, [], ◌∷◌, leb, assert, u32_mod, Outcome, done, panics, ◌>>=◌, ◌>>◌, length,
}
use hamerkop.Uring.Submission.{IoResult, ok, os_error, sysresult}
use hamerkop.Uring.System.{Answer}

abbrev pub ioring_register_buffers : ℕ
ioring_register_buffers = 0

abbrev pub ioring_unregister_buffers : ℕ
ioring_unregister_buffers = 1

abbrev pub ioring_register_files : ℕ
ioring_register_files = 2

abbrev pub ioring_unregister_files : ℕ
ioring_unregister_files = 3

abbrev pub ioring_register_eventfd : ℕ
ioring_register_eventfd = 4

abbrev pub ioring_unregister_eventfd : ℕ
ioring_unregister_eventfd = 5

abbrev pub ioring_register_files_update : ℕ
ioring_register_files_update = 6

abbrev pub ioring_register_eventfd_async : ℕ
ioring_register_eventfd_async = 7

abbrev pub ioring_register_probe : ℕ
ioring_register_probe = 8

abbrev pub ioring_register_personality : ℕ
ioring_register_personality = 9

abbrev pub ioring_unregister_personality : ℕ
ioring_unregister_personality = 10

-- `IORING_OP_LAST`
abbrev pub num_ops : ℕ
num_ops = 34

-- an `IoSliceMut`: the address and the length of a buffer
abbrev pub IoSliceMut : Type 0
IoSliceMut = ℕ × ℕ

-- `fds` is the slice behind the pointer of the structure.
pub record IoUringFilesUpdate : Type 0 where
  pub offset : ℕ
  pub fds : List ℕ

pub data Argument : Type 0 where
  null uninit_probe : Argument
  buffers : List IoSliceMut → Argument
  descriptors : List ℕ → Argument
  updates : IoUringFilesUpdate → Argument

-- `io_uring_register` on a state of the kernel, with the descriptor, the operation, the argument and
-- `nr_args`
abbrev pub IoUringRegister : Type 0 → Type 0
IoUringRegister S = S → ℕ → ℕ → Argument → ℕ → Answer × S

pub record FileUpdate : Type 0 where
  pub offset : ℕ
  pub fds : List ℕ

pub record Registrar : Type 0 where
  pub ringfd : ℕ

-- the `?` and the `Ok(())`
abbrev pub discard : IoResult ℕ → IoResult (Unit {0})
discard (os_error code) = os_error code
discard (ok n) = ok tt

-- The operations take the state of the kernel last, and leave it with their result.
module _ {S : Type 0} where
  -- `sysresult!` of the call
  abbrev pub call : IoUringRegister S → Registrar → ℕ → Argument → ℕ → S → IoResult ℕ × S
  call io_uring_register r opcode argument nr s =
      let made = io_uring_register s r.ringfd opcode argument nr in
      (sysresult made.0.returned made.0.errno, made.1)

  abbrev pub discarded : IoResult ℕ × S → IoResult (Unit {0}) × S
  discarded made = (discard made.0, made.1)

  -- The length of the slice becomes a `u32`.
  unfoldable pub register :
      IoUringRegister S → Registrar → ℕ → Argument → ℕ → S → IoResult (Unit {0}) × S
  register io_uring_register r opcode slice len s =
      discarded (call io_uring_register r opcode slice (len % u32_mod) s)

  unfoldable pub unregister : IoUringRegister S → Registrar → ℕ → S → IoResult (Unit {0}) × S
  unregister io_uring_register r opcode s = discarded (call io_uring_register r opcode null 0 s)

  unfoldable pub register_buffers :
      IoUringRegister S → Registrar → List IoSliceMut → S → IoResult (Unit {0}) × S
  register_buffers io_uring_register r slices s =
      register io_uring_register r ioring_register_buffers (buffers slices) (length slices) s

  unfoldable pub unregister_buffers : IoUringRegister S → Registrar → S → IoResult (Unit {0}) × S
  unregister_buffers io_uring_register r s =
      unregister io_uring_register r ioring_unregister_buffers s

  unfoldable pub register_files :
      IoUringRegister S → Registrar → List ℕ → S → IoResult (Unit {0}) × S
  register_files io_uring_register r files s =
      register io_uring_register r ioring_register_files (descriptors files) (length files) s

  unfoldable pub unregister_files : IoUringRegister S → Registrar → S → IoResult (Unit {0}) × S
  unregister_files io_uring_register r s = unregister io_uring_register r ioring_unregister_files s

  unfoldable pub update_files :
      IoUringRegister S → Registrar → FileUpdate → S → Outcome (IoResult (Unit {0}) × S)
  update_files io_uring_register r upd s =
      assert (leb (length upd.fds) (u32_mod - 1))
      >> done (
          discarded (
            call io_uring_register r ioring_register_files_update
              (updates (record { offset = upd.offset; fds = upd.fds })) (length upd.fds % u32_mod)
              s))

  unfoldable pub register_eventfd : IoUringRegister S → Registrar → ℕ → S → IoResult (Unit {0}) × S
  register_eventfd io_uring_register r fd s =
      discarded (call io_uring_register r ioring_register_eventfd (descriptors (fd ∷ [])) 1 s)

  unfoldable pub register_eventfd_async :
      IoUringRegister S → Registrar → ℕ → S → IoResult (Unit {0}) × S
  register_eventfd_async io_uring_register r fd s =
      discarded (call io_uring_register r ioring_register_eventfd_async (descriptors (fd ∷ [])) 1 s)

  unfoldable pub unregister_eventfd : IoUringRegister S → Registrar → S → IoResult (Unit {0}) × S
  unregister_eventfd io_uring_register r s =
      unregister io_uring_register r ioring_unregister_eventfd s

  -- The probe that is given back on success is memory that the kernel wrote; it is not followed here.
  unfoldable pub probe : IoUringRegister S → Registrar → S → IoResult (Unit {0}) × S
  probe io_uring_register r s =
      discarded (call io_uring_register r ioring_register_probe uninit_probe num_ops s)

  -- What the call returns is the personality.
  unfoldable pub register_personality : IoUringRegister S → Registrar → S → IoResult ℕ × S
  register_personality io_uring_register r s =
      call io_uring_register r ioring_register_personality null 0 s

  unfoldable pub unregister_personality :
      IoUringRegister S → Registrar → ℕ → S → IoResult (Unit {0}) × S
  unregister_personality io_uring_register r personality s =
      discarded (call io_uring_register r ioring_unregister_personality null personality s)
