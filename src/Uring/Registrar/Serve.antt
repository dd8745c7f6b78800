-- ===== src/Uring/Registrar/Serve.antt =====
-- What a registration asks for, and the calls of the registrar as a kernel reads them: it checks the
-- operation, the kind of the argument and `nr_args`.
use hamerkop.Base.{
  Bool, true, ℕ, ◌-◌, ◌%◌, ◌≡◌, refl, Bool-cases, inl, inr, Option, none, some, List, [], ◌∷◌, leb,
  if◌then◌else◌, ◌==◌, u32_mod, Outcome, done, panics, ◌>>=◌, length, take, take_all, leb→le, ap,
  arith,
}
use hamerkop.Base.Bits.{mod_small}
use hamerkop.Uring.Submission.{IoResult, ok, os_error, sysresult}
use hamerkop.Uring.System.{Answer}
use hamerkop.Uring.Registrar.{
  IoUringRegister, Argument, null, uninit_probe, buffers, descriptors, updates, Registrar,
  IoSliceMut, discard, register_buffers, unregister_buffers, register_files, unregister_files,
  update_files, register_eventfd, register_eventfd_async, unregister_eventfd, probe,
  register_personality, unregister_personality, num_ops, register, unregister,
}

pub data Registration : Type 0 where
  with_buffers : List IoSliceMut → Registration
  with_files : List ℕ → Registration
  with_update : ℕ → List ℕ → Registration
  with_eventfd with_eventfd_async : ℕ → Registration
  without_buffers without_files without_eventfd : Registration
  with_probe : ℕ → Registration
  with_personality : Registration
  without_personality : ℕ → Registration

-- `()` is nothing, a personality its number
abbrev replied : Option ℕ → IoResult (Unit {0}) → IoResult (Option ℕ)
replied n (os_error code) = os_error code
replied n (ok u) = ok n

abbrev replied_number : IoResult ℕ → IoResult (Option ℕ)
replied_number (os_error code) = os_error code
replied_number (ok n) = ok (some n)

read_eventfd : ℕ → List ℕ → Option Registration
read_eventfd opcode (fd ∷ []) =
    if opcode == 4
    then some (with_eventfd fd)
    else (if opcode == 7 then some (with_eventfd_async fd) else none)
read_eventfd opcode files = none

read_null : ℕ → Option Registration
read_null opcode =
    if opcode == 1
    then some without_buffers
    else (if opcode == 3
        then some without_files
        else (if opcode == 5
            then some without_eventfd
            else (if opcode == 9 then some with_personality else none)))

-- A slice is read as far as `nr_args` says. An eventfd stands in a slice of one descriptor, and where
-- there is no argument `nr_args` is 0, or the personality that is given up.
read_call : ℕ → Argument → ℕ → Option Registration
unfolding read_eventfd read_null
read_call opcode (buffers slices) nr =
    if opcode == 0 then some (with_buffers (take nr slices)) else none
read_call opcode (descriptors files) nr =
    if opcode == 2
    then some (with_files (take nr files))
    else (if nr == 1 then read_eventfd opcode files else none)
read_call opcode (updates u) nr =
    if opcode == 6 then some (with_update u.offset (take nr u.fds)) else none
read_call opcode uninit_probe nr = if opcode == 8 then some (with_probe nr) else none
read_call opcode null nr =
    if opcode == 10
    then some (without_personality nr)
    else (if nr == 0 then read_null opcode else none)

refused : Answer
refused = record { returned = u32_mod - 1; errno = 22 }

-- what the kernel is asked for; a slice is cut to its length modulo `2 ^ 32`
pub asked : Registration → Registration
asked (with_buffers slices) = with_buffers (take (length slices % u32_mod) slices)
asked (with_files files) = with_files (take (length files % u32_mod) files)
asked (with_probe n) = with_probe num_ops
asked x = x

-- what comes back
result_of : Registration → Answer → IoResult (Option ℕ)
result_of with_personality a = replied_number (sysresult a.returned a.errno)
result_of x a = replied none (discard (sysresult a.returned a.errno))

is_allowed : Registration → Bool
is_allowed (with_update offset fds) = leb (length fds) (u32_mod - 1)
is_allowed x = true

abbrev Reply : Type 0 → Type 0
Reply S = IoResult (Option ℕ) × S

module _ {S : Type 0} where
  abbrev reply : IoResult (Unit {0}) × S → Reply S
  reply made = (replied none made.0, made.1)

  -- the operation of the registrar for each
  pub perform : IoUringRegister S → Registrar → Registration → S → Outcome (Reply S)
  perform f r (with_buffers slices) s = done (reply (register_buffers f r slices s))
  perform f r (with_files files) s = done (reply (register_files f r files s))
  perform f r (with_update offset fds) s =
      update_files f r (record { offset = offset; fds = fds }) s >>= λ made. done (reply made)
  perform f r (with_eventfd fd) s = done (reply (register_eventfd f r fd s))
  perform f r (with_eventfd_async fd) s = done (reply (register_eventfd_async f r fd s))
  perform f r without_buffers s = done (reply (unregister_buffers f r s))
  perform f r without_files s = done (reply (unregister_files f r s))
  perform f r without_eventfd s = done (reply (unregister_eventfd f r s))
  perform f r (with_probe n) s = done (reply (probe f r s))
  perform f r with_personality s =
      let made = register_personality f r s in done (replied_number made.0, made.1)
  perform f r (without_personality personality) s =
      done (reply (unregister_personality f r personality s))

  -- one after the other
  pub perform_all :
      IoUringRegister S
      → Registrar
      → List Registration
      → S
      → Outcome (List (IoResult (Option ℕ)) × S)
  perform_all f r [] s = done ([], s)
  perform_all f r (x ∷ xs) s = perform f r x s >>= λ made.
      perform_all f r xs made.1 >>= λ rest. done (made.0 ∷ rest.0, rest.1)

  -- a kernel that serves registrations, and refuses what else it is asked without a change
  pub serving : (S → ℕ → Registration → Answer × S) → IoUringRegister S
  unfolding read_call refused
  serving serve s fd opcode argument nr = elim (read_call opcode argument nr) [
    | none ↦ (refused, s)
    | some registration ↦ serve s fd registration
  ]

  answered : Registration → Answer × S → Outcome (Reply S)
  answered x made = if is_allowed x then done (result_of x made.0, made.1) else panics

  -- The kernel serves each registration once, in order; an update that is too long ends it.
  pub serve_all :
      (S → ℕ → Registration → Answer × S)
      → ℕ
      → List Registration
      → S
      → Outcome (List (IoResult (Option ℕ)) × S)
  serve_all serve fd [] s = done ([], s)
  serve_all serve fd (x ∷ xs) s = answered x (serve s fd (asked x)) >>= λ made.
      serve_all serve fd xs made.1 >>= λ rest. done (made.0 ∷ rest.0, rest.1)

  update_serving :
      (serve : S → ℕ → Registration → Answer × S) (r : Registrar) (offset : ℕ) (fds : List ℕ)
      (s : S)
      → perform (serving serve) r (with_update offset fds) s
        ≡ answered (with_update offset fds) (serve s r.ringfd (with_update offset fds))
  unfolding perform serving read_call answered update_files is_allowed result_of
  update_serving serve r offset fds s = elim (Bool-cases (leb (length fds) (u32_mod - 1))) [
    | inl e ↦
        let whole : take (length fds % u32_mod) fds ≡ fds = take_all (length fds % u32_mod) fds (
          omega (
            arith,
            mod_small (length fds) u32_mod (omega (arith, leb→le (length fds) (u32_mod - 1) e)),
          )) in
        rw (perform, update_files, answered, is_allowed, e)
          (ap
            (λ l.
              let made = serve s r.ringfd (with_update offset l) in
              done (replied none (discard (sysresult made.0.returned made.0.errno)), made.1))
            whole)
    | inr e ↦ rw (perform, update_files, answered, is_allowed, e) refl
  ]

  perform-answered :
      (serve : S → ℕ → Registration → Answer × S) (r : Registrar) (x : Registration) (s : S)
      → perform (serving serve) r x s ≡ answered x (serve s r.ringfd (asked x))
  unfolding perform serving read_call read_eventfd read_null answered is_allowed result_of asked
      register unregister register_buffers register_files unregister_buffers unregister_files
      unregister_eventfd register_eventfd register_eventfd_async probe register_personality
      unregister_personality
  perform-answered serve r (with_buffers slices) s = refl
  perform-answered serve r (with_files files) s = refl
  perform-answered serve r (with_update offset fds) s = update_serving serve r offset fds s
  perform-answered serve r (with_eventfd fd) s = refl
  perform-answered serve r (with_eventfd_async fd) s = refl
  perform-answered serve r without_buffers s = refl
  perform-answered serve r without_files s = refl
  perform-answered serve r without_eventfd s = refl
  perform-answered serve r (with_probe n) s = refl
  perform-answered serve r with_personality s = refl
  perform-answered serve r (without_personality personality) s = refl

  -- A sequence of operations of the registrar, against a kernel with any state that checks the
  -- operation, the kind of its argument and `nr_args`: the kernel serves each of the registrations once,
  -- in order, as it was asked for, but with a slice cut to its length modulo `2 ^ 32`, and with its
  -- state passed on. What it answers comes back: the code of an error, the personality where one is
  -- registered, and nothing else otherwise. An update of `2 ^ 32` files or more panics.
  pub perform_all-serving :
      (serve : S → ℕ → Registration → Answer × S) (r : Registrar) (xs : List Registration) (s : S)
      → perform_all (serving serve) r xs s ≡ serve_all serve r.ringfd xs s
  unfolding perform_all serve_all answered
  perform_all-serving serve r [] s = refl
  perform_all-serving serve r (x ∷ xs) s =
      let rest = perform_all-serving serve r xs (serve s r.ringfd (asked x)).1 in
      rw (perform_all, perform-answered serve r x s)
        (elim (Bool-cases (is_allowed x)) [
          | inl e ↦ rw (answered, e, rest) refl
          | inr e ↦ rw (answered, e) refl
        ])
