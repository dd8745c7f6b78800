-- ===== src/Lib.antt =====
-- Verification of Hamerkop, an `io_uring` runtime for Rust.
--
-- The program. `uring` binds the kernel's rings: the application writes entries to the submission
-- ring and moves its tail, the kernel consumes them and fills the completion ring, whose head the
-- application moves. `hamerkop` builds an executor on it, which keeps its pending operations in a
-- slot map and its buffers in vectors of fixed capacity: a task that waits for a request has a completion
-- in the slot map, whose index the request carries as its user data, and the event that comes back wakes it.
-- `metrics` and `tokenreplace` stand beside.
--
-- Base: the shared names. Base/Tests has the Boolean tests, Base/Lists the lists over native numbers,
-- Base/Bits masks of low bits, Base/Panics the three ways a call ends: a value, a panic, or behaviour
-- that Rust leaves undefined.
--
-- Slotmap models hamerkop/src/stable_slotmap.rs. The state is the record `StableSlotmap`: `slabs`,
-- `head` and `size` as in the source; `create_slab`, `expand`, `next_slot`, `insert`, `remove`, `get`,
-- `get_mut` and `iter` are the functions of the same names. A reference is the value it points to, and a
-- write through one is `write_slot`. Invariant: the links from `head` visit the vacant slots, each once.
--
-- FixedVec models hamerkop/src/fixedvec.rs. A vector is its cells, each with a value or uninitialised,
-- and its length; raw reads and copies (Cells) are undefined out of the allocation or on an
-- uninitialised cell. Ops, Bulk and Drain hold the operations; dropped values are returned in order.
-- The theorems compare with lists: `holding xs rest` is the vector of `xs` with the spare cells `rest`.
--
-- Uring models uring/src. Raw, Files, Sockets and Control hold the entry (raw.rs, sqe.rs) and every
-- request with `new` and `prep_sqe` (sqe_types.rs); Request joins them; Decode is an independent
-- reading of an entry by the documented layout, which refuses an entry whose other fields are set. RingBuf is ringbuf.rs, Submission is sqe.rs and
-- Completion cqe.rs with the flags of flags.rs. `io_uring_enter` is a parameter: a function from the
-- queue and the arguments to what it returns and the words that the kernel writes.
--
-- Uring/System has the parameters of a ring and what the process asks of the kernel, as a list of events from which
-- the live mappings and descriptors are read; Uring/Setup is detail.rs and lib.rs, from `io_uring_setup` to the drop. The
-- kernel's answers are a parameter. Uring/Registrar and Uring/Probe are registrar.rs: the registrations, and the names of
-- operations that its macros tabulate.
--
-- Util models hamerkop/src/util. Chunks is disjoint_chunks.rs, whose loop has fuel for a round for each slice and two more;
-- Join is join.rs with the polling of a future as a parameter. Dedup is `dedup_partial` with its hash as a parameter; a pointer into
-- the vector is its index. The loop has the length of the vector as fuel, which each round uses up by one.
--
-- Executor models hamerkop/src/executor. The context behind the `Rc<RefCell<_>>` is a state that is passed on;
-- that it is borrowed is a flag where the code drops a future under a borrow. Executor has the completions and
-- `process_cqes`, Submit the retries of `submit` and `CompletionFuture`, Submit/Links `LinkedSubmitter`, Runtime
-- the run queue and `turn`, Handle `IOHandle`, Errors error.rs. The kernel is a list of calls, each with its answer and what it does to the
-- completion queue; what polling a future does is a parameter. The loops that wait for the kernel have fuel and end
-- with `none` when it or the list runs out; Submit/Retry says when `submit` does not.
--
-- Metrics/LazyCell models metrics/src/lazy_cell.rs: a call of `get` or `force` is a sequence of atomic steps,
-- `Reach` the states that any order of the steps of any number of calls leads to.
--
-- Metrics/Counter and Metrics/Gauge model counter.rs and gauge.rs; the gauge of active tasks in Executor/Runtime is one.
-- Metrics/Registry models macros.rs: what `metric!` declares, on attributes that are texts.
--
-- Metrics/Sketch models metrics/src/ddsketch.rs with the logarithm of a value as a parameter: the buckets, the
-- operations on them, and the search of `quantile`.
--
-- Tokens models tokenreplace/src/lib.rs: token trees as the standard library has them, over any identifiers; the
-- parser of the arguments is a parameter.
--
-- Numbers are natural numbers with the wrap written out: `usize` has 64 bits, the counters of the
-- rings 32. Arithmetic wraps and `debug_assert!` is off, as in a release build. A signed number
-- in an entry is its bit pattern. The rings have `2 ^ k` entries with `k < 32`, which `u32` masks need.
-- Where nothing else is said, the loops recurse on lists or on a count that the code computes, and no fuel runs out.
--
-- Not modelled: `block_on`, what a probe lists, the floating point numbers of the sketch, the system calls, the generated
-- setters of a request's optional fields, and formatting. The sketches that the executor fills are left out: nothing
-- reads them.
pub mod Base
pub mod Slotmap
pub mod FixedVec
pub mod Uring
pub mod Util
pub mod Executor
pub mod Metrics
pub mod Tokens
