-- ===== src/Uring/Probe.antt =====
-- uring/src/registrar.rs: the operations that a probe lists and the names they are shown by.
pub mod Names
use Prim.Native.String.{String}
use hamerkop.Base.{
  ℕ, ◌+◌, ◌-◌, ◌%◌, bit_and, bit_or, List, [], ◌∷◌, Option, none, some, ltb, if◌then◌else◌,
  usize_mod, set, replicate, get_elem?, map,
}
use hamerkop.Uring.Raw.{
  ioring_op_nop, ioring_op_readv, ioring_op_writev, ioring_op_fsync, ioring_op_read_fixed,
  ioring_op_write_fixed, ioring_op_poll_add, ioring_op_poll_remove, ioring_op_sync_file_range,
  ioring_op_sendmsg, ioring_op_recvmsg, ioring_op_timeout, ioring_op_timeout_remove,
  ioring_op_accept, ioring_op_async_cancel, ioring_op_link_timeout, ioring_op_connect,
  ioring_op_fallocate, ioring_op_openat, ioring_op_close, ioring_op_files_update, ioring_op_statx,
  ioring_op_read, ioring_op_write, ioring_op_fadvise, ioring_op_madvise, ioring_op_send,
  ioring_op_recv, ioring_op_openat2, ioring_op_epoll_ctl, ioring_op_splice,
  ioring_op_provide_buffers, ioring_op_remove_buffers, ioring_op_tee,
}

pub record ProbeOp : Type 0 where
  pub op : ℕ
  pub flags : ℕ

-- `!` on a `usize`
abbrev pub complement : ℕ → ℕ
complement n = usize_mod - 1 - n

-- the greatest of the arguments, with no branch
unfoldable pub static_max : ℕ → List ℕ → ℕ
static_max first [] = first
static_max first (next ∷ others) =
    let rest = static_max next others in
    let bit : ℕ = if ltb first rest then 1 else 0 in
    let mask = (bit + usize_mod - 1) % usize_mod in
    bit_or (bit_and first mask) (bit_and rest (complement mask))

-- the assignments, in order
unfoldable pub fill : {A : Type 0} → List A → List (ℕ × A) → List A
fill arr [] = arr
fill arr ((key, value) ∷ entries) = fill (set arr key value) entries

unfoldable pub filled_array : {A : Type 0} → (ℕ × A) → List (ℕ × A) → A → List A
filled_array first entries default =
    let size = static_max first.0 (map (λ e. e.0) entries) + 1 in
    fill (replicate size default) (first ∷ entries)

abbrev pub named_ops : List (ℕ × String)
named_ops =
    (ioring_op_readv, "readv")
    ∷ (ioring_op_writev, "writev")
    ∷ (ioring_op_fsync, "fsync")
    ∷ (ioring_op_read_fixed, "read_fixed")
    ∷ (ioring_op_write_fixed, "write_fixed")
    ∷ (ioring_op_poll_add, "poll_add")
    ∷ (ioring_op_poll_remove, "poll_remove")
    ∷ (ioring_op_sync_file_range, "sync_file_range")
    ∷ (ioring_op_sendmsg, "sendmsg")
    ∷ (ioring_op_recvmsg, "recvmsg")
    ∷ (ioring_op_timeout, "timeout")
    ∷ (ioring_op_timeout_remove, "timeout_remove")
    ∷ (ioring_op_accept, "accept")
    ∷ (ioring_op_async_cancel, "async_cancel")
    ∷ (ioring_op_link_timeout, "link_timeout")
    ∷ (ioring_op_connect, "connect")
    ∷ (ioring_op_fallocate, "fallocate")
    ∷ (ioring_op_openat, "openat")
    ∷ (ioring_op_close, "close")
    ∷ (ioring_op_files_update, "files_update")
    ∷ (ioring_op_statx, "statx")
    ∷ (ioring_op_read, "read")
    ∷ (ioring_op_write, "write")
    ∷ (ioring_op_fadvise, "fadvise")
    ∷ (ioring_op_madvise, "madvise")
    ∷ (ioring_op_send, "send")
    ∷ (ioring_op_recv, "recv")
    ∷ (ioring_op_openat2, "openat2")
    ∷ (ioring_op_epoll_ctl, "epoll_ctl")
    ∷ (ioring_op_splice, "splice")
    ∷ (ioring_op_provide_buffers, "provide_buffers")
    ∷ (ioring_op_remove_buffers, "remove_buffers")
    ∷ (ioring_op_tee, "tee")
    ∷ []

unfoldable pub idents : List String
idents = filled_array (ioring_op_nop, "nop") named_ops "unknown"

abbrev unwrap_or : Option String → String → String
unwrap_or none default = default
unwrap_or (some s) default = s

unfoldable pub ident : ℕ → String
ident op = unwrap_or (get_elem? idents op) "unknown"
