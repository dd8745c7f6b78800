-- ===== src/Uring/Raw.antt =====
-- uring/src/raw.rs, the accessors of uring/src/sqe.rs and the targets of uring/src/sqe_types.rs: the
-- submission queue entry. A signed number is its bit pattern, a pointer its address.
use hamerkop.Base.{ℕ, ◌+◌, ◌-◌, ◌^◌, min, Bool, true, false, bit_or, if◌then◌else◌, leb}

abbrev pub ioring_op_nop : ℕ
ioring_op_nop = 0

abbrev pub ioring_op_readv : ℕ
ioring_op_readv = 1

abbrev pub ioring_op_writev : ℕ
ioring_op_writev = 2

abbrev pub ioring_op_fsync : ℕ
ioring_op_fsync = 3

abbrev pub ioring_op_read_fixed : ℕ
ioring_op_read_fixed = 4

abbrev pub ioring_op_write_fixed : ℕ
ioring_op_write_fixed = 5

abbrev pub ioring_op_poll_add : ℕ
ioring_op_poll_add = 6

abbrev pub ioring_op_poll_remove : ℕ
ioring_op_poll_remove = 7

abbrev pub ioring_op_sync_file_range : ℕ
ioring_op_sync_file_range = 8

abbrev pub ioring_op_sendmsg : ℕ
ioring_op_sendmsg = 9

abbrev pub ioring_op_recvmsg : ℕ
ioring_op_recvmsg = 10

abbrev pub ioring_op_timeout : ℕ
ioring_op_timeout = 11

abbrev pub ioring_op_timeout_remove : ℕ
ioring_op_timeout_remove = 12

abbrev pub ioring_op_accept : ℕ
ioring_op_accept = 13

abbrev pub ioring_op_async_cancel : ℕ
ioring_op_async_cancel = 14

abbrev pub ioring_op_link_timeout : ℕ
ioring_op_link_timeout = 15

abbrev pub ioring_op_connect : ℕ
ioring_op_connect = 16

abbrev pub ioring_op_fallocate : ℕ
ioring_op_fallocate = 17

abbrev pub ioring_op_openat : ℕ
ioring_op_openat = 18

abbrev pub ioring_op_close : ℕ
ioring_op_close = 19

abbrev pub ioring_op_files_update : ℕ
ioring_op_files_update = 20

abbrev pub ioring_op_statx : ℕ
ioring_op_statx = 21

abbrev pub ioring_op_read : ℕ
ioring_op_read = 22

abbrev pub ioring_op_write : ℕ
ioring_op_write = 23

abbrev pub ioring_op_fadvise : ℕ
ioring_op_fadvise = 24

abbrev pub ioring_op_madvise : ℕ
ioring_op_madvise = 25

abbrev pub ioring_op_send : ℕ
ioring_op_send = 26

abbrev pub ioring_op_recv : ℕ
ioring_op_recv = 27

abbrev pub ioring_op_openat2 : ℕ
ioring_op_openat2 = 28

abbrev pub ioring_op_epoll_ctl : ℕ
ioring_op_epoll_ctl = 29

abbrev pub ioring_op_splice : ℕ
ioring_op_splice = 30

abbrev pub ioring_op_provide_buffers : ℕ
ioring_op_provide_buffers = 31

abbrev pub ioring_op_remove_buffers : ℕ
ioring_op_remove_buffers = 32

abbrev pub ioring_op_tee : ℕ
ioring_op_tee = 33

abbrev pub fixed_file : ℕ
fixed_file = 1

abbrev pub splice_f_fd_in_fixed : ℕ
splice_f_fd_in_fixed = 2 ^ 31

-- `-1` as an `i32`
abbrev pub minus_one : ℕ
minus_one = 2 ^ 32 - 1

-- the union of four bytes; `zeroed_flags` is its zeroed memory
pub data SqeOpFlags : Type 0 where
  zeroed_flags : SqeOpFlags
  rw_flags fsync_flags poll_events sync_range_flags msg_flags timeout_flags accept_flags
        cancel_flags open_flags statx_flags fadvise_advice splice_flags :
      ℕ → SqeOpFlags

-- The unions `off_addr2`, `addr_splice` and `buf_info` have members of one width each. The fields of
-- `sqe_extra` stand in the entry, less the padding.
pub record IoUringSqe : Type 0 where
  pub opcode : ℕ
  pub flags : ℕ
  pub ioprio : ℕ
  pub fd : ℕ
  pub off_addr2 : ℕ
  pub addr_splice : ℕ
  pub len : ℕ
  pub op_flags : SqeOpFlags
  pub user_data : ℕ
  pub buf_info : ℕ
  pub personality : ℕ
  pub splice_fd_in : ℕ

-- a transparent wrapper of the entry
abbrev pub SubmissionQueueEvent : Type 0
SubmissionQueueEvent = IoUringSqe

abbrev pub zeroed : IoUringSqe
zeroed = record {
  opcode = 0;
  flags = 0;
  ioprio = 0;
  fd = 0;
  off_addr2 = 0;
  addr_splice = 0;
  len = 0;
  op_flags = SqeOpFlags.zeroed_flags;
  user_data = 0;
  buf_info = 0;
  personality = 0;
  splice_fd_in = 0;
}

unfoldable pub clear : SubmissionQueueEvent → SubmissionQueueEvent
clear sqe = zeroed

unfoldable pub set_user_data : SubmissionQueueEvent → ℕ → SubmissionQueueEvent
set_user_data sqe user_data = record sqe { user_data = user_data }

unfoldable pub set_flags : SubmissionQueueEvent → ℕ → SubmissionQueueEvent
set_flags sqe flags = record sqe { flags = flags }

unfoldable pub add_flags : SubmissionQueueEvent → ℕ → SubmissionQueueEvent
add_flags sqe flags = record sqe { flags = bit_or sqe.flags flags }

unfoldable pub set_buf_group : SubmissionQueueEvent → ℕ → SubmissionQueueEvent
set_buf_group sqe buf_group = record sqe { buf_info = buf_group }

-- a file descriptor, or an index into the registered files
pub data Target : Type 0 where
  descriptor : ℕ → Target
  fixed : ℕ → Target

unfoldable pub is_fixed : Target → Bool
is_fixed (descriptor fd) = false
is_fixed (fixed index) = true

-- An index becomes an `i32` with the same bits.
unfoldable pub into_raw : Target → ℕ
into_raw (descriptor fd) = fd
into_raw (fixed index) = index

-- an `i32` as a `u64`
unfoldable pub sign_extend : ℕ → ℕ
sign_extend n = if leb (2 ^ 31) n then n + (2 ^ 64 - 2 ^ 32) else n

-- `saturating_cast` from `i64` to `u32`
unfoldable pub saturating_cast : ℕ → ℕ
saturating_cast n = if leb (2 ^ 63) n then 0 else min n (2 ^ 32 - 1)
