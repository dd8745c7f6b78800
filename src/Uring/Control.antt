-- ===== src/Uring/Control.antt =====
-- uring/src/sqe_types.rs: requests on names, timers, registered files and buffers, each with its constructor and `prep_sqe`.
use hamerkop.Base.{ℕ}
use hamerkop.Uring.Raw.{
  SqeOpFlags, SubmissionQueueEvent, minus_one, zeroed, clear, ioring_op_async_cancel,
  ioring_op_close, ioring_op_files_update, ioring_op_link_timeout, ioring_op_nop, ioring_op_openat,
  ioring_op_openat2, ioring_op_provide_buffers, ioring_op_remove_buffers, ioring_op_statx,
  ioring_op_timeout, ioring_op_timeout_remove,
}

pub data Nop : Type 0 where
  no_arguments : Nop

unfoldable pub new_nop : Nop
new_nop = no_arguments

unfoldable pub prep_nop : Nop → SubmissionQueueEvent → SubmissionQueueEvent
prep_nop r sqe = record (clear sqe) { opcode = ioring_op_nop; fd = minus_one }

pub record Timeout : Type 0 where
  pub timespec : ℕ
  pub count : ℕ
  pub flags : ℕ

unfoldable pub new_timeout : ℕ → Timeout
new_timeout timespec = record { timespec = timespec; count = 0; flags = 0 }

unfoldable pub prep_timeout : Timeout → SubmissionQueueEvent → SubmissionQueueEvent
prep_timeout r sqe = record zeroed {
  opcode = ioring_op_timeout;
  fd = minus_one;
  addr_splice = r.timespec;
  len = 1;
  off_addr2 = r.count;
  op_flags = SqeOpFlags.timeout_flags r.flags;
}

pub record TimeoutRemove : Type 0 where
  pub user_data : ℕ
  pub flags : ℕ

unfoldable pub new_timeout_remove : ℕ → TimeoutRemove
new_timeout_remove user_data = record { user_data = user_data; flags = 0 }

unfoldable pub prep_timeout_remove : TimeoutRemove → SubmissionQueueEvent → SubmissionQueueEvent
prep_timeout_remove r sqe = record zeroed {
  opcode = ioring_op_timeout_remove;
  fd = minus_one;
  addr_splice = r.user_data;
  op_flags = SqeOpFlags.timeout_flags r.flags;
}

pub record AsyncCancel : Type 0 where
  pub user_data : ℕ
  pub flags : ℕ

unfoldable pub new_async_cancel : ℕ → AsyncCancel
new_async_cancel user_data = record { user_data = user_data; flags = 0 }

unfoldable pub prep_async_cancel : AsyncCancel → SubmissionQueueEvent → SubmissionQueueEvent
prep_async_cancel r sqe = record zeroed {
  opcode = ioring_op_async_cancel;
  fd = minus_one;
  addr_splice = r.user_data;
  op_flags = SqeOpFlags.cancel_flags r.flags;
}

pub record LinkTimeout : Type 0 where
  pub timespec : ℕ
  pub flags : ℕ

unfoldable pub new_link_timeout : ℕ → LinkTimeout
new_link_timeout timespec = record { timespec = timespec; flags = 0 }

unfoldable pub prep_link_timeout : LinkTimeout → SubmissionQueueEvent → SubmissionQueueEvent
prep_link_timeout r sqe = record zeroed {
  opcode = ioring_op_link_timeout;
  fd = minus_one;
  addr_splice = r.timespec;
  op_flags = SqeOpFlags.timeout_flags r.flags;
}

pub record OpenAt : Type 0 where
  pub dirfd : ℕ
  pub pathname : ℕ
  pub flags : ℕ
  pub mode : ℕ

unfoldable pub new_open_at : ℕ → ℕ → OpenAt
new_open_at dirfd pathname = record { dirfd = dirfd; pathname = pathname; flags = 0; mode = 0 }

unfoldable pub prep_open_at : OpenAt → SubmissionQueueEvent → SubmissionQueueEvent
prep_open_at r sqe = record (clear sqe) {
  opcode = ioring_op_openat;
  fd = r.dirfd;
  addr_splice = r.pathname;
  len = r.mode;
  op_flags = SqeOpFlags.open_flags r.flags;
}

pub record OpenAt2 : Type 0 where
  pub dirfd : ℕ
  pub pathname : ℕ
  pub how : ℕ
  pub len : ℕ

unfoldable pub new_open_at2 : ℕ → ℕ → ℕ → OpenAt2
new_open_at2 dirfd pathname how = record { dirfd = dirfd; pathname = pathname; how = how; len = 24 }

unfoldable pub prep_open_at2 : OpenAt2 → SubmissionQueueEvent → SubmissionQueueEvent
prep_open_at2 r sqe = record (clear sqe) {
  opcode = ioring_op_openat2;
  fd = r.dirfd;
  addr_splice = r.pathname;
  len = r.len;
  off_addr2 = r.how;
}

pub record Close : Type 0 where
  pub fd : ℕ

unfoldable pub new_close : ℕ → Close
new_close fd = record { fd = fd }

unfoldable pub prep_close : Close → SubmissionQueueEvent → SubmissionQueueEvent
prep_close r sqe = record (clear sqe) { opcode = ioring_op_close; fd = r.fd }

pub record Statx : Type 0 where
  pub dirfd : ℕ
  pub pathname : ℕ
  pub statxbuf : ℕ
  pub flags : ℕ
  pub mask : ℕ

unfoldable pub new_statx : ℕ → ℕ → ℕ → Statx
new_statx dirfd pathname statxbuf = record {
  dirfd = dirfd;
  pathname = pathname;
  statxbuf = statxbuf;
  flags = 0;
  mask = 0;
}

unfoldable pub prep_statx : Statx → SubmissionQueueEvent → SubmissionQueueEvent
prep_statx r sqe = record (clear sqe) {
  opcode = ioring_op_statx;
  fd = r.dirfd;
  addr_splice = r.pathname;
  len = r.mask;
  off_addr2 = r.statxbuf;
  op_flags = SqeOpFlags.statx_flags r.flags;
}

pub record FilesUpdate : Type 0 where
  pub fds : ℕ
  pub len : ℕ
  pub offset : ℕ

unfoldable pub new_files_update : ℕ → ℕ → FilesUpdate
new_files_update fds len = record { fds = fds; len = len; offset = 0 }

unfoldable pub prep_files_update : FilesUpdate → SubmissionQueueEvent → SubmissionQueueEvent
prep_files_update r sqe = record (clear sqe) {
  opcode = ioring_op_files_update;
  fd = minus_one;
  addr_splice = r.fds;
  len = r.len;
  off_addr2 = r.offset;
}

pub record ProvideBuffers : Type 0 where
  pub addr : ℕ
  pub len : ℕ
  pub nbufs : ℕ
  pub buf_group : ℕ
  pub buf_id : ℕ

unfoldable pub new_provide_buffers : ℕ → ℕ → ℕ → ℕ → ℕ → ProvideBuffers
new_provide_buffers addr len nbufs buf_group buf_id = record {
  addr = addr;
  len = len;
  nbufs = nbufs;
  buf_group = buf_group;
  buf_id = buf_id;
}

unfoldable pub prep_provide_buffers : ProvideBuffers → SubmissionQueueEvent → SubmissionQueueEvent
prep_provide_buffers r sqe = record (clear sqe) {
  opcode = ioring_op_provide_buffers;
  fd = r.nbufs;
  addr_splice = r.addr;
  len = r.len;
  off_addr2 = r.buf_id;
  buf_info = r.buf_group;
}

pub record RemoveBuffers : Type 0 where
  pub nbufs : ℕ
  pub buf_group : ℕ

unfoldable pub new_remove_buffers : ℕ → ℕ → RemoveBuffers
new_remove_buffers nbufs buf_group = record { nbufs = nbufs; buf_group = buf_group }

unfoldable pub prep_remove_buffers : RemoveBuffers → SubmissionQueueEvent → SubmissionQueueEvent
prep_remove_buffers r sqe = record (clear sqe) {
  opcode = ioring_op_remove_buffers;
  fd = r.nbufs;
  buf_info = r.buf_group;
}
