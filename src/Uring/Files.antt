-- ===== src/Uring/Files.antt =====
-- uring/src/sqe_types.rs: reads, writes and the other requests on the contents of a file, each with its constructor and `prep_sqe`.
use hamerkop.Base.{ℕ, if◌then◌else◌, bit_or}
use hamerkop.Uring.Raw.{
  Target, SqeOpFlags, SubmissionQueueEvent, into_raw, is_fixed, minus_one, saturating_cast,
  splice_f_fd_in_fixed, fixed_file, zeroed, set_flags, add_flags, clear, ioring_op_fadvise,
  ioring_op_fallocate, ioring_op_madvise, ioring_op_read, ioring_op_read_fixed, ioring_op_readv,
  ioring_op_splice, ioring_op_sync_file_range, ioring_op_tee, ioring_op_write,
  ioring_op_write_fixed, ioring_op_writev,
}

pub record ReadVectored : Type 0 where
  pub fd : Target
  pub iovec : ℕ
  pub len : ℕ
  pub ioprio : ℕ
  pub offset : ℕ
  pub rw_flags : ℕ

unfoldable pub new_read_vectored : Target → ℕ → ℕ → ReadVectored
new_read_vectored fd iovec len = record {
  fd = fd;
  iovec = iovec;
  len = len;
  ioprio = 0;
  offset = 0;
  rw_flags = 0;
}

unfoldable pub prep_read_vectored : ReadVectored → SubmissionQueueEvent → SubmissionQueueEvent
prep_read_vectored r sqe =
    let written = record zeroed {
      opcode = ioring_op_readv;
      fd = into_raw r.fd;
      len = r.len;
      ioprio = r.ioprio;
      addr_splice = r.iovec;
      off_addr2 = r.offset;
    } in
    if is_fixed r.fd then set_flags written fixed_file else written

pub record WriteVectored : Type 0 where
  pub fd : Target
  pub iovec : ℕ
  pub len : ℕ
  pub ioprio : ℕ
  pub offset : ℕ
  pub rw_flags : ℕ

unfoldable pub new_write_vectored : Target → ℕ → ℕ → WriteVectored
new_write_vectored fd iovec len = record {
  fd = fd;
  iovec = iovec;
  len = len;
  ioprio = 0;
  offset = 0;
  rw_flags = 0;
}

unfoldable pub prep_write_vectored : WriteVectored → SubmissionQueueEvent → SubmissionQueueEvent
prep_write_vectored r sqe =
    let written = record zeroed {
      opcode = ioring_op_writev;
      fd = into_raw r.fd;
      len = r.len;
      ioprio = r.ioprio;
      addr_splice = r.iovec;
      off_addr2 = r.offset;
    } in
    if is_fixed r.fd then set_flags written fixed_file else written

pub record ReadFixed : Type 0 where
  pub fd : Target
  pub buf : ℕ
  pub len : ℕ
  pub buf_index : ℕ
  pub offset : ℕ
  pub ioprio : ℕ
  pub rw_flags : ℕ

unfoldable pub new_read_fixed : Target → ℕ → ℕ → ℕ → ReadFixed
new_read_fixed fd buf len buf_index = record {
  fd = fd;
  buf = buf;
  len = len;
  buf_index = buf_index;
  offset = 0;
  ioprio = 0;
  rw_flags = 0;
}

unfoldable pub prep_read_fixed : ReadFixed → SubmissionQueueEvent → SubmissionQueueEvent
prep_read_fixed r sqe =
    let written = record zeroed {
      opcode = ioring_op_read_fixed;
      fd = into_raw r.fd;
      len = r.len;
      ioprio = r.ioprio;
      addr_splice = r.buf;
      off_addr2 = r.offset;
      buf_info = r.buf_index;
    } in
    if is_fixed r.fd then set_flags written fixed_file else written

pub record WriteFixed : Type 0 where
  pub fd : Target
  pub buf : ℕ
  pub len : ℕ
  pub buf_index : ℕ
  pub ioprio : ℕ
  pub offset : ℕ
  pub rw_flags : ℕ

unfoldable pub new_write_fixed : Target → ℕ → ℕ → ℕ → WriteFixed
new_write_fixed fd buf len buf_index = record {
  fd = fd;
  buf = buf;
  len = len;
  buf_index = buf_index;
  ioprio = 0;
  offset = 0;
  rw_flags = 0;
}

unfoldable pub prep_write_fixed : WriteFixed → SubmissionQueueEvent → SubmissionQueueEvent
prep_write_fixed r sqe =
    let written = record zeroed {
      opcode = ioring_op_write_fixed;
      fd = into_raw r.fd;
      len = r.len;
      ioprio = r.ioprio;
      addr_splice = r.buf;
      off_addr2 = r.offset;
      buf_info = r.buf_index;
    } in
    if is_fixed r.fd then set_flags written fixed_file else written

pub record Read : Type 0 where
  pub fd : Target
  pub buf : ℕ
  pub len : ℕ
  pub offset : ℕ
  pub ioprio : ℕ
  pub rw_flags : ℕ

unfoldable pub new_read : Target → ℕ → ℕ → Read
new_read fd buf len = record { fd = fd; buf = buf; len = len; offset = 0; ioprio = 0; rw_flags = 0 }

unfoldable pub prep_read : Read → SubmissionQueueEvent → SubmissionQueueEvent
prep_read r sqe =
    let written = record zeroed {
      opcode = ioring_op_read;
      fd = into_raw r.fd;
      ioprio = r.ioprio;
      addr_splice = r.buf;
      len = r.len;
      off_addr2 = r.offset;
      op_flags = SqeOpFlags.rw_flags r.rw_flags;
    } in
    if is_fixed r.fd then add_flags written fixed_file else written

pub record Write : Type 0 where
  pub fd : Target
  pub buf : ℕ
  pub len : ℕ
  pub offset : ℕ
  pub ioprio : ℕ
  pub rw_flags : ℕ

unfoldable pub new_write : Target → ℕ → ℕ → Write
new_write fd buf len = record {
  fd = fd;
  buf = buf;
  len = len;
  offset = 0;
  ioprio = 0;
  rw_flags = 0;
}

unfoldable pub prep_write : Write → SubmissionQueueEvent → SubmissionQueueEvent
prep_write r sqe =
    let cleared = clear sqe in
    let flagged = if is_fixed r.fd then add_flags cleared fixed_file else cleared in
    record flagged {
      opcode = ioring_op_write;
      fd = into_raw r.fd;
      ioprio = r.ioprio;
      addr_splice = r.buf;
      len = r.len;
      off_addr2 = r.offset;
      op_flags = SqeOpFlags.rw_flags r.rw_flags;
    }

pub record SyncFileRange : Type 0 where
  pub fd : Target
  pub len : ℕ
  pub offset : ℕ
  pub flags : ℕ

unfoldable pub new_sync_file_range : Target → ℕ → SyncFileRange
new_sync_file_range fd len = record { fd = fd; len = len; offset = 0; flags = 0 }

unfoldable pub prep_sync_file_range : SyncFileRange → SubmissionQueueEvent → SubmissionQueueEvent
prep_sync_file_range r sqe =
    let written = record zeroed {
      opcode = ioring_op_sync_file_range;
      fd = into_raw r.fd;
      len = r.len;
      op_flags = SqeOpFlags.sync_range_flags r.flags;
      off_addr2 = r.offset;
    } in
    if is_fixed r.fd then set_flags written fixed_file else written

pub record Fallocate : Type 0 where
  pub fd : Target
  pub len : ℕ
  pub offset : ℕ
  pub mode : ℕ

unfoldable pub new_fallocate : Target → ℕ → Fallocate
new_fallocate fd len = record { fd = fd; len = len; offset = 0; mode = 0 }

unfoldable pub prep_fallocate : Fallocate → SubmissionQueueEvent → SubmissionQueueEvent
prep_fallocate r sqe =
    let written = record zeroed {
      opcode = ioring_op_fallocate;
      fd = into_raw r.fd;
      off_addr2 = r.offset;
      len = r.mode;
      addr_splice = r.len;
    } in
    if is_fixed r.fd then add_flags written fixed_file else written

pub record Fadvise : Type 0 where
  pub fd : Target
  pub len : ℕ
  pub advice : ℕ
  pub offset : ℕ

unfoldable pub new_fadvise : Target → ℕ → ℕ → Fadvise
new_fadvise fd len advice = record { fd = fd; len = len; advice = advice; offset = 0 }

unfoldable pub prep_fadvise : Fadvise → SubmissionQueueEvent → SubmissionQueueEvent
prep_fadvise r sqe =
    let written = record zeroed {
      opcode = ioring_op_fadvise;
      fd = into_raw r.fd;
      len = saturating_cast r.len;
      off_addr2 = r.offset;
      op_flags = SqeOpFlags.fadvise_advice r.advice;
    } in
    if is_fixed r.fd then add_flags written fixed_file else written

pub record Madvise : Type 0 where
  pub addr : ℕ
  pub len : ℕ
  pub advice : ℕ

unfoldable pub new_madvise : ℕ → ℕ → ℕ → Madvise
new_madvise addr len advice = record { addr = addr; len = len; advice = advice }

unfoldable pub prep_madvise : Madvise → SubmissionQueueEvent → SubmissionQueueEvent
prep_madvise r sqe = record zeroed {
  opcode = ioring_op_madvise;
  fd = minus_one;
  addr_splice = r.addr;
  len = saturating_cast r.len;
  op_flags = SqeOpFlags.fadvise_advice r.advice;
}

pub record Splice : Type 0 where
  pub fd_in : Target
  pub off_in : ℕ
  pub fd_out : Target
  pub off_out : ℕ
  pub len : ℕ
  pub flags : ℕ

unfoldable pub new_splice : Target → ℕ → Target → ℕ → ℕ → Splice
new_splice fd_in off_in fd_out off_out len = record {
  fd_in = fd_in;
  off_in = off_in;
  fd_out = fd_out;
  off_out = off_out;
  len = len;
  flags = 0;
}

unfoldable pub prep_splice : Splice → SubmissionQueueEvent → SubmissionQueueEvent
prep_splice r sqe =
    let flags = if is_fixed r.fd_in then bit_or r.flags splice_f_fd_in_fixed else r.flags in
    let cleared = clear sqe in
    let flagged = if is_fixed r.fd_out then add_flags cleared fixed_file else cleared in
    record flagged {
      opcode = ioring_op_splice;
      fd = into_raw r.fd_out;
      len = r.len;
      off_addr2 = r.off_out;
      splice_fd_in = into_raw r.fd_in;
      addr_splice = r.off_in;
      op_flags = SqeOpFlags.splice_flags flags;
    }

pub record Tee : Type 0 where
  pub fd_in : Target
  pub fd_out : Target
  pub len : ℕ
  pub flags : ℕ

unfoldable pub new_tee : Target → Target → ℕ → Tee
new_tee fd_in fd_out len = record { fd_in = fd_in; fd_out = fd_out; len = len; flags = 0 }

unfoldable pub prep_tee : Tee → SubmissionQueueEvent → SubmissionQueueEvent
prep_tee r sqe =
    let flags = if is_fixed r.fd_in then bit_or r.flags splice_f_fd_in_fixed else r.flags in
    let cleared = clear sqe in
    let flagged = if is_fixed r.fd_out then add_flags cleared fixed_file else cleared in
    record flagged {
      opcode = ioring_op_tee;
      fd = into_raw r.fd_out;
      len = r.len;
      splice_fd_in = into_raw r.fd_in;
      op_flags = SqeOpFlags.splice_flags flags;
    }
