-- ===== src/Uring/Decode/Readings.antt =====
-- Each request as the fields of its entry say by the documented layout.
use hamerkop.Base.{ℕ, ◌%◌, ◌^◌, if◌then◌else◌, ◌==◌, leb}
use hamerkop.Uring.Files.{}
use hamerkop.Uring.Sockets.{}
use hamerkop.Uring.Control.{no_arguments}
use hamerkop.Uring.Raw.{Target, SqeOpFlags, IoUringSqe, descriptor, fixed}
use hamerkop.Uring.Request.{
  Request, nop, read_vectored, write_vectored, read_fixed, write_fixed, poll_add, poll_remove,
  sync_file_range, send_msg, recv_msg, timeout, timeout_remove, accept, async_cancel, link_timeout,
  connect, fallocate, fadvise, madvise, open_at, open_at2, close, statx, read, write, send, recv,
  epoll_ctl, splice, tee, files_update, provide_buffers, remove_buffers,
}

-- the four bytes of the union
abbrev pub op_bits : SqeOpFlags → ℕ
op_bits SqeOpFlags.zeroed_flags = 0
op_bits (SqeOpFlags.rw_flags n) = n
op_bits (SqeOpFlags.fsync_flags n) = n
op_bits (SqeOpFlags.poll_events n) = n
op_bits (SqeOpFlags.sync_range_flags n) = n
op_bits (SqeOpFlags.msg_flags n) = n
op_bits (SqeOpFlags.timeout_flags n) = n
op_bits (SqeOpFlags.accept_flags n) = n
op_bits (SqeOpFlags.cancel_flags n) = n
op_bits (SqeOpFlags.open_flags n) = n
op_bits (SqeOpFlags.statx_flags n) = n
op_bits (SqeOpFlags.fadvise_advice n) = n
op_bits (SqeOpFlags.splice_flags n) = n

-- the target in the field `fd`, by the flag `FIXED_FILE`
abbrev pub file : IoUringSqe → Target
file sqe = if sqe.flags % 2 == 1 then fixed sqe.fd else descriptor sqe.fd

-- the input of `splice` and `tee`, by the flag `SPLICE_F_FD_IN_FIXED`
abbrev pub splice_input : IoUringSqe → Target
splice_input sqe =
    if leb (2 ^ 31) (op_bits sqe.op_flags)
    then fixed sqe.splice_fd_in
    else descriptor sqe.splice_fd_in

abbrev pub decode_nop : IoUringSqe → Request
decode_nop sqe = nop no_arguments

abbrev pub decode_read_vectored : IoUringSqe → Request
decode_read_vectored sqe = read_vectored (record {
  fd = file sqe;
  iovec = sqe.addr_splice;
  len = sqe.len;
  ioprio = sqe.ioprio;
  offset = sqe.off_addr2;
  rw_flags = op_bits sqe.op_flags;
})

abbrev pub decode_write_vectored : IoUringSqe → Request
decode_write_vectored sqe = write_vectored (record {
  fd = file sqe;
  iovec = sqe.addr_splice;
  len = sqe.len;
  ioprio = sqe.ioprio;
  offset = sqe.off_addr2;
  rw_flags = op_bits sqe.op_flags;
})

abbrev pub decode_read_fixed : IoUringSqe → Request
decode_read_fixed sqe = read_fixed (record {
  fd = file sqe;
  buf = sqe.addr_splice;
  len = sqe.len;
  buf_index = sqe.buf_info;
  offset = sqe.off_addr2;
  ioprio = sqe.ioprio;
  rw_flags = op_bits sqe.op_flags;
})

abbrev pub decode_write_fixed : IoUringSqe → Request
decode_write_fixed sqe = write_fixed (record {
  fd = file sqe;
  buf = sqe.addr_splice;
  len = sqe.len;
  buf_index = sqe.buf_info;
  ioprio = sqe.ioprio;
  offset = sqe.off_addr2;
  rw_flags = op_bits sqe.op_flags;
})

abbrev pub decode_poll_add : IoUringSqe → Request
decode_poll_add sqe = poll_add (record { fd = file sqe; poll_events = op_bits sqe.op_flags })

abbrev pub decode_poll_remove : IoUringSqe → Request
decode_poll_remove sqe = poll_remove (record { user_data = sqe.addr_splice })

abbrev pub decode_sync_file_range : IoUringSqe → Request
decode_sync_file_range sqe =
    sync_file_range (record {
      fd = file sqe;
      len = sqe.len;
      offset = sqe.off_addr2;
      flags = op_bits sqe.op_flags;
    })

abbrev pub decode_send_msg : IoUringSqe → Request
decode_send_msg sqe = send_msg (record {
  fd = file sqe;
  msg = sqe.addr_splice;
  ioprio = sqe.ioprio;
  flags = op_bits sqe.op_flags;
})

abbrev pub decode_recv_msg : IoUringSqe → Request
decode_recv_msg sqe = recv_msg (record {
  fd = file sqe;
  msg = sqe.addr_splice;
  ioprio = sqe.ioprio;
  flags = op_bits sqe.op_flags;
})

abbrev pub decode_timeout : IoUringSqe → Request
decode_timeout sqe =
    timeout
      (record { timespec = sqe.addr_splice; count = sqe.off_addr2; flags = op_bits sqe.op_flags })

abbrev pub decode_timeout_remove : IoUringSqe → Request
decode_timeout_remove sqe =
    timeout_remove (record { user_data = sqe.addr_splice; flags = op_bits sqe.op_flags })

abbrev pub decode_accept : IoUringSqe → Request
decode_accept sqe = accept (record {
  fd = file sqe;
  addr = sqe.addr_splice;
  addrlen = sqe.off_addr2;
  flags = op_bits sqe.op_flags;
})

abbrev pub decode_async_cancel : IoUringSqe → Request
decode_async_cancel sqe =
    async_cancel (record { user_data = sqe.addr_splice; flags = op_bits sqe.op_flags })

abbrev pub decode_link_timeout : IoUringSqe → Request
decode_link_timeout sqe =
    link_timeout (record { timespec = sqe.addr_splice; flags = op_bits sqe.op_flags })

abbrev pub decode_connect : IoUringSqe → Request
decode_connect sqe =
    connect (record { fd = file sqe; addr = sqe.addr_splice; addrlen = sqe.off_addr2 })

abbrev pub decode_fallocate : IoUringSqe → Request
decode_fallocate sqe =
    fallocate
      (record { fd = file sqe; len = sqe.addr_splice; offset = sqe.off_addr2; mode = sqe.len })

abbrev pub decode_fadvise : IoUringSqe → Request
decode_fadvise sqe =
    fadvise (record {
      fd = file sqe;
      len = sqe.len;
      advice = op_bits sqe.op_flags;
      offset = sqe.off_addr2;
    })

abbrev pub decode_madvise : IoUringSqe → Request
decode_madvise sqe =
    madvise (record { addr = sqe.addr_splice; len = sqe.len; advice = op_bits sqe.op_flags })

abbrev pub decode_open_at : IoUringSqe → Request
decode_open_at sqe = open_at (record {
  dirfd = sqe.fd;
  pathname = sqe.addr_splice;
  flags = op_bits sqe.op_flags;
  mode = sqe.len;
})

abbrev pub decode_open_at2 : IoUringSqe → Request
decode_open_at2 sqe =
    open_at2
      (record { dirfd = sqe.fd; pathname = sqe.addr_splice; how = sqe.off_addr2; len = sqe.len })

abbrev pub decode_close : IoUringSqe → Request
decode_close sqe = close (record { fd = sqe.fd })

abbrev pub decode_statx : IoUringSqe → Request
decode_statx sqe = statx (record {
  dirfd = sqe.fd;
  pathname = sqe.addr_splice;
  statxbuf = sqe.off_addr2;
  flags = op_bits sqe.op_flags;
  mask = sqe.len;
})

abbrev pub decode_read : IoUringSqe → Request
decode_read sqe = read (record {
  fd = file sqe;
  buf = sqe.addr_splice;
  len = sqe.len;
  offset = sqe.off_addr2;
  ioprio = sqe.ioprio;
  rw_flags = op_bits sqe.op_flags;
})

abbrev pub decode_write : IoUringSqe → Request
decode_write sqe = write (record {
  fd = file sqe;
  buf = sqe.addr_splice;
  len = sqe.len;
  offset = sqe.off_addr2;
  ioprio = sqe.ioprio;
  rw_flags = op_bits sqe.op_flags;
})

abbrev pub decode_send : IoUringSqe → Request
decode_send sqe =
    send
      (record { fd = file sqe; buf = sqe.addr_splice; len = sqe.len; flags = op_bits sqe.op_flags })

abbrev pub decode_recv : IoUringSqe → Request
decode_recv sqe =
    recv
      (record { fd = file sqe; buf = sqe.addr_splice; len = sqe.len; flags = op_bits sqe.op_flags })

abbrev pub decode_epoll_ctl : IoUringSqe → Request
decode_epoll_ctl sqe =
    epoll_ctl
      (record { epfd = file sqe; fd = sqe.off_addr2 % 2 ^ 32; op = sqe.len; ev = sqe.addr_splice })

abbrev pub decode_splice : IoUringSqe → Request
decode_splice sqe = splice (record {
  fd_in = splice_input sqe;
  off_in = sqe.addr_splice;
  fd_out = file sqe;
  off_out = sqe.off_addr2;
  len = sqe.len;
  flags = op_bits sqe.op_flags % 2 ^ 31;
})

abbrev pub decode_tee : IoUringSqe → Request
decode_tee sqe = tee (record {
  fd_in = splice_input sqe;
  fd_out = file sqe;
  len = sqe.len;
  flags = op_bits sqe.op_flags % 2 ^ 31;
})

abbrev pub decode_files_update : IoUringSqe → Request
decode_files_update sqe =
    files_update (record { fds = sqe.addr_splice; len = sqe.len; offset = sqe.off_addr2 })

abbrev pub decode_provide_buffers : IoUringSqe → Request
decode_provide_buffers sqe = provide_buffers (record {
  addr = sqe.addr_splice;
  len = sqe.len;
  nbufs = sqe.fd;
  buf_group = sqe.buf_info;
  buf_id = sqe.off_addr2;
})

abbrev pub decode_remove_buffers : IoUringSqe → Request
decode_remove_buffers sqe = remove_buffers (record { nbufs = sqe.fd; buf_group = sqe.buf_info })
