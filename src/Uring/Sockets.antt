-- ===== src/Uring/Sockets.antt =====
-- uring/src/sqe_types.rs: requests on sockets and on readiness, each with its constructor and `prep_sqe`.
use hamerkop.Base.{ℕ, if◌then◌else◌}
use hamerkop.Uring.Raw.{
  Target, SqeOpFlags, SubmissionQueueEvent, into_raw, is_fixed, minus_one, sign_extend, fixed_file,
  zeroed, set_flags, add_flags, clear, ioring_op_accept, ioring_op_connect, ioring_op_epoll_ctl,
  ioring_op_poll_add, ioring_op_poll_remove, ioring_op_recv, ioring_op_recvmsg, ioring_op_send,
  ioring_op_sendmsg,
}

pub record SendMsg : Type 0 where
  pub fd : Target
  pub msg : ℕ
  pub ioprio : ℕ
  pub flags : ℕ

unfoldable pub new_send_msg : Target → ℕ → SendMsg
new_send_msg fd msg = record { fd = fd; msg = msg; ioprio = 0; flags = 0 }

unfoldable pub prep_send_msg : SendMsg → SubmissionQueueEvent → SubmissionQueueEvent
prep_send_msg r sqe =
    let written = record zeroed {
      opcode = ioring_op_sendmsg;
      fd = into_raw r.fd;
      addr_splice = r.msg;
      op_flags = SqeOpFlags.msg_flags r.flags;
    } in
    if is_fixed r.fd then set_flags written fixed_file else written

pub record RecvMsg : Type 0 where
  pub fd : Target
  pub msg : ℕ
  pub ioprio : ℕ
  pub flags : ℕ

unfoldable pub new_recv_msg : Target → ℕ → RecvMsg
new_recv_msg fd msg = record { fd = fd; msg = msg; ioprio = 0; flags = 0 }

unfoldable pub prep_recv_msg : RecvMsg → SubmissionQueueEvent → SubmissionQueueEvent
prep_recv_msg r sqe =
    let written = record zeroed {
      opcode = ioring_op_recvmsg;
      fd = into_raw r.fd;
      addr_splice = r.msg;
      op_flags = SqeOpFlags.msg_flags r.flags;
    } in
    if is_fixed r.fd then set_flags written fixed_file else written

pub record Accept : Type 0 where
  pub fd : Target
  pub addr : ℕ
  pub addrlen : ℕ
  pub flags : ℕ

unfoldable pub new_accept : Target → ℕ → ℕ → Accept
new_accept fd addr addrlen = record { fd = fd; addr = addr; addrlen = addrlen; flags = 0 }

unfoldable pub prep_accept : Accept → SubmissionQueueEvent → SubmissionQueueEvent
prep_accept r sqe =
    let written = record zeroed {
      opcode = ioring_op_accept;
      fd = into_raw r.fd;
      addr_splice = r.addr;
      off_addr2 = r.addrlen;
      op_flags = SqeOpFlags.accept_flags r.flags;
    } in
    if is_fixed r.fd then set_flags written fixed_file else written

pub record Connect : Type 0 where
  pub fd : Target
  pub addr : ℕ
  pub addrlen : ℕ

unfoldable pub new_connect : Target → ℕ → ℕ → Connect
new_connect fd addr addrlen = record { fd = fd; addr = addr; addrlen = addrlen }

unfoldable pub prep_connect : Connect → SubmissionQueueEvent → SubmissionQueueEvent
prep_connect r sqe =
    let written = record zeroed {
      opcode = ioring_op_connect;
      fd = into_raw r.fd;
      addr_splice = r.addr;
      off_addr2 = r.addrlen;
    } in
    if is_fixed r.fd then set_flags written fixed_file else written

pub record Send : Type 0 where
  pub fd : Target
  pub buf : ℕ
  pub len : ℕ
  pub flags : ℕ

unfoldable pub new_send : Target → ℕ → ℕ → Send
new_send fd buf len = record { fd = fd; buf = buf; len = len; flags = 0 }

unfoldable pub prep_send : Send → SubmissionQueueEvent → SubmissionQueueEvent
prep_send r sqe =
    let cleared = clear sqe in
    let flagged = if is_fixed r.fd then add_flags cleared fixed_file else cleared in
    record flagged {
      opcode = ioring_op_send;
      fd = into_raw r.fd;
      addr_splice = r.buf;
      len = r.len;
      op_flags = SqeOpFlags.msg_flags r.flags;
    }

pub record Recv : Type 0 where
  pub fd : Target
  pub buf : ℕ
  pub len : ℕ
  pub flags : ℕ

unfoldable pub new_recv : Target → ℕ → ℕ → Recv
new_recv fd buf len = record { fd = fd; buf = buf; len = len; flags = 0 }

unfoldable pub prep_recv : Recv → SubmissionQueueEvent → SubmissionQueueEvent
prep_recv r sqe =
    let cleared = clear sqe in
    let flagged = if is_fixed r.fd then add_flags cleared fixed_file else cleared in
    record flagged {
      opcode = ioring_op_recv;
      fd = into_raw r.fd;
      addr_splice = r.buf;
      len = r.len;
      op_flags = SqeOpFlags.msg_flags r.flags;
    }

pub record PollAdd : Type 0 where
  pub fd : Target
  pub poll_events : ℕ

unfoldable pub new_poll_add : Target → ℕ → PollAdd
new_poll_add fd poll_events = record { fd = fd; poll_events = poll_events }

unfoldable pub prep_poll_add : PollAdd → SubmissionQueueEvent → SubmissionQueueEvent
prep_poll_add r sqe =
    let written = record zeroed {
      opcode = ioring_op_poll_add;
      fd = into_raw r.fd;
      op_flags = SqeOpFlags.poll_events r.poll_events;
    } in
    if is_fixed r.fd then set_flags written fixed_file else written

pub record PollRemove : Type 0 where
  pub user_data : ℕ

unfoldable pub new_poll_remove : ℕ → PollRemove
new_poll_remove user_data = record { user_data = user_data }

unfoldable pub prep_poll_remove : PollRemove → SubmissionQueueEvent → SubmissionQueueEvent
prep_poll_remove r sqe = record zeroed {
  opcode = ioring_op_poll_remove;
  fd = minus_one;
  addr_splice = r.user_data;
}

pub record EpollCtl : Type 0 where
  pub epfd : Target
  pub fd : ℕ
  pub op : ℕ
  pub ev : ℕ

unfoldable pub new_epoll_ctl : Target → ℕ → ℕ → ℕ → EpollCtl
new_epoll_ctl epfd fd op ev = record { epfd = epfd; fd = fd; op = op; ev = ev }

unfoldable pub prep_epoll_ctl : EpollCtl → SubmissionQueueEvent → SubmissionQueueEvent
prep_epoll_ctl r sqe =
    let cleared = clear sqe in
    let flagged = if is_fixed r.epfd then add_flags cleared fixed_file else cleared in
    record flagged {
      opcode = ioring_op_epoll_ctl;
      fd = into_raw r.epfd;
      addr_splice = r.ev;
      len = r.op;
      off_addr2 = sign_extend r.fd;
    }
