-- ===== src/Uring/Request.antt =====
-- The requests of uring/src/sqe_types.rs as one type, `Prepare` for each, and what the kernel reads
-- in the entry that `prep_sqe` leaves.
use hamerkop.Base.{ℕ, Option, none, some}
use hamerkop.Uring.Files.{
  ReadVectored, prep_read_vectored, WriteVectored, prep_write_vectored, ReadFixed, prep_read_fixed,
  WriteFixed, prep_write_fixed, Read, prep_read, Write, prep_write, SyncFileRange,
  prep_sync_file_range, Fallocate, prep_fallocate, Fadvise, prep_fadvise, Madvise, prep_madvise,
  Splice, prep_splice, Tee, prep_tee,
}
use hamerkop.Uring.Sockets.{
  SendMsg, prep_send_msg, RecvMsg, prep_recv_msg, Accept, prep_accept, Connect, prep_connect, Send,
  prep_send, Recv, prep_recv, PollAdd, prep_poll_add, PollRemove, prep_poll_remove, EpollCtl,
  prep_epoll_ctl,
}
use hamerkop.Uring.Control.{
  Nop, prep_nop, Timeout, prep_timeout, TimeoutRemove, prep_timeout_remove, AsyncCancel,
  prep_async_cancel, LinkTimeout, prep_link_timeout, OpenAt, prep_open_at, OpenAt2, prep_open_at2,
  Close, prep_close, Statx, prep_statx, FilesUpdate, prep_files_update, ProvideBuffers,
  prep_provide_buffers, RemoveBuffers, prep_remove_buffers,
}
use hamerkop.Uring.Raw.{
  Target, SubmissionQueueEvent, ioring_op_nop, ioring_op_readv, ioring_op_writev,
  ioring_op_read_fixed, ioring_op_write_fixed, ioring_op_poll_add, ioring_op_poll_remove,
  ioring_op_sync_file_range, ioring_op_sendmsg, ioring_op_recvmsg, ioring_op_timeout,
  ioring_op_timeout_remove, ioring_op_accept, ioring_op_async_cancel, ioring_op_link_timeout,
  ioring_op_connect, ioring_op_fallocate, ioring_op_fadvise, ioring_op_madvise, ioring_op_openat,
  ioring_op_openat2, ioring_op_close, ioring_op_statx, ioring_op_read, ioring_op_write,
  ioring_op_send, ioring_op_recv, ioring_op_epoll_ctl, ioring_op_splice, ioring_op_tee,
  ioring_op_files_update, ioring_op_provide_buffers, ioring_op_remove_buffers,
}

pub data Request : Type 0 where
  nop : Nop → Request
  read_vectored : ReadVectored → Request
  write_vectored : WriteVectored → Request
  read_fixed : ReadFixed → Request
  write_fixed : WriteFixed → Request
  poll_add : PollAdd → Request
  poll_remove : PollRemove → Request
  sync_file_range : SyncFileRange → Request
  send_msg : SendMsg → Request
  recv_msg : RecvMsg → Request
  timeout : Timeout → Request
  timeout_remove : TimeoutRemove → Request
  accept : Accept → Request
  async_cancel : AsyncCancel → Request
  link_timeout : LinkTimeout → Request
  connect : Connect → Request
  fallocate : Fallocate → Request
  fadvise : Fadvise → Request
  madvise : Madvise → Request
  open_at : OpenAt → Request
  open_at2 : OpenAt2 → Request
  close : Close → Request
  statx : Statx → Request
  read : Read → Request
  write : Write → Request
  send : Send → Request
  recv : Recv → Request
  epoll_ctl : EpollCtl → Request
  splice : Splice → Request
  tee : Tee → Request
  files_update : FilesUpdate → Request
  provide_buffers : ProvideBuffers → Request
  remove_buffers : RemoveBuffers → Request

-- the constant `OPCODE` of each request
unfoldable pub request_opcode : Request → ℕ
request_opcode (nop r) = ioring_op_nop
request_opcode (read_vectored r) = ioring_op_readv
request_opcode (write_vectored r) = ioring_op_writev
request_opcode (read_fixed r) = ioring_op_read_fixed
request_opcode (write_fixed r) = ioring_op_write_fixed
request_opcode (poll_add r) = ioring_op_poll_add
request_opcode (poll_remove r) = ioring_op_poll_remove
request_opcode (sync_file_range r) = ioring_op_sync_file_range
request_opcode (send_msg r) = ioring_op_sendmsg
request_opcode (recv_msg r) = ioring_op_recvmsg
request_opcode (timeout r) = ioring_op_timeout
request_opcode (timeout_remove r) = ioring_op_timeout_remove
request_opcode (accept r) = ioring_op_accept
request_opcode (async_cancel r) = ioring_op_async_cancel
request_opcode (link_timeout r) = ioring_op_link_timeout
request_opcode (connect r) = ioring_op_connect
request_opcode (fallocate r) = ioring_op_fallocate
request_opcode (fadvise r) = ioring_op_fadvise
request_opcode (madvise r) = ioring_op_madvise
request_opcode (open_at r) = ioring_op_openat
request_opcode (open_at2 r) = ioring_op_openat2
request_opcode (close r) = ioring_op_close
request_opcode (statx r) = ioring_op_statx
request_opcode (read r) = ioring_op_read
request_opcode (write r) = ioring_op_write
request_opcode (send r) = ioring_op_send
request_opcode (recv r) = ioring_op_recv
request_opcode (epoll_ctl r) = ioring_op_epoll_ctl
request_opcode (splice r) = ioring_op_splice
request_opcode (tee r) = ioring_op_tee
request_opcode (files_update r) = ioring_op_files_update
request_opcode (provide_buffers r) = ioring_op_provide_buffers
request_opcode (remove_buffers r) = ioring_op_remove_buffers

-- `sqe.prepare(request)`
unfoldable pub prepare : Request → SubmissionQueueEvent → SubmissionQueueEvent
prepare (nop r) sqe = prep_nop r sqe
prepare (read_vectored r) sqe = prep_read_vectored r sqe
prepare (write_vectored r) sqe = prep_write_vectored r sqe
prepare (read_fixed r) sqe = prep_read_fixed r sqe
prepare (write_fixed r) sqe = prep_write_fixed r sqe
prepare (poll_add r) sqe = prep_poll_add r sqe
prepare (poll_remove r) sqe = prep_poll_remove r sqe
prepare (sync_file_range r) sqe = prep_sync_file_range r sqe
prepare (send_msg r) sqe = prep_send_msg r sqe
prepare (recv_msg r) sqe = prep_recv_msg r sqe
prepare (timeout r) sqe = prep_timeout r sqe
prepare (timeout_remove r) sqe = prep_timeout_remove r sqe
prepare (accept r) sqe = prep_accept r sqe
prepare (async_cancel r) sqe = prep_async_cancel r sqe
prepare (link_timeout r) sqe = prep_link_timeout r sqe
prepare (connect r) sqe = prep_connect r sqe
prepare (fallocate r) sqe = prep_fallocate r sqe
prepare (fadvise r) sqe = prep_fadvise r sqe
prepare (madvise r) sqe = prep_madvise r sqe
prepare (open_at r) sqe = prep_open_at r sqe
prepare (open_at2 r) sqe = prep_open_at2 r sqe
prepare (close r) sqe = prep_close r sqe
prepare (statx r) sqe = prep_statx r sqe
prepare (read r) sqe = prep_read r sqe
prepare (write r) sqe = prep_write r sqe
prepare (send r) sqe = prep_send r sqe
prepare (recv r) sqe = prep_recv r sqe
prepare (epoll_ctl r) sqe = prep_epoll_ctl r sqe
prepare (splice r) sqe = prep_splice r sqe
prepare (tee r) sqe = prep_tee r sqe
prepare (files_update r) sqe = prep_files_update r sqe
prepare (provide_buffers r) sqe = prep_provide_buffers r sqe
prepare (remove_buffers r) sqe = prep_remove_buffers r sqe

-- the target whose kind the flag `FIXED_FILE` tells
unfoldable pub target : Request → Option Target
target (nop r) = none
target (read_vectored r) = some r.fd
target (write_vectored r) = some r.fd
target (read_fixed r) = some r.fd
target (write_fixed r) = some r.fd
target (poll_add r) = some r.fd
target (poll_remove r) = none
target (sync_file_range r) = some r.fd
target (send_msg r) = some r.fd
target (recv_msg r) = some r.fd
target (timeout r) = none
target (timeout_remove r) = none
target (accept r) = some r.fd
target (async_cancel r) = none
target (link_timeout r) = none
target (connect r) = some r.fd
target (fallocate r) = some r.fd
target (fadvise r) = some r.fd
target (madvise r) = none
target (open_at r) = none
target (open_at2 r) = none
target (close r) = none
target (statx r) = none
target (read r) = some r.fd
target (write r) = some r.fd
target (send r) = some r.fd
target (recv r) = some r.fd
target (epoll_ctl r) = some r.epfd
target (splice r) = some r.fd_out
target (tee r) = some r.fd_out
target (files_update r) = none
target (provide_buffers r) = none
target (remove_buffers r) = none
