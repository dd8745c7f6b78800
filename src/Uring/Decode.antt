-- ===== src/Uring/Decode.antt =====
-- The entry read back: what a kernel that follows the documented layout, and refuses an entry whose
-- other fields are set, takes each request for.
mod Readings
use hamerkop.Base.{
  Bool, true, ◌&&◌, ℕ, ◌%◌, ◌<◌, ◌^◌, ◌≡◌, if◌then◌else◌, Option, none, some, List, [], ◌∷◌, ◌==◌,
  leb, get_elem?,
}
use hamerkop.Uring.Files.{}
use hamerkop.Uring.Sockets.{}
use hamerkop.Uring.Control.{no_arguments}
use hamerkop.Uring.Raw.{minus_one, Target, SqeOpFlags, IoUringSqe, descriptor, fixed}
use hamerkop.Uring.Request.{
  Request, nop, read_vectored, write_vectored, read_fixed, write_fixed, poll_add, poll_remove,
  sync_file_range, send_msg, recv_msg, timeout, timeout_remove, accept, async_cancel, link_timeout,
  connect, fallocate, fadvise, madvise, open_at, open_at2, close, statx, read, write, send, recv,
  epoll_ctl, splice, tee, files_update, provide_buffers, remove_buffers,
}
use hamerkop.Uring.Decode.Readings.{
  op_bits, file, decode_nop, decode_read_vectored, decode_write_vectored, decode_read_fixed,
  decode_write_fixed, decode_poll_add, decode_poll_remove, decode_sync_file_range, decode_send_msg,
  decode_recv_msg, decode_timeout, decode_timeout_remove, decode_accept, decode_async_cancel,
  decode_link_timeout, decode_connect, decode_fallocate, decode_fadvise, decode_madvise,
  decode_open_at, decode_open_at2, decode_close, decode_statx, decode_read, decode_write,
  decode_send, decode_recv, decode_epoll_ctl, decode_splice, decode_tee, decode_files_update,
  decode_provide_buffers, decode_remove_buffers,
}

-- The fields that a kernel checks. The three of every request are not among them.
pub data Field : Type 0 where
  flag_bits priority offset address len op_bits_of buffer splice_fd target : Field

abbrev field : Field → IoUringSqe → ℕ
field Field.flag_bits sqe = sqe.flags
field Field.priority sqe = sqe.ioprio
field Field.offset sqe = sqe.off_addr2
field Field.address sqe = sqe.addr_splice
field Field.len sqe = sqe.len
field Field.op_bits_of sqe = op_bits sqe.op_flags
field Field.buffer sqe = sqe.buf_info
field Field.splice_fd sqe = sqe.splice_fd_in
field Field.target sqe = sqe.fd

abbrev has : List (Field × ℕ) → IoUringSqe → Bool
has [] sqe = true
has ((f, n) ∷ required) sqe = (field f sqe == n) && has required sqe

-- Nothing is asked of an entry but, for some requests, a registered file; who waits is not set yet.
abbrev is_plain : IoUringSqe → Bool
is_plain sqe = leb sqe.flags 1 && ((sqe.user_data == 0) && (sqe.personality == 0))

-- By opcode: the fields that the request does not use and that must be 0, with the descriptor -1 of
-- the requests that have no file and the length of the two timeouts, which counts their one timespec
-- and must be 1, and the reading of the others.
abbrev decoders : List (Option (List (Field × ℕ) × (IoUringSqe → Request)))
decoders =
    some (
      ((Field.flag_bits, 0)
          ∷ (Field.priority, 0)
          ∷ (Field.offset, 0)
          ∷ (Field.address, 0)
          ∷ (Field.len, 0)
          ∷ (Field.op_bits_of, 0)
          ∷ (Field.buffer, 0)
          ∷ (Field.splice_fd, 0)
          ∷ (Field.target, minus_one)
          ∷ []),
      decode_nop,
    )
    ∷ some (((Field.buffer, 0) ∷ (Field.splice_fd, 0) ∷ []), decode_read_vectored)
    ∷ some (((Field.buffer, 0) ∷ (Field.splice_fd, 0) ∷ []), decode_write_vectored)
    ∷ none
    ∷ some (((Field.splice_fd, 0) ∷ []), decode_read_fixed)
    ∷ some (((Field.splice_fd, 0) ∷ []), decode_write_fixed)
    ∷ some (
      ((Field.priority, 0)
          ∷ (Field.offset, 0)
          ∷ (Field.address, 0)
          ∷ (Field.len, 0)
          ∷ (Field.buffer, 0)
          ∷ (Field.splice_fd, 0)
          ∷ []),
      decode_poll_add,
    )
    ∷ some (
      ((Field.flag_bits, 0)
          ∷ (Field.priority, 0)
          ∷ (Field.offset, 0)
          ∷ (Field.len, 0)
          ∷ (Field.op_bits_of, 0)
          ∷ (Field.buffer, 0)
          ∷ (Field.splice_fd, 0)
          ∷ (Field.target, minus_one)
          ∷ []),
      decode_poll_remove,
    )
    ∷ some (
      ((Field.priority, 0) ∷ (Field.address, 0) ∷ (Field.buffer, 0) ∷ (Field.splice_fd, 0) ∷ []),
      decode_sync_file_range,
    )
    ∷ some (
      ((Field.offset, 0) ∷ (Field.len, 0) ∷ (Field.buffer, 0) ∷ (Field.splice_fd, 0) ∷ []),
      decode_send_msg,
    )
    ∷ some (
      ((Field.offset, 0) ∷ (Field.len, 0) ∷ (Field.buffer, 0) ∷ (Field.splice_fd, 0) ∷ []),
      decode_recv_msg,
    )
    ∷ some (
      ((Field.flag_bits, 0)
          ∷ (Field.priority, 0)
          ∷ (Field.buffer, 0)
          ∷ (Field.splice_fd, 0)
          ∷ (Field.len, 1)
          ∷ (Field.target, minus_one)
          ∷ []),
      decode_timeout,
    )
    ∷ some (
      ((Field.flag_bits, 0)
          ∷ (Field.priority, 0)
          ∷ (Field.offset, 0)
          ∷ (Field.len, 0)
          ∷ (Field.buffer, 0)
          ∷ (Field.splice_fd, 0)
          ∷ (Field.target, minus_one)
          ∷ []),
      decode_timeout_remove,
    )
    ∷ some (
      ((Field.priority, 0) ∷ (Field.len, 0) ∷ (Field.buffer, 0) ∷ (Field.splice_fd, 0) ∷ []),
      decode_accept,
    )
    ∷ some (
      ((Field.flag_bits, 0)
          ∷ (Field.priority, 0)
          ∷ (Field.offset, 0)
          ∷ (Field.len, 0)
          ∷ (Field.buffer, 0)
          ∷ (Field.splice_fd, 0)
          ∷ (Field.target, minus_one)
          ∷ []),
      decode_async_cancel,
    )
    ∷ some (
      ((Field.flag_bits, 0)
          ∷ (Field.priority, 0)
          ∷ (Field.offset, 0)
          ∷ (Field.buffer, 0)
          ∷ (Field.splice_fd, 0)
          ∷ (Field.len, 1)
          ∷ (Field.target, minus_one)
          ∷ []),
      decode_link_timeout,
    )
    ∷ some (
      ((Field.priority, 0)
          ∷ (Field.len, 0)
          ∷ (Field.op_bits_of, 0)
          ∷ (Field.buffer, 0)
          ∷ (Field.splice_fd, 0)
          ∷ []),
      decode_connect,
    )
    ∷ some (
      ((Field.priority, 0) ∷ (Field.op_bits_of, 0) ∷ (Field.buffer, 0) ∷ (Field.splice_fd, 0) ∷ []),
      decode_fallocate,
    )
    ∷ some (
      ((Field.flag_bits, 0)
          ∷ (Field.priority, 0)
          ∷ (Field.offset, 0)
          ∷ (Field.buffer, 0)
          ∷ (Field.splice_fd, 0)
          ∷ []),
      decode_open_at,
    )
    ∷ some (
      ((Field.flag_bits, 0)
          ∷ (Field.priority, 0)
          ∷ (Field.offset, 0)
          ∷ (Field.address, 0)
          ∷ (Field.len, 0)
          ∷ (Field.op_bits_of, 0)
          ∷ (Field.buffer, 0)
          ∷ (Field.splice_fd, 0)
          ∷ []),
      decode_close,
    )
    ∷ some (
      ((Field.flag_bits, 0)
          ∷ (Field.priority, 0)
          ∷ (Field.op_bits_of, 0)
          ∷ (Field.buffer, 0)
          ∷ (Field.splice_fd, 0)
          ∷ (Field.target, minus_one)
          ∷ []),
      decode_files_update,
    )
    ∷ some (
      ((Field.flag_bits, 0) ∷ (Field.priority, 0) ∷ (Field.buffer, 0) ∷ (Field.splice_fd, 0) ∷ []),
      decode_statx,
    )
    ∷ some (((Field.buffer, 0) ∷ (Field.splice_fd, 0) ∷ []), decode_read)
    ∷ some (((Field.buffer, 0) ∷ (Field.splice_fd, 0) ∷ []), decode_write)
    ∷ some (
      ((Field.priority, 0) ∷ (Field.address, 0) ∷ (Field.buffer, 0) ∷ (Field.splice_fd, 0) ∷ []),
      decode_fadvise,
    )
    ∷ some (
      ((Field.flag_bits, 0)
          ∷ (Field.priority, 0)
          ∷ (Field.offset, 0)
          ∷ (Field.buffer, 0)
          ∷ (Field.splice_fd, 0)
          ∷ (Field.target, minus_one)
          ∷ []),
      decode_madvise,
    )
    ∷ some (
      ((Field.priority, 0) ∷ (Field.offset, 0) ∷ (Field.buffer, 0) ∷ (Field.splice_fd, 0) ∷ []),
      decode_send,
    )
    ∷ some (
      ((Field.priority, 0) ∷ (Field.offset, 0) ∷ (Field.buffer, 0) ∷ (Field.splice_fd, 0) ∷ []),
      decode_recv,
    )
    ∷ some (
      ((Field.flag_bits, 0)
          ∷ (Field.priority, 0)
          ∷ (Field.op_bits_of, 0)
          ∷ (Field.buffer, 0)
          ∷ (Field.splice_fd, 0)
          ∷ []),
      decode_open_at2,
    )
    ∷ some (
      ((Field.priority, 0) ∷ (Field.op_bits_of, 0) ∷ (Field.buffer, 0) ∷ (Field.splice_fd, 0) ∷ []),
      decode_epoll_ctl,
    )
    ∷ some (((Field.priority, 0) ∷ (Field.buffer, 0) ∷ []), decode_splice)
    ∷ some (
      ((Field.flag_bits, 0)
          ∷ (Field.priority, 0)
          ∷ (Field.op_bits_of, 0)
          ∷ (Field.splice_fd, 0)
          ∷ []),
      decode_provide_buffers,
    )
    ∷ some (
      ((Field.flag_bits, 0)
          ∷ (Field.priority, 0)
          ∷ (Field.offset, 0)
          ∷ (Field.address, 0)
          ∷ (Field.len, 0)
          ∷ (Field.op_bits_of, 0)
          ∷ (Field.splice_fd, 0)
          ∷ []),
      decode_remove_buffers,
    )
    ∷ some (
      ((Field.priority, 0) ∷ (Field.offset, 0) ∷ (Field.address, 0) ∷ (Field.buffer, 0) ∷ []),
      decode_tee,
    )
    ∷ []

abbrev apply :
    IoUringSqe → Option (Option (List (Field × ℕ) × (IoUringSqe → Request))) → Option Request
apply sqe (some (some (required, f))) =
    if is_plain sqe && has required sqe then some (f sqe) else none
apply sqe (some none) = none
apply sqe none = none

unfoldable pub decode : IoUringSqe → Option Request
decode sqe = apply sqe (get_elem? decoders sqe.opcode)

-- The entry, with that length mended.
unfoldable pub mended : Request → IoUringSqe → IoUringSqe
mended (link_timeout r) sqe = record sqe { len = 1 }
mended request sqe = sqe

-- what is read: the request, but for the timeout of a link, whose entry has the length 0
unfoldable pub reads_as : Request → Option Request
reads_as (link_timeout r) = none
reads_as request = some request

-- The requests that an entry can carry whole. `prep_sqe` leaves out `rw_flags` of four requests and
-- `ioprio` of two, and saturates two lengths; the other bounds are those of the types.
unfoldable pub Carried : Request → Type 0
Carried (nop r) = Unit
Carried (read_vectored r) = r.rw_flags ≡ 0
Carried (write_vectored r) = r.rw_flags ≡ 0
Carried (read_fixed r) = r.rw_flags ≡ 0
Carried (write_fixed r) = r.rw_flags ≡ 0
Carried (poll_add r) = Unit
Carried (poll_remove r) = Unit
Carried (sync_file_range r) = Unit
Carried (send_msg r) = r.ioprio ≡ 0
Carried (recv_msg r) = r.ioprio ≡ 0
Carried (timeout r) = Unit
Carried (timeout_remove r) = Unit
Carried (accept r) = Unit
Carried (async_cancel r) = Unit
Carried (link_timeout r) = Unit
Carried (connect r) = Unit
Carried (fallocate r) = Unit
Carried (fadvise r) = r.len < 2 ^ 32
Carried (madvise r) = r.len < 2 ^ 32
Carried (open_at r) = Unit
Carried (open_at2 r) = Unit
Carried (close r) = Unit
Carried (statx r) = Unit
Carried (read r) = Unit
Carried (write r) = Unit
Carried (send r) = Unit
Carried (recv r) = Unit
Carried (epoll_ctl r) = r.fd < 2 ^ 32
Carried (splice r) = r.flags < 2 ^ 31
Carried (tee r) = r.flags < 2 ^ 31
Carried (files_update r) = Unit
Carried (provide_buffers r) = Unit
Carried (remove_buffers r) = Unit
