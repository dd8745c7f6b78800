-- ===== src/Uring/Marks.antt =====
-- The fields that every `prep_sqe` sets alike, and what it takes from the old entry.
use hamerkop.Base.{ℕ, ◌≡◌, refl, ap, bit_or, if◌then◌else◌, Option, some, none}
use hamerkop.Uring.Files.{
  prep_read_vectored, prep_write_vectored, prep_read_fixed, prep_write_fixed, prep_read, prep_write,
  prep_sync_file_range, prep_fallocate, prep_fadvise, prep_madvise, prep_splice, prep_tee,
}
use hamerkop.Uring.Sockets.{
  prep_send_msg, prep_recv_msg, prep_accept, prep_connect, prep_send, prep_recv, prep_poll_add,
  prep_poll_remove, prep_epoll_ctl,
}
use hamerkop.Uring.Control.{
  prep_nop, prep_timeout, prep_timeout_remove, prep_async_cancel, prep_link_timeout, prep_open_at,
  prep_open_at2, prep_close, prep_statx, prep_files_update, prep_provide_buffers,
  prep_remove_buffers,
}
use hamerkop.Uring.Raw.{
  fixed_file, Target, IoUringSqe, SubmissionQueueEvent, descriptor, fixed, is_fixed, set_flags,
  add_flags, clear, zeroed,
}
use hamerkop.Uring.Request.{
  Request, request_opcode, target, prepare, nop, read_vectored, write_vectored, read_fixed,
  write_fixed, poll_add, poll_remove, sync_file_range, send_msg, recv_msg, timeout, timeout_remove,
  accept, async_cancel, link_timeout, connect, fallocate, fadvise, madvise, open_at, open_at2,
  close, statx, read, write, send, recv, epoll_ctl, splice, tee, files_update, provide_buffers,
  remove_buffers,
}

-- the flag that tells an index of a registered file from a descriptor
abbrev pub file_flag : Option Target → ℕ
file_flag (some (fixed index)) = fixed_file
file_flag (some (descriptor fd)) = 0
file_flag none = 0

abbrev pub IsMarked : Option Target → ℕ → IoUringSqe → Type 0
IsMarked t code sqe =
    (sqe.opcode ≡ code) × (sqe.flags ≡ file_flag t) × (sqe.user_data ≡ 0) × (sqe.personality ≡ 0)

set_after :
    (t : Target) (w : IoUringSqe)
    → IsMarked none w.opcode w
    → IsMarked (some t) w.opcode (if is_fixed t then set_flags w fixed_file else w)
unfolding set_flags is_fixed
set_after (descriptor fd) w h = h
set_after (fixed index) w (a, b, c, d) = (refl, refl, c, d)

add_after :
    (t : Target) (w : IoUringSqe)
    → w.flags ≡ 0
    → IsMarked none w.opcode w
    → IsMarked (some t) w.opcode (if is_fixed t then add_flags w fixed_file else w)
unfolding add_flags is_fixed
add_after (descriptor fd) w z h = h
add_after (fixed index) w z (a, b, c, d) = (refl, ap (λ f. bit_or f fixed_file) z, c, d)

add_before :
    (t : Target)
    → IsMarked (some t) 0 (if is_fixed t then add_flags (clear zeroed) fixed_file else clear zeroed)
unfolding add_flags is_fixed clear
add_before (descriptor fd) = (refl, refl, refl, refl)
add_before (fixed index) = (refl, refl, refl, refl)

-- `prepare` leaves the opcode of the request, the flag of its target, and no user data, whatever the
-- entry held before.
pub prepare-IsMarked :
    (request : Request) (sqe : SubmissionQueueEvent)
    → IsMarked (target request) (request_opcode request) (prepare request sqe)
unfolding prepare target request_opcode clear prep_nop prep_read_vectored prep_write_vectored
    prep_read_fixed prep_write_fixed prep_poll_add prep_poll_remove prep_sync_file_range
    prep_send_msg prep_recv_msg prep_timeout prep_timeout_remove prep_accept prep_async_cancel
    prep_link_timeout prep_connect prep_fallocate prep_fadvise prep_madvise prep_open_at
    prep_open_at2 prep_close prep_statx prep_read prep_write prep_send prep_recv prep_epoll_ctl
    prep_splice prep_tee prep_files_update prep_provide_buffers prep_remove_buffers
prepare-IsMarked (nop r) sqe = (refl, refl, refl, refl)
prepare-IsMarked (read_vectored r) sqe = set_after r.fd _ (refl, refl, refl, refl)
prepare-IsMarked (write_vectored r) sqe = set_after r.fd _ (refl, refl, refl, refl)
prepare-IsMarked (read_fixed r) sqe = set_after r.fd _ (refl, refl, refl, refl)
prepare-IsMarked (write_fixed r) sqe = set_after r.fd _ (refl, refl, refl, refl)
prepare-IsMarked (poll_add r) sqe = set_after r.fd _ (refl, refl, refl, refl)
prepare-IsMarked (poll_remove r) sqe = (refl, refl, refl, refl)
prepare-IsMarked (sync_file_range r) sqe = set_after r.fd _ (refl, refl, refl, refl)
prepare-IsMarked (send_msg r) sqe = set_after r.fd _ (refl, refl, refl, refl)
prepare-IsMarked (recv_msg r) sqe = set_after r.fd _ (refl, refl, refl, refl)
prepare-IsMarked (timeout r) sqe = (refl, refl, refl, refl)
prepare-IsMarked (timeout_remove r) sqe = (refl, refl, refl, refl)
prepare-IsMarked (accept r) sqe = set_after r.fd _ (refl, refl, refl, refl)
prepare-IsMarked (async_cancel r) sqe = (refl, refl, refl, refl)
prepare-IsMarked (link_timeout r) sqe = (refl, refl, refl, refl)
prepare-IsMarked (connect r) sqe = set_after r.fd _ (refl, refl, refl, refl)
prepare-IsMarked (fallocate r) sqe = add_after r.fd _ refl (refl, refl, refl, refl)
prepare-IsMarked (fadvise r) sqe = add_after r.fd _ refl (refl, refl, refl, refl)
prepare-IsMarked (madvise r) sqe = (refl, refl, refl, refl)
prepare-IsMarked (open_at r) sqe = (refl, refl, refl, refl)
prepare-IsMarked (open_at2 r) sqe = (refl, refl, refl, refl)
prepare-IsMarked (close r) sqe = (refl, refl, refl, refl)
prepare-IsMarked (statx r) sqe = (refl, refl, refl, refl)
prepare-IsMarked (read r) sqe = add_after r.fd _ refl (refl, refl, refl, refl)
prepare-IsMarked (write r) sqe = let h = add_before r.fd in (refl, h.1, h.2, h.3)
prepare-IsMarked (send r) sqe = let h = add_before r.fd in (refl, h.1, h.2, h.3)
prepare-IsMarked (recv r) sqe = let h = add_before r.fd in (refl, h.1, h.2, h.3)
prepare-IsMarked (epoll_ctl r) sqe = let h = add_before r.epfd in (refl, h.1, h.2, h.3)
prepare-IsMarked (splice r) sqe = let h = add_before r.fd_out in (refl, h.1, h.2, h.3)
prepare-IsMarked (tee r) sqe = let h = add_before r.fd_out in (refl, h.1, h.2, h.3)
prepare-IsMarked (files_update r) sqe = (refl, refl, refl, refl)
prepare-IsMarked (provide_buffers r) sqe = (refl, refl, refl, refl)
prepare-IsMarked (remove_buffers r) sqe = (refl, refl, refl, refl)

-- `prepare` does not let anything of the old entry through.
pub prepare-stale :
    (request : Request) (before after : SubmissionQueueEvent)
    → prepare request before ≡ prepare request after
unfolding prepare clear prep_nop prep_read_vectored prep_write_vectored prep_read_fixed
    prep_write_fixed prep_poll_add prep_poll_remove prep_sync_file_range prep_send_msg prep_recv_msg
    prep_timeout prep_timeout_remove prep_accept prep_async_cancel prep_link_timeout prep_connect
    prep_fallocate prep_fadvise prep_madvise prep_open_at prep_open_at2 prep_close prep_statx
    prep_read prep_write prep_send prep_recv prep_epoll_ctl prep_splice prep_tee prep_files_update
    prep_provide_buffers prep_remove_buffers
prepare-stale (nop r) before after = refl
prepare-stale (read_vectored r) before after = refl
prepare-stale (write_vectored r) before after = refl
prepare-stale (read_fixed r) before after = refl
prepare-stale (write_fixed r) before after = refl
prepare-stale (poll_add r) before after = refl
prepare-stale (poll_remove r) before after = refl
prepare-stale (sync_file_range r) before after = refl
prepare-stale (send_msg r) before after = refl
prepare-stale (recv_msg r) before after = refl
prepare-stale (timeout r) before after = refl
prepare-stale (timeout_remove r) before after = refl
prepare-stale (accept r) before after = refl
prepare-stale (async_cancel r) before after = refl
prepare-stale (link_timeout r) before after = refl
prepare-stale (connect r) before after = refl
prepare-stale (fallocate r) before after = refl
prepare-stale (fadvise r) before after = refl
prepare-stale (madvise r) before after = refl
prepare-stale (open_at r) before after = refl
prepare-stale (open_at2 r) before after = refl
prepare-stale (close r) before after = refl
prepare-stale (statx r) before after = refl
prepare-stale (read r) before after = refl
prepare-stale (write r) before after = refl
prepare-stale (send r) before after = refl
prepare-stale (recv r) before after = refl
prepare-stale (epoll_ctl r) before after = refl
prepare-stale (splice r) before after = refl
prepare-stale (tee r) before after = refl
prepare-stale (files_update r) before after = refl
prepare-stale (provide_buffers r) before after = refl
prepare-stale (remove_buffers r) before after = refl
