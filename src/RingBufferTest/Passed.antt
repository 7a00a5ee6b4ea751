-- ===== src/RingBufferTest/Passed.antt =====
-- The cases of RingBufferTest.cpp pass.
use tux_base_mmo.Common.{
  ℕ, zero, suc, ◌+◌, ◌*◌, ◌/◌, ◌%◌, ◌==◌, ◌&&◌, ◌<◌, ◌∙◌, ==_refl, ◌^◌, ◌≡◌, refl, true, some,
  arith, add32, sub32,
}
use tux_base_mmo.Verify.{Build, debug, release, returns}
use tux_base_mmo.RingBuffer.{
  create_writer, create_all_writer, writable_size, create_reader, create_reader_at,
  create_all_reader, create_all_reader_at, jump_at_tail, readable_size, commit_write, commit_read,
  clear_if_read, clear, give_up_reader, destroy_ring,
}
use tux_base_mmo.RingBuffer.Handle.{
  writer_get_ptr, writer_commit, writer_destroy, writer_as, reader_get_ptr, reader_as,
  reader_commit, reader_give_up, reader_destroy,
}
use tux_base_mmo.RingBufferTest.{
  socket_recv, socket_send, create_send_buffer, fetch_recv_buffer, send_complete, send,
  recv_complete, recv, send_packet,
}
use tux_base_mmo.RingBufferTest.Cases.{wrap, wrap_reset_cursor, net_io}

wrap_passes : (build : Build) (memory : ℕ → ℕ) → wrap build memory ≡ returns true
unfolding wrap create_writer create_reader create_reader_at create_all_reader create_all_reader_at
    jump_at_tail readable_size commit_write commit_read clear_if_read clear give_up_reader
    destroy_ring writer_get_ptr writer_commit writer_destroy reader_get_ptr reader_commit
    reader_give_up reader_destroy add32 sub32
wrap_passes debug memory = refl
wrap_passes release memory = refl

wrap_reset_cursor_passes :
    (build : Build) (memory : ℕ → ℕ) → wrap_reset_cursor build memory ≡ returns true
unfolding wrap_reset_cursor create_writer create_reader create_reader_at create_all_reader
    create_all_reader_at jump_at_tail readable_size commit_write commit_read clear_if_read clear
    give_up_reader destroy_ring writer_get_ptr writer_commit writer_destroy reader_get_ptr
    reader_commit reader_give_up reader_destroy add32 sub32
wrap_reset_cursor_passes debug memory = refl
wrap_reset_cursor_passes release memory = refl

bytes_join :
    (n : ℕ)
    → n < 2 ^ 32
    → n % 256 + 256 * (n / 256 % 256) + 65536 * (n / 65536 % 256 + 256 * (n / 16777216 % 256)) ≡ n
bytes_join n small = omega arith

net_io_lem :
    (build : Build) (send_bytes recv_bytes : ℕ → ℕ) (sequence fuel : ℕ)
    → net_io build send_bytes recv_bytes sequence (suc fuel)
      ≡ returns (
          some (
            (sequence % 256
                + 256 * (sequence / 256 % 256)
                + 65536 * (sequence / 65536 % 256 + 256 * (sequence / 16777216 % 256))
              == sequence)
            && true))
unfolding net_io create_all_writer writable_size writer_as reader_as socket_recv socket_send
    create_send_buffer fetch_recv_buffer send_complete send recv_complete recv send_packet
    create_writer create_reader create_reader_at create_all_reader create_all_reader_at jump_at_tail
    readable_size commit_write commit_read clear_if_read clear give_up_reader destroy_ring
    writer_get_ptr writer_commit writer_destroy reader_get_ptr reader_commit reader_give_up
    reader_destroy add32 sub32
net_io_lem debug send_bytes recv_bytes sequence zero = refl
net_io_lem debug send_bytes recv_bytes sequence (suc fuel) = refl
net_io_lem release send_bytes recv_bytes sequence zero = refl
net_io_lem release send_bytes recv_bytes sequence (suc fuel) = refl

-- Whatever the rings' memory holds before, the three cases of RingBufferTest.cpp pass in either build:
-- `Wrap`, `Wrap_ResetCursor`, and `NetIO` for every 32-bit sequence number, where `Recv` ends after at
-- most one round and every later read finds the packet.
pub cases_pass :
    (build : Build) (memory other : ℕ → ℕ) (sequence fuel : ℕ)
    → sequence < 2 ^ 32
    → (wrap build memory ≡ returns true)
      × (wrap_reset_cursor build memory ≡ returns true)
      × (net_io build memory other sequence (suc fuel) ≡ returns (some true))
cases_pass build memory other sequence fuel small = (
  wrap_passes build memory,
  wrap_reset_cursor_passes build memory,
  net_io_lem build memory other sequence fuel
      ∙ rw (bytes_join sequence small, ==_refl sequence) refl,
)
