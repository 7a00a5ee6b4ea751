-- ===== src/RingBuffer/Client/Handles.antt =====
-- The handles' methods in a valid state: they come down to the calls of the ring.
use tux_base_mmo.Common.{
  ℕ, ◌+◌, ◌≤◌, ◌≡◌, true, false, ◌-◌, some, List, [], length, arith, store, slice-store_apart,
}
use tux_base_mmo.Verify.{Build, debug, release, returns}
use tux_base_mmo.RingBuffer
use tux_base_mmo.RingBuffer.{
  RingBuffer, RingBufferReader, RingBufferWriter, k_capacity, new_ring, no_reader, no_writer,
  reader_is_valid, writer_is_valid, create_writer, create_all_writer, create_reader,
  create_all_reader, commit_write, commit_read,
}
use tux_base_mmo.RingBuffer.Invariant.{contents, Inv}
use tux_base_mmo.RingBuffer.Commit.{commit_write_lem, commit_read_lem}
use tux_base_mmo.RingBuffer.Handle.{
  writer_get_ptr, writer_commit, writer_give_up, writer_destroy, reader_commit, reader_give_up,
  reader_destroy,
}
use tux_base_mmo.RingBuffer.Client.{sent_by, received_by}

module _ (build : Build) (r : RingBuffer) (w : RingBufferWriter) where
  pub writer_destroy_valid :
      writer_is_valid w ≡ true → writer_destroy build r w ≡ writer_commit build r w 0
  unfolding writer_destroy
  writer_destroy_valid e = rw e

  pub writer_destroy_invalid : writer_is_valid w ≡ false → writer_destroy build r w ≡ returns (r, w)
  unfolding writer_destroy
  writer_destroy_invalid e = rw e

module _ (build : Build) (r : RingBuffer) (d : RingBufferReader) where
  pub reader_destroy_invalid : reader_is_valid d ≡ false → reader_destroy build r d ≡ returns (r, d)
  unfolding reader_destroy
  reader_destroy_invalid e = rw e

pub sent_by_invalid :
    (r : RingBuffer) (w : RingBufferWriter) (n : ℕ) → writer_is_valid w ≡ false → sent_by r w n ≡ []
sent_by_invalid r w n e = rw e

pub received_by_invalid :
    (r : RingBuffer) (d : RingBufferReader) (n : ℕ)
    → reader_is_valid d ≡ false
    → received_by r d n ≡ []
received_by_invalid r d n e = rw e

module _ {r : RingBuffer} {w : RingBufferWriter} {d : RingBufferReader} where
  pub writer_commit_passes :
      (build : Build) (size : ℕ)
      → Inv r w d
      → r.is_active_writer ≡ true
      → size ≤ w.size
      → writer_commit build r w size ≡ commit_write build r w size
  unfolding writer_commit
  writer_commit_passes debug size v held fits =
      ground (arith, commit_write_lem debug size v held fits)
  writer_commit_passes release size v held fits =
      ground (arith, commit_write_lem release size v held fits)

  pub reader_commit_passes :
      (build : Build) (size : ℕ)
      → Inv r w d
      → r.is_active_reader ≡ true
      → size ≤ d.size
      → reader_commit build r d size ≡ commit_read build r d size
  unfolding reader_commit
  reader_commit_passes debug size v held fits =
      ground (arith, commit_read_lem debug size v held fits)
  reader_commit_passes release size v held fits =
      ground (arith, commit_read_lem release size v held fits)

  pub writer_get_ptr_lem :
      (build : Build) (offset : ℕ)
      → Inv r w d
      → r.is_active_writer ≡ true
      → offset ≤ w.size
      → writer_get_ptr build w offset ≡ returns (some (r.write_cursor + offset))
  unfolding writer_get_ptr
  writer_get_ptr_lem debug offset v held fits = ground (arith, v.writer)
  writer_get_ptr_lem release offset v held fits = ground (arith, v.writer)

  pub reader_destroy_valid :
      (build : Build)
      → Inv r w d
      → reader_is_valid d ≡ true
      → reader_destroy build r d ≡ reader_commit build r d 0
  unfolding reader_destroy reader_commit
  reader_destroy_valid debug v e = ground (arith, v.reader, commit_read_lem debug 0 v)
  reader_destroy_valid release v e = ground (arith, v.reader, commit_read_lem release 0 v)

  pub writer_give_up_passes :
      (build : Build)
      → Inv r w d
      → r.is_active_writer ≡ true
      → writer_give_up build r w ≡ RingBuffer.give_up_writer build r w
  unfolding writer_give_up RingBuffer.give_up_writer
  writer_give_up_passes debug v held = ground (arith, v.writer)
  writer_give_up_passes release v held = ground (arith, v.writer)

  pub reader_give_up_passes :
      (build : Build)
      → Inv r w d
      → r.is_active_reader ≡ true
      → reader_give_up build r d ≡ RingBuffer.give_up_reader build r d
  unfolding reader_give_up RingBuffer.give_up_reader
  reader_give_up_passes debug v held = ground (arith, v.reader)
  reader_give_up_passes release v held = ground (arith, v.reader)

  -- Bytes that are written through a reservation reach no committed byte.
  pub contents_fill :
      (p : ℕ) (bytes : List ℕ)
      → Inv r w d
      → r.is_active_writer ≡ true
      → r.write_cursor ≤ p
      → p + length bytes ≤ r.write_cursor + w.size
      → contents (record r { buffer = store r.buffer p bytes }) ≡ contents r
  contents_fill p bytes v held from to = ground (
    arith,
    slice-store_apart r.buffer p bytes r.read_cursor (r.write_cursor - r.read_cursor),
    slice-store_apart r.buffer p bytes r.read_cursor (r.tail_cursor - r.read_cursor),
    slice-store_apart r.buffer p bytes 0 r.write_cursor,
  )
