-- ===== src/RingBufferTest/Front.antt =====
-- A ring as new, from the reservation of a write at its front to the end of a read of all of it.
use tux_base_mmo.Common.{ℕ, ◌<◌, ◌≡◌, refl, ap, ◌∙◌, true, some, arith, sub32_exact}
use tux_base_mmo.Verify.{Build, debug, release, returns}
use tux_base_mmo.RingBuffer.{
  RingBuffer, RingBufferReader, RingBufferWriter, k_capacity, new_ring, no_reader, no_writer,
  create_writer, create_reader, create_reader_at, jump_at_tail, readable_size,
}
use tux_base_mmo.RingBuffer.Commit.{commit_write_lem, commit_read_lem}
use tux_base_mmo.RingBuffer.Handle.{writer_as, writer_commit, reader_commit}
use tux_base_mmo.RingBuffer.Client.Handles.{writer_commit_passes, reader_commit_passes}

-- A new ring with a writer of `n` bytes, and that writer,
abbrev pub reserved : ℕ → (ℕ → ℕ) → RingBuffer
reserved address m = record (new_ring address m) { is_active_writer = true }

abbrev pub front_writer : ℕ → ℕ → RingBufferWriter
front_writer address n = record { owner = some address; ptr = some 0; size = n }

-- after its commit,
abbrev pub holding : ℕ → (ℕ → ℕ) → ℕ → RingBuffer
holding address m n = record (new_ring address m) { write_cursor = n }

-- and then with a reader of them.
abbrev pub reading : ℕ → (ℕ → ℕ) → ℕ → RingBuffer
reading address m n = record (holding address m n) { is_active_reader = true }

abbrev pub front_reader : ℕ → ℕ → RingBufferReader
front_reader address n = record { owner = some address; ptr = some 0; size = n }

module _ (address : ℕ) (m : ℕ → ℕ) (n : ℕ) (pos : 0 < n) (fits : n < k_capacity) where
  pub create_writer_lem :
      (build : Build)
      → create_writer build (new_ring address m) n
        ≡ returns ((reserved address m), (front_writer address n))
  unfolding create_writer
  create_writer_lem debug = ground (arith, sub32_exact k_capacity 0)
  create_writer_lem release = ground (arith, sub32_exact k_capacity 0)

  pub writer_as_lem : (build : Build) → writer_as build (front_writer address n) ≡ returns 0
  unfolding writer_as
  writer_as_lem debug = ground arith
  writer_as_lem release = refl

  pub create_reader_lem :
      (build : Build)
      → create_reader build (holding address m n) n
        ≡ returns ((reading address m n), (front_reader address n))
  unfolding create_reader create_reader_at jump_at_tail readable_size
  create_reader_lem debug = ground (arith, sub32_exact n 0)
  create_reader_lem release = ground (arith, sub32_exact n 0)

  pub commit_lem :
      (build : Build)
      → writer_commit build (reserved address m) (front_writer address n) 0
        ≡ returns (record (new_ring address m) { write_cursor = n }, no_writer)
  commit_lem build =
      writer_commit_passes {d = no_reader} build 0 (ground arith) refl (omega arith)
      ∙ commit_write_lem {d = no_reader} build 0 (ground arith) refl (omega arith)
      ∙ ap (λ r. returns (r, no_writer)) (ground arith)

  pub consume_lem :
      (build : Build)
      → reader_commit build (reading address m n) (front_reader address n) 0
        ≡ returns (new_ring address m, no_reader)
  consume_lem build =
      reader_commit_passes {w = no_writer} build 0 (ground arith) refl (omega arith)
      ∙ commit_read_lem {w = no_writer} build 0 (ground arith) refl (omega arith)
      ∙ ap (λ r. returns (r, no_reader)) (ground arith)
