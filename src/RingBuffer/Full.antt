-- ===== src/RingBuffer/Full.antt =====
-- `m_isFull` marks rings that are not full: the tail skip of CreateWriter from an empty ring.
use tux_base_mmo.Common.{
  ℕ, ◌+◌, ◌-◌, ◌<◌, ◌≡◌, refl, true, false, some, arith, length, length-append, slice, length-slice,
  sub32_exact,
}
use tux_base_mmo.Verify.{Build, debug, release, Outcome, returns, ◌>>=◌, Returns}
use tux_base_mmo.RingBuffer.{
  RingBuffer, RingBufferReader, RingBufferWriter, k_capacity, no_writer, create_writer,
  commit_write,
}
use tux_base_mmo.RingBuffer.Invariant.{contents, Inv}
use tux_base_mmo.RingBuffer.Commit.{written, commit_write_lem}

-- The ring and the writer after the tail skip.
abbrev skipped : RingBuffer → RingBuffer
skipped r = record r { tail_cursor = r.write_cursor; write_cursor = 0; is_active_writer = true }

abbrev front_writer : RingBuffer → ℕ → RingBufferWriter
front_writer r size = record { owner = some r.address; ptr = some 0; size = size }

-- CreateWriter(size) and then Commit
abbrev pub write_whole : Build → RingBuffer → ℕ → Outcome (RingBuffer × RingBufferWriter)
write_whole build r size = do (r', w) ← create_writer build r size; commit_write build r' w 0

full_refuses :
    (r : RingBuffer) (build : Build) (n : ℕ)
    → r.is_active_writer ≡ false
    → r.is_full ≡ true
    → 0 < n
    → create_writer build r n ≡ returns (r, no_writer)
unfolding create_writer
full_refuses r debug n idle full pos = ground arith
full_refuses r release n idle full pos = ground arith

module _ {r : RingBuffer} {w : RingBufferWriter} {d : RingBufferReader} (v : Inv r w d)
    (idle : r.is_active_writer ≡ false) where
  create_writer_skips :
      (build : Build)
      → r.is_full ≡ false
      → r.read_cursor ≡ r.write_cursor
      → k_capacity < r.write_cursor + r.write_cursor
      → create_writer build r r.write_cursor ≡ returns (skipped r, front_writer r r.write_cursor)
  unfolding create_writer
  create_writer_skips debug open_ empty half =
      ground (arith, v.cursors, sub32_exact k_capacity r.write_cursor)
  create_writer_skips release open_ empty half =
      ground (arith, v.cursors, sub32_exact k_capacity r.write_cursor)

-- In an empty ring whose cursors stand past the middle, a write of as many bytes as lie before them
-- leaves a ring that holds fewer bytes than it can and refuses every write, of whatever size `n`.
pub false_full :
    {r : RingBuffer} {w : RingBufferWriter} {d : RingBufferReader} (build : Build) (n : ℕ)
    → Inv r w d
    → r.is_active_writer ≡ false
    → r.is_full ≡ false
    → r.read_cursor ≡ r.write_cursor
    → k_capacity < r.write_cursor + r.write_cursor
    → 0 < n
    → Returns (write_whole build r r.write_cursor) (λ (r', w').
      (length (contents r') ≡ r.write_cursor)
      × (r.write_cursor < k_capacity)
      × (create_writer build r' n ≡ returns (r', no_writer)))
false_full {r} {w} {d} build n v idle open_ empty half pos =
    rw
      (
        create_writer_skips v idle build open_ empty half,
        commit_write_lem {w = front_writer r r.write_cursor} build 0 skipped-Inv refl (omega arith),
      )
      (
        filled,
        v.cursors.write_in,
        full_refuses (written (skipped r) r.write_cursor) build n refl (ground arith) pos,
      )
  where
    skipped-Inv : Inv (skipped r) (front_writer r r.write_cursor) d
    skipped-Inv = ground (arith, v)

    filled : length (contents (written (skipped r) r.write_cursor)) ≡ r.write_cursor
    filled = ground (
      arith,
      length-append (slice r.buffer r.read_cursor (r.write_cursor - r.read_cursor))
          (slice r.buffer 0 r.write_cursor),
      length-slice r.buffer r.read_cursor (r.write_cursor - r.read_cursor),
      length-slice r.buffer 0 r.write_cursor,
      v.cursors,
    )
