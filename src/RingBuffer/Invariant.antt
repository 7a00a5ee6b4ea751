-- ===== src/RingBuffer/Invariant.antt =====
-- The bytes that a RingBuffer holds, and what is true of it and of the client's two handles between
-- calls.
use tux_base_mmo.Common.{
  ℕ, ◌+◌, ◌-◌, ◌≤◌, ◌<◌, ◌≡◌, ◌&&◌, true, false, not, List, [], ◌++◌, some, ltb, ◌==◌,
  if◌then◌else◌, arith, slice,
}
use tux_base_mmo.RingBuffer.{
  RingBuffer, RingBufferReader, RingBufferWriter, k_capacity, new_ring, no_reader, no_writer,
  reader_is_valid, writer_is_valid,
}

-- The bytes that are committed and not yet read, oldest first.
abbrev pub contents : RingBuffer → List ℕ
contents r =
    if ltb r.read_cursor r.write_cursor
    then slice r.buffer r.read_cursor (r.write_cursor - r.read_cursor)
    else if not r.is_full && (r.read_cursor == r.write_cursor)
    then []
    else slice r.buffer r.read_cursor (r.tail_cursor - r.read_cursor)
      ++ slice r.buffer 0 r.write_cursor

pub record CursorsOk (r : RingBuffer) : Type 0 where
  pub read_in : r.read_cursor < k_capacity
  pub write_in : r.write_cursor < k_capacity
  pub read_tail : r.read_cursor ≤ r.tail_cursor
  pub tail_in : r.tail_cursor ≤ k_capacity
  pub tail_pos : 0 < r.tail_cursor
  pub linear : r.read_cursor < r.write_cursor → r.tail_cursor ≡ k_capacity
  pub drained : r.read_cursor ≡ r.write_cursor → r.is_full ≡ false → r.tail_cursor ≡ k_capacity
  pub full : r.is_full ≡ true → r.read_cursor ≤ r.write_cursor

-- A reservation to write is free space that begins at the write cursor.
pub record WriterOk (r : RingBuffer) (w : RingBufferWriter) : Type 0 where
  pub held : writer_is_valid w ≡ r.is_active_writer
  pub owner : r.is_active_writer ≡ true → w.owner ≡ some r.address
  pub at : r.is_active_writer ≡ true → w.ptr ≡ some r.write_cursor
  pub not_full : r.is_active_writer ≡ true → r.is_full ≡ false
  pub fits : r.is_active_writer ≡ true → r.write_cursor + w.size ≤ k_capacity
  pub apart :
      r.is_active_writer ≡ true
      → r.write_cursor < r.read_cursor
      → r.write_cursor + w.size ≤ r.read_cursor

-- A reservation to read is a run of committed bytes that begins at the read cursor.
pub record ReaderOk (r : RingBuffer) (d : RingBufferReader) : Type 0 where
  pub held : reader_is_valid d ≡ r.is_active_reader
  pub owner : r.is_active_reader ≡ true → d.owner ≡ some r.address
  pub at : r.is_active_reader ≡ true → d.ptr ≡ some r.read_cursor
  pub before_write :
      r.is_active_reader ≡ true
      → r.read_cursor < r.write_cursor
      → r.read_cursor + d.size ≤ r.write_cursor
  pub before_tail :
      r.is_active_reader ≡ true
      → r.write_cursor ≤ r.read_cursor
      → r.read_cursor + d.size ≤ r.tail_cursor
  pub occupied : r.is_active_reader ≡ true → r.read_cursor ≡ r.write_cursor → r.is_full ≡ true

pub record Inv (r : RingBuffer) (w : RingBufferWriter) (d : RingBufferReader) : Type 0 where
  pub cursors : CursorsOk r
  pub writer : WriterOk r w
  pub reader : ReaderOk r d

pub new_ring-Inv : (address : ℕ) (bytes : ℕ → ℕ) → Inv (new_ring address bytes) no_writer no_reader
new_ring-Inv address bytes = ground arith
