-- ===== src/RecvBuffer.antt =====
-- 01_Server/Src/01_ServerBase/{Include,Source}/DataStruct/RecvBuffer: the linear receive buffer.
pub mod Invariant
pub mod Stream
mod Tests
use tux_base_mmo.Common.{
  ℕ, ◌/◌, Bool, true, false, ltb, leb, ◌==◌, if◌then◌else◌, add32, sub32, slice, store,
}
use tux_base_mmo.Verify.{Build, Outcome, returns, ◌>>=◌, ◌>>◌, assert}

-- `m_buffer` is the function from an index to its byte, and `capacity` is `m_buffer.size()`.
pub record RecvBuffer : Type 0 where
  pub buffer : ℕ → ℕ
  pub capacity : ℕ
  pub min_writable_size : ℕ
  pub read_pos : ℕ
  pub write_pos : ℕ

-- A `std::span` of `m_buffer`: the offset of its first byte and its size.
pub record Span : Type 0 where
  pub offset : ℕ
  pub size : ℕ

-- `RecvBuffer::GetWritableSize`
unfoldable pub get_writable_size : RecvBuffer → ℕ
get_writable_size b = sub32 b.capacity b.write_pos

-- `RecvBuffer::GetReadableSize`
unfoldable pub get_readable_size : RecvBuffer → ℕ
get_readable_size b = sub32 b.write_pos b.read_pos

-- `RecvBuffer::GetWritableSpan`
unfoldable pub get_writable_span : RecvBuffer → Span
unfolding get_writable_size
get_writable_span b = record { offset = b.write_pos; size = get_writable_size b }

-- `RecvBuffer::GetReadableSpan`
unfoldable pub get_readable_span : RecvBuffer → Span
unfolding get_readable_size
get_readable_span b = record { offset = b.read_pos; size = get_readable_size b }

-- `RecvBuffer::Clear`
abbrev pub clear : RecvBuffer → RecvBuffer
clear b = record b { read_pos = 0; write_pos = 0 }

-- `RecvBuffer::Compact`; `std::memmove` reads all that it moves before it writes.
unfoldable pub compact : RecvBuffer → RecvBuffer
unfolding get_readable_size get_writable_size
compact b =
    let readable_size = get_readable_size b in
    if 0 == readable_size
    then clear b
    else if leb b.min_writable_size (get_writable_size b)
    then b
    else record b {
      buffer = store b.buffer 0 (slice b.buffer b.read_pos readable_size);
      read_pos = 0;
      write_pos = readable_size;
    }

module _ (build : Build) where
  -- `RecvBuffer::RecvBuffer(capacity, minWritableSize)`; `std::vector` sets the bytes to 0.
  unfoldable pub new_recv_buffer : ℕ → ℕ → Outcome RecvBuffer
  new_recv_buffer capacity min_writable_size = do
    assert build (ltb 0 min_writable_size)
    assert build (leb min_writable_size (capacity / 2))
    returns (record {
      buffer = λ i. 0;
      capacity = capacity;
      min_writable_size = min_writable_size;
      read_pos = 0;
      write_pos = 0;
    })

  -- `RecvBuffer::CommitWrite`
  unfoldable pub commit_write : RecvBuffer → ℕ → Outcome RecvBuffer
  unfolding get_writable_size
  commit_write b size = do
    assert build (leb size (get_writable_size b))
    returns (record b { write_pos = add32 b.write_pos size })

  -- `RecvBuffer::Consume`
  unfoldable pub consume : RecvBuffer → ℕ → Outcome RecvBuffer
  unfolding get_readable_size
  consume b size = do
    assert build (leb size (get_readable_size b))
    returns (record b { read_pos = add32 b.read_pos size })
