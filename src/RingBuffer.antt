-- ===== src/RingBuffer.antt =====
-- 01_Server/Src/01_ServerBase/{Include,Source}/DataStruct/RingBuffer: the tail-skipping byte ring
-- and the handles through which it is written and read. A call returns the new ring (`*this`), the
-- handle that it was given or makes, and is an `Outcome`, since ASSERT can end it.
pub mod Invariant
pub mod Create
pub mod Commit
pub mod Handle
pub mod Client
pub mod Fifo
pub mod Full
mod Tests
use tux_base_mmo.Common.{
  ℕ, ◌*◌, ◌%◌, Bool, true, false, not, ◌&&◌, Option, none, some, min, is_some, ltb, leb, ◌==◌,
  if◌then◌else◌, add32, sub32,
}
use tux_base_mmo.Verify.{Build, Outcome, returns, ◌>>=◌, ◌>>◌, assert}

-- `kCapacity`
abbrev pub k_capacity : ℕ
k_capacity = 1024 * 16

-- A pointer into `m_buffer` is its offset; `nullptr` is `none`. `m_owner` is the ring's address.
pub record RingBufferReader : Type 0 where
  pub owner : Option ℕ
  pub ptr : Option ℕ
  pub size : ℕ

pub record RingBufferWriter : Type 0 where
  pub owner : Option ℕ
  pub ptr : Option ℕ
  pub size : ℕ

-- `m_buffer` is the function from an index to its byte; `address` is `this`.
pub record RingBuffer : Type 0 where
  pub address : ℕ
  pub is_active_writer : Bool
  pub is_active_reader : Bool
  pub is_full : Bool
  pub buffer : ℕ → ℕ
  pub read_cursor : ℕ
  pub write_cursor : ℕ
  pub tail_cursor : ℕ

-- `RingBufferReader::RingBufferReader()`
abbrev pub no_reader : RingBufferReader
no_reader = record { owner = none; ptr = none; size = 0 }

-- `RingBufferWriter::RingBufferWriter()`
abbrev pub no_writer : RingBufferWriter
no_writer = record { owner = none; ptr = none; size = 0 }

-- `RingBufferReader::IsValid`
abbrev pub reader_is_valid : RingBufferReader → Bool
reader_is_valid d = is_some d.owner && is_some d.ptr && ltb 0 d.size

-- `RingBufferWriter::IsValid`
abbrev pub writer_is_valid : RingBufferWriter → Bool
writer_is_valid w = is_some w.owner && is_some w.ptr && ltb 0 w.size

-- `RingBufferReader::Clear`
abbrev pub clear_reader : RingBufferReader → RingBufferReader
clear_reader d = record d { owner = none; ptr = none; size = 0 }

-- `RingBufferWriter::Clear`
abbrev pub clear_writer : RingBufferWriter → RingBufferWriter
clear_writer w = record w { owner = none; ptr = none; size = 0 }

-- `RingBuffer::RingBuffer()`; the bytes of `m_buffer` are not initialised.
abbrev pub new_ring : ℕ → (ℕ → ℕ) → RingBuffer
new_ring address bytes = record {
  address = address;
  is_active_writer = false;
  is_active_reader = false;
  is_full = false;
  buffer = bytes;
  read_cursor = 0;
  write_cursor = 0;
  tail_cursor = k_capacity;
}

-- `RingBuffer::IsEmpty`
abbrev pub is_empty : RingBuffer → Bool
is_empty r = not r.is_full && (r.write_cursor == r.read_cursor)

-- The jump from the tail to the front that `CreateReader`, `CreateAllReader` and `CommitRead` make.
unfoldable pub jump_at_tail : RingBuffer → RingBuffer
jump_at_tail r =
    if r.read_cursor == r.tail_cursor
    then record r { read_cursor = 0; tail_cursor = k_capacity }
    else r

-- `contiguousSize` of `CreateReader` and `CreateAllReader`
unfoldable pub readable_size : RingBuffer → ℕ
readable_size r =
    if ltb r.read_cursor r.write_cursor
    then sub32 r.write_cursor r.read_cursor
    else sub32 r.tail_cursor r.read_cursor

-- `contiguousSize` of `CreateAllWriter`
unfoldable pub writable_size : RingBuffer → ℕ
writable_size r =
    if leb r.read_cursor r.write_cursor
    then sub32 k_capacity r.write_cursor
    else sub32 r.read_cursor r.write_cursor

module _ (build : Build) where
  -- `RingBufferReader::RingBufferReader(owner, ptr, size)`
  abbrev pub make_reader : ℕ → ℕ → ℕ → Outcome RingBufferReader
  make_reader owner ptr size = do
    let d : RingBufferReader = record { owner = some owner; ptr = some ptr; size = size }
    assert build (reader_is_valid d)
    returns d

  -- `RingBufferWriter::RingBufferWriter(owner, ptr, size)`
  abbrev pub make_writer : ℕ → ℕ → ℕ → Outcome RingBufferWriter
  make_writer owner ptr size = do
    let w : RingBufferWriter = record { owner = some owner; ptr = some ptr; size = size }
    assert build (writer_is_valid w)
    returns w

  -- `m_isActiveWriter = true; return RingBufferWriter(this, m_buffer.data() + ptr, size);`
  abbrev reserve_writer : RingBuffer → ℕ → ℕ → Outcome (RingBuffer × RingBufferWriter)
  reserve_writer r ptr size = do
    w ← make_writer r.address ptr size
    returns (record r { is_active_writer = true }, w)

  -- `m_isActiveReader = true; return RingBufferReader(this, m_buffer.data() + m_readCursor, size);`
  abbrev reserve_reader : RingBuffer → ℕ → Outcome (RingBuffer × RingBufferReader)
  reserve_reader r size = do
    d ← make_reader r.address r.read_cursor size
    returns (record r { is_active_reader = true }, d)

  -- `RingBuffer::CreateWriter`
  unfoldable pub create_writer : RingBuffer → ℕ → Outcome (RingBuffer × RingBufferWriter)
  create_writer r size = do
    assert build (ltb 0 size)
    assert build (not r.is_active_writer)
    if r.is_full
        then returns (r, no_writer)
        else if leb r.read_cursor r.write_cursor
        then (if leb size (sub32 k_capacity r.write_cursor)
            then reserve_writer r r.write_cursor size
            else if leb size r.read_cursor
            then reserve_writer (record r { tail_cursor = r.write_cursor; write_cursor = 0 }) 0 size
            else returns (r, no_writer))
        else if leb size (sub32 r.read_cursor r.write_cursor)
        then reserve_writer r r.write_cursor size
        else returns (r, no_writer)

  -- `RingBuffer::CreateAllWriter`
  unfoldable pub create_all_writer : RingBuffer → Outcome (RingBuffer × RingBufferWriter)
  create_all_writer r = do
    assert build (not r.is_active_writer)
    if r.is_full
        then returns (r, no_writer)
        else if writable_size r == 0
        then returns (r, no_writer)
        else reserve_writer r r.write_cursor (writable_size r)

  -- `RingBuffer::CreateReader`, from the line after the jump on
  unfoldable pub create_reader_at : RingBuffer → ℕ → Outcome (RingBuffer × RingBufferReader)
  create_reader_at r size =
      if is_empty r
      then returns (r, no_reader)
      else if min size (readable_size r) == 0
      then returns (r, no_reader)
      else reserve_reader r (min size (readable_size r))

  -- `RingBuffer::CreateReader`
  unfoldable pub create_reader : RingBuffer → ℕ → Outcome (RingBuffer × RingBufferReader)
  create_reader r size = do
    assert build (ltb 0 size)
    assert build (not r.is_active_reader)
    create_reader_at (jump_at_tail r) size

  -- `RingBuffer::CreateAllReader`, from the line after the jump on
  unfoldable pub create_all_reader_at : RingBuffer → Outcome (RingBuffer × RingBufferReader)
  create_all_reader_at r =
      if is_empty r
      then returns (r, no_reader)
      else if readable_size r == 0
      then returns (r, no_reader)
      else reserve_reader r (readable_size r)

  -- `RingBuffer::CreateAllReader`
  unfoldable pub create_all_reader : RingBuffer → Outcome (RingBuffer × RingBufferReader)
  create_all_reader r = do
    assert build (not r.is_active_reader)
    create_all_reader_at (jump_at_tail r)

  -- `RingBuffer::GiveUpWriter`
  unfoldable pub give_up_writer :
      RingBuffer → RingBufferWriter → Outcome (RingBuffer × RingBufferWriter)
  give_up_writer r w = do
    assert build (writer_is_valid w)
    assert build r.is_active_writer
    returns (record r { is_active_writer = false }, clear_writer w)

  -- `RingBuffer::GiveUpReader`
  unfoldable pub give_up_reader :
      RingBuffer → RingBufferReader → Outcome (RingBuffer × RingBufferReader)
  give_up_reader r d = do
    assert build (reader_is_valid d)
    assert build r.is_active_reader
    returns (record r { is_active_reader = false }, clear_reader d)

  -- `RingBuffer::CommitWrite`
  unfoldable pub commit_write :
      RingBuffer → RingBufferWriter → ℕ → Outcome (RingBuffer × RingBufferWriter)
  commit_write r w size = do
    assert build (writer_is_valid w)
    assert build r.is_active_writer
    let n = if size == 0 then w.size else size
    assert build (leb n w.size)
    assert build (leb (add32 r.write_cursor n) k_capacity)
    let cursor = add32 r.write_cursor n % k_capacity
    returns (
      record r {
        write_cursor = cursor;
        is_full = cursor == r.read_cursor;
        is_active_writer = false;
      },
      clear_writer w,
    )

  -- `RingBuffer::Clear`
  unfoldable pub clear : RingBuffer → Outcome RingBuffer
  clear r = do
    assert build (not r.is_active_writer)
    assert build (not r.is_active_reader)
    returns
        (record r { write_cursor = 0; read_cursor = 0; tail_cursor = k_capacity; is_full = false })

  -- `if (!m_isActiveWriter && m_readCursor == m_writeCursor) Clear();`, the end of `CommitRead`
  unfoldable pub clear_if_read : RingBuffer → Outcome RingBuffer
  unfolding clear
  clear_if_read r =
      if not r.is_active_writer && (r.read_cursor == r.write_cursor) then clear r else returns r

  -- `RingBuffer::CommitRead`
  unfoldable pub commit_read :
      RingBuffer → RingBufferReader → ℕ → Outcome (RingBuffer × RingBufferReader)
  commit_read r d size = do
    assert build (reader_is_valid d)
    assert build r.is_active_reader
    let n = if size == 0 then d.size else size
    assert build (leb n d.size)
    let read = record r { read_cursor = add32 r.read_cursor n }
    assert build (leb read.read_cursor read.tail_cursor)
    r' ← clear_if_read (record (jump_at_tail read) { is_full = false; is_active_reader = false })
    returns (r', clear_reader d)

  -- `RingBuffer::~RingBuffer`
  unfoldable pub destroy_ring : RingBuffer → Outcome (Unit {0})
  destroy_ring r = do
    assert build (not r.is_active_writer)
    assert build (not r.is_active_reader)
    assert build (is_empty r)
