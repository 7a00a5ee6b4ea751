-- ===== src/RingBuffer/Handle.antt =====
-- RingBufferReader and RingBufferWriter: the methods of the two handles.
use tux_base_mmo.Common.{
  ℕ, ◌+◌, Bool, true, false, Option, none, some, ◌≡◌, arith, leb, ◌==◌, if◌then◌else◌,
}
use tux_base_mmo.Verify.{Build, debug, Outcome, returns, aborts, undefined, ◌>>=◌, ◌>>◌, assert}
use tux_base_mmo.RingBuffer.{
  RingBuffer, RingBufferReader, RingBufferWriter, reader_is_valid, writer_is_valid, clear_reader,
  clear_writer, give_up_writer, give_up_reader, commit_write, commit_read,
}

-- `==` of two pointers
abbrev pub same_pointer : Option ℕ → Option ℕ → Bool
same_pointer none none = true
same_pointer (some a) (some b) = a == b
same_pointer _ _ = false

-- A call through `m_owner->`. The store holds the one ring `r`; any other pointer dangles.
abbrev pub through {ℓ} : {A : Type ℓ} → Option ℕ → RingBuffer → (RingBuffer → Outcome A) → Outcome A
through owner r call = if same_pointer owner (some r.address) then call r else undefined

-- `static_cast<BYTE*>(ptr) + offset`
abbrev pub advance : Option ℕ → ℕ → Outcome (Option ℕ)
advance none offset = if offset == 0 then returns none else undefined
advance (some p) offset = returns (some (p + offset))

-- `*pointer`
abbrev pub dereference : Option ℕ → Outcome ℕ
dereference none = undefined
dereference (some p) = returns p

module _ (build : Build) where
  -- `RingBufferReader::RingBufferReader(RingBufferReader&&)`: the new handle, and what is left.
  unfoldable pub reader_move : RingBufferReader → Outcome (RingBufferReader × RingBufferReader)
  reader_move other = do assert build (reader_is_valid other); returns (other, clear_reader other)

  -- `RingBufferReader::operator=(RingBufferReader&&)`, of two handles
  unfoldable pub reader_assign :
      RingBufferReader → RingBufferReader → Outcome (RingBufferReader × RingBufferReader)
  reader_assign this other = do
    assert build (reader_is_valid other)
    assert build (same_pointer this.owner other.owner)
    returns (other, clear_reader other)

  -- `RingBufferReader::GetPtr`
  unfoldable pub reader_get_ptr : RingBufferReader → ℕ → Outcome (Option ℕ)
  reader_get_ptr d offset = do assert build (leb offset d.size); advance d.ptr offset

  -- `RingBufferReader::As`: the address of the object.
  unfoldable pub reader_as : RingBufferReader → Outcome ℕ
  reader_as d = do assert build (reader_is_valid d); dereference d.ptr

  -- `RingBufferReader::Commit`
  unfoldable pub reader_commit :
      RingBuffer → RingBufferReader → ℕ → Outcome (RingBuffer × RingBufferReader)
  reader_commit r d size = do
    assert build (reader_is_valid d)
    (r', d') ← through d.owner r (λ owner. commit_read build owner d size)
    returns (r', clear_reader d')

  -- `RingBufferReader::GiveUp`
  unfoldable pub reader_give_up :
      RingBuffer → RingBufferReader → Outcome (RingBuffer × RingBufferReader)
  reader_give_up r d = do
    assert build (reader_is_valid d)
    (r', d') ← through d.owner r (λ owner. give_up_reader build owner d)
    returns (r', clear_reader d')

  -- `RingBufferReader::~RingBufferReader`
  unfoldable pub reader_destroy :
      RingBuffer → RingBufferReader → Outcome (RingBuffer × RingBufferReader)
  reader_destroy r d =
      if reader_is_valid d
      then through d.owner r (λ owner. commit_read build owner d 0)
      else returns (r, d)

  -- `RingBufferWriter::RingBufferWriter(RingBufferWriter&&)`: the new handle, and what is left.
  unfoldable pub writer_move : RingBufferWriter → Outcome (RingBufferWriter × RingBufferWriter)
  writer_move other = do assert build (writer_is_valid other); returns (other, clear_writer other)

  -- `RingBufferWriter::operator=(RingBufferWriter&&)`, of two handles
  unfoldable pub writer_assign :
      RingBufferWriter → RingBufferWriter → Outcome (RingBufferWriter × RingBufferWriter)
  writer_assign this other = do
    assert build (writer_is_valid other)
    assert build (same_pointer this.owner other.owner)
    returns (other, clear_writer other)

  -- `RingBufferWriter::GetPtr`
  unfoldable pub writer_get_ptr : RingBufferWriter → ℕ → Outcome (Option ℕ)
  writer_get_ptr w offset = do assert build (leb offset w.size); advance w.ptr offset

  -- `RingBufferWriter::As`: the address of the object.
  unfoldable pub writer_as : RingBufferWriter → Outcome ℕ
  writer_as w = do assert build (writer_is_valid w); dereference w.ptr

  -- `RingBufferWriter::Commit`
  unfoldable pub writer_commit :
      RingBuffer → RingBufferWriter → ℕ → Outcome (RingBuffer × RingBufferWriter)
  writer_commit r w size = do
    assert build (writer_is_valid w)
    (r', w') ← through w.owner r (λ owner. commit_write build owner w size)
    returns (r', clear_writer w')

  -- `RingBufferWriter::GiveUp`
  unfoldable pub writer_give_up :
      RingBuffer → RingBufferWriter → Outcome (RingBuffer × RingBufferWriter)
  writer_give_up r w = do
    assert build (writer_is_valid w)
    (r', w') ← through w.owner r (λ owner. give_up_writer build owner w)
    returns (r', clear_writer w')

  -- `RingBufferWriter::~RingBufferWriter`
  unfoldable pub writer_destroy :
      RingBuffer → RingBufferWriter → Outcome (RingBuffer × RingBufferWriter)
  unfolding writer_commit
  writer_destroy r w = if writer_is_valid w then writer_commit r w 0 else returns (r, w)

-- In a debug build, neither a valid writer nor a valid reader can be assigned to a handle that has
-- no owner, as every handle is that was made without arguments, or refused, committed or given up.
pub assign_to_empty_aborts :
    (this_w w : RingBufferWriter) (this_d d : RingBufferReader)
    → this_w.owner ≡ none
    → this_d.owner ≡ none
    → writer_is_valid w ≡ true
    → reader_is_valid d ≡ true
    → (writer_assign debug this_w w ≡ aborts) × (reader_assign debug this_d d ≡ aborts)
unfolding writer_assign reader_assign
assign_to_empty_aborts this_w w this_d d empty_w empty_d valid_w valid_d =
    (ground arith, ground arith)
