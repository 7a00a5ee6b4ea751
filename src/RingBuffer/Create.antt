-- ===== src/RingBuffer/Create.antt =====
-- CreateWriter, CreateReader, CreateAllWriter and CreateAllReader: no reservation moves a byte.
use tux_base_mmo.Common.{
  ℕ, ◌-◌, ◌≤◌, ◌<◌, ◌-◌, ◌≡◌, ◌⊎◌, inl, inr, refl, sym, ◌∙◌, true, false, [], append-nil, arith,
  slice, sub32_exact,
}
use tux_base_mmo.Verify.{Build, debug, release, Returns, Returns-map, either_build}
use tux_base_mmo.RingBuffer.{
  RingBuffer, RingBufferReader, RingBufferWriter, k_capacity, no_reader, no_writer, jump_at_tail,
  readable_size, writable_size, create_writer, create_all_writer, create_reader, create_reader_at,
  create_all_reader, create_all_reader_at, reader_is_valid, writer_is_valid,
}
use tux_base_mmo.RingBuffer.Invariant.{contents, Inv}

-- What a call that reserves leaves as it was.
pub record Kept (r r' : RingBuffer) : Type 0 where
  pub same_contents : contents r' ≡ contents r
  pub same_buffer : r'.buffer ≡ r.buffer
  pub same_address : r'.address ≡ r.address

-- A reader is refused only if the ring is empty; else it holds at least one byte and at most `limit`.
abbrev pub Offered : RingBuffer → RingBuffer → RingBufferReader → ℕ → Type 0
Offered r r' d limit =
    ((contents r ≡ []) × (d ≡ no_reader))
    ⊎ ((reader_is_valid d ≡ true) × (r'.is_active_reader ≡ true) × (d.size ≤ limit))

-- Neither from the write cursor on nor at the front is there a free run of `size` bytes.
abbrev pub NoRoom : RingBuffer → ℕ → Type 0
NoRoom r size =
    (r.is_full ≡ true)
    ⊎ ((r.read_cursor ≤ r.write_cursor)
        × (k_capacity - r.write_cursor < size)
        × (r.read_cursor < size))
    ⊎ ((r.write_cursor < r.read_cursor) × (r.read_cursor - r.write_cursor < size))

-- CreateWriter made a writer of just `size` bytes, or refused for want of room.
abbrev pub WriterMade : RingBuffer → RingBufferReader → ℕ → RingBuffer × RingBufferWriter → Type 0
WriterMade r d size (r', w') =
    Inv r' w' d
    × Kept r r'
    × (((w' ≡ no_writer) × NoRoom r size) ⊎ ((writer_is_valid w' ≡ true) × (w'.size ≡ size)))

-- CreateAllWriter made a writer, or refused a ring that is marked full.
abbrev pub AllWriterMade : RingBuffer → RingBufferReader → RingBuffer × RingBufferWriter → Type 0
AllWriterMade r d (r', w') =
    Inv r' w' d
    × Kept r r'
    × (((w' ≡ no_writer) × (r.is_full ≡ true)) ⊎ (writer_is_valid w' ≡ true))

-- CreateReader or CreateAllReader made a reader, or refused an empty ring.
abbrev pub ReaderMade : RingBuffer → RingBufferWriter → ℕ → RingBuffer × RingBufferReader → Type 0
ReaderMade r w limit (r', d') = Inv r' w d' × Kept r r' × Offered r r' d' limit

module _ {r : RingBuffer} {w : RingBufferWriter} {d : RingBufferReader} where
  -- From a valid state with no writer active, CreateWriter of at least one byte returns in either
  -- build, keeps the state valid and the contents and bytes of the ring as they are, and either
  -- makes a writer of just that size or refuses a ring that is marked full or has no free run so
  -- long.
  pub create_writer-Inv :
      (build : Build) (size : ℕ)
      → Inv r w d
      → r.is_active_writer ≡ false
      → 0 < size
      → Returns (create_writer build r size) (WriterMade r d size)
  unfolding create_writer
  create_writer-Inv build size v idle pos =
      either_build _ (λ b. create_writer b r size)
        (ground
          (arith, sub32_exact k_capacity r.write_cursor, sub32_exact r.read_cursor r.write_cursor))
        (ground (
          arith,
          sub32_exact k_capacity r.write_cursor,
          sub32_exact r.read_cursor r.write_cursor,
          append-nil (slice r.buffer r.read_cursor (r.write_cursor - r.read_cursor)),
        ))
        build

  -- From a valid state with no writer active, CreateAllWriter returns in either build, keeps the state
  -- valid and the contents and bytes of the ring as they are, and makes a writer unless the ring is
  -- marked full.
  pub create_all_writer-Inv :
      (build : Build)
      → Inv r w d
      → r.is_active_writer ≡ false
      → Returns (create_all_writer build r) (AllWriterMade r d)
  unfolding create_all_writer writable_size
  create_all_writer-Inv build v idle =
      either_build _ (λ b. create_all_writer b r)
        (ground
          (arith, sub32_exact k_capacity r.write_cursor, sub32_exact r.read_cursor r.write_cursor))
        (ground (
          arith,
          sub32_exact k_capacity r.write_cursor,
          sub32_exact r.read_cursor r.write_cursor,
          append-nil (slice r.buffer r.read_cursor (r.write_cursor - r.read_cursor)),
        ))
        build

  -- The jump changes nothing that a client sees, and the read cursor is before the tail afterwards.
  pub jump_at_tail-Inv :
      Inv r w d
      → r.is_active_reader ≡ false
      → Inv (jump_at_tail r) w d
        × Kept r (jump_at_tail r)
        × ((jump_at_tail r).is_active_reader ≡ false)
        × ((jump_at_tail r).read_cursor < (jump_at_tail r).tail_cursor)
  unfolding jump_at_tail
  jump_at_tail-Inv v idle = ground arith

  create_reader_at-Inv :
      (build : Build) (size : ℕ)
      → Inv r w d
      → r.is_active_reader ≡ false
      → r.read_cursor < r.tail_cursor
      → 0 < size
      → Returns (create_reader_at build r size) (ReaderMade r w size)
  unfolding create_reader_at readable_size
  create_reader_at-Inv build size v idle below pos =
      either_build _ (λ b. create_reader_at b r size)
        (ground (
          arith,
          sub32_exact r.write_cursor r.read_cursor,
          sub32_exact r.tail_cursor r.read_cursor,
        ))
        (ground (
          arith,
          sub32_exact r.write_cursor r.read_cursor,
          sub32_exact r.tail_cursor r.read_cursor,
        ))
        build

  create_all_reader_at-Inv :
      (build : Build)
      → Inv r w d
      → r.is_active_reader ≡ false
      → r.read_cursor < r.tail_cursor
      → Returns (create_all_reader_at build r) (ReaderMade r w k_capacity)
  unfolding create_all_reader_at readable_size
  create_all_reader_at-Inv build v idle below =
      either_build _ (λ b. create_all_reader_at b r)
        (ground (
          arith,
          sub32_exact r.write_cursor r.read_cursor,
          sub32_exact r.tail_cursor r.read_cursor,
        ))
        (ground (
          arith,
          sub32_exact r.write_cursor r.read_cursor,
          sub32_exact r.tail_cursor r.read_cursor,
        ))
        build

module _ (r : RingBuffer) where
  create_reader_passes :
      (build : Build) (size : ℕ)
      → r.is_active_reader ≡ false
      → 0 < size
      → create_reader build r size ≡ create_reader_at build (jump_at_tail r) size
  unfolding create_reader
  create_reader_passes debug size idle pos = ground arith
  create_reader_passes release size idle pos = refl

  create_all_reader_passes :
      (build : Build)
      → r.is_active_reader ≡ false
      → create_all_reader build r ≡ create_all_reader_at build (jump_at_tail r)
  unfolding create_all_reader
  create_all_reader_passes debug idle = ground arith
  create_all_reader_passes release idle = refl

module _ {r : RingBuffer} {w : RingBufferWriter} where
  Offered_after_jump :
      (limit : ℕ) (p : RingBuffer × RingBufferReader)
      → Kept r (jump_at_tail r)
      → ReaderMade (jump_at_tail r) w limit p
      → ReaderMade r w limit p
  Offered_after_jump limit p k h = (
    h.0,
    record {
      same_contents = h.1.same_contents ∙ k.same_contents;
      same_buffer = h.1.same_buffer ∙ k.same_buffer;
      same_address = h.1.same_address ∙ k.same_address;
    },
    still_offered (h.2),
  )
    where
      still_offered : Offered (jump_at_tail r) p.0 p.1 limit → Offered r p.0 p.1 limit
      still_offered (inl e) = inl (sym k.same_contents ∙ e.0, e.1)
      still_offered (inr o) = inr o

module _ {r : RingBuffer} {w : RingBufferWriter} {d : RingBufferReader} where
  -- From a valid state with no reader active, CreateReader of at least one byte returns in either
  -- build, keeps the state valid and the contents and bytes of the ring as they are, and makes a
  -- reader of at most that size unless the ring holds nothing.
  pub create_reader-Inv :
      (build : Build) (size : ℕ)
      → Inv r w d
      → r.is_active_reader ≡ false
      → 0 < size
      → Returns (create_reader build r size) (ReaderMade r w size)
  create_reader-Inv build size v idle pos =
      let (j, k, idle', below) = jump_at_tail-Inv v idle in
      rw (create_reader_passes r build size idle pos) (
        Returns-map _ _ (λ p h. Offered_after_jump size p k h) _
          (create_reader_at-Inv build size j idle' below pos))

  -- From a valid state with no reader active, CreateAllReader returns in either build, keeps the state
  -- valid and the contents and bytes of the ring as they are, and makes a reader, of at most the
  -- capacity, unless the ring holds nothing.
  pub create_all_reader-Inv :
      (build : Build)
      → Inv r w d
      → r.is_active_reader ≡ false
      → Returns (create_all_reader build r) (ReaderMade r w k_capacity)
  create_all_reader-Inv build v idle =
      let (j, k, idle', below) = jump_at_tail-Inv v idle in
      rw (create_all_reader_passes r build idle) (
        Returns-map _ _ (λ p h. Offered_after_jump k_capacity p k h) _
          (create_all_reader_at-Inv build j idle' below))
