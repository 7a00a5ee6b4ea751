-- ===== src/RingBuffer/Commit.antt =====
-- CommitWrite, CommitRead, GiveUpWriter and GiveUpReader: what enters and leaves the ring.
use tux_base_mmo.Common.{
  ℕ, ◌+◌, ◌-◌, ◌%◌, ◌≤◌, ◌<◌, ◌≡◌, refl, true, false, not, ◌&&◌, ◌++◌, append-nil, append_assoc,
  ◌==◌, if◌then◌else◌, arith, dec_lt, slice, slice_add, add32_exact,
}
use tux_base_mmo.Verify.{Build, debug, release, returns, Returns, either_build}
use tux_base_mmo.RingBuffer.{
  RingBuffer, RingBufferReader, RingBufferWriter, k_capacity, jump_at_tail, give_up_writer,
  give_up_reader, commit_write, commit_read, clear_writer, clear_reader, clear, clear_if_read,
}
use tux_base_mmo.RingBuffer.Invariant.{contents, CursorsOk, Inv}
use tux_base_mmo.RingBuffer.Create.{Kept}

-- `(0 == size) ? handle.GetSize() : size`
abbrev pub committed : ℕ → ℕ → ℕ
committed reserved size = if size == 0 then reserved else size

-- The cursors after `n` bytes are committed at the write cursor.
abbrev pub written : RingBuffer → ℕ → RingBuffer
written r n = record r {
  write_cursor = (r.write_cursor + n) % k_capacity;
  is_full = (r.write_cursor + n) % k_capacity == r.read_cursor;
  is_active_writer = false;
}

module _ (r : RingBuffer) (n : ℕ) (c : CursorsOk r) (vacant : r.is_full ≡ false) (pos : 0 < n)
    (fits : r.write_cursor + n ≤ k_capacity)
    (apart : r.write_cursor < r.read_cursor → r.write_cursor + n ≤ r.read_cursor) where
  pub contents-written : contents (written r n) ≡ contents r ++ slice r.buffer r.write_cursor n
  contents-written = elim (dec_lt r.read_cursor r.write_cursor) [
    | yes p ↦ ground (
      arith,
      slice_add r.buffer r.read_cursor (r.write_cursor - r.read_cursor) n,
      append-nil (
          slice r.buffer r.read_cursor (r.write_cursor - r.read_cursor)
          ++ slice r.buffer r.write_cursor n),
    )
    | no p ↦ elim (dec_lt r.write_cursor r.read_cursor) [
      | yes q ↦ ground (
        arith,
        slice_add r.buffer 0 r.write_cursor n,
        append_assoc (slice r.buffer r.read_cursor (r.tail_cursor - r.read_cursor))
            (slice r.buffer 0 r.write_cursor) (slice r.buffer r.write_cursor n),
      )
      | no q ↦ ground (arith, append-nil (slice r.buffer r.write_cursor n))
    ]
  ]

-- The jump, and then the reset that `Clear` makes.
abbrev pub settled : RingBuffer → RingBuffer
settled r =
    if not r.is_active_writer && (r.read_cursor == r.write_cursor)
    then record r { write_cursor = 0; read_cursor = 0; tail_cursor = k_capacity; is_full = false }
    else r

-- The cursors after `n` bytes are committed at the read cursor.
abbrev pub read_past : RingBuffer → ℕ → RingBuffer
read_past r n =
    if (r.read_cursor + n) == r.tail_cursor
    then settled (record r {
      read_cursor = 0;
      tail_cursor = k_capacity;
      is_full = false;
      is_active_reader = false;
    })
    else settled
        (record r { read_cursor = r.read_cursor + n; is_full = false; is_active_reader = false })

module _ (r : RingBuffer) (n : ℕ) (c : CursorsOk r) (pos : 0 < n)
    (occupied : r.read_cursor ≡ r.write_cursor → r.is_full ≡ true)
    (before_write : r.read_cursor < r.write_cursor → r.read_cursor + n ≤ r.write_cursor)
    (before_tail : r.write_cursor ≤ r.read_cursor → r.read_cursor + n ≤ r.tail_cursor) where
  contents-read_past : slice r.buffer r.read_cursor n ++ contents (read_past r n) ≡ contents r
  contents-read_past = elim (dec_lt r.read_cursor r.write_cursor) [
    | yes p ↦ ground (
      arith,
      slice_add r.buffer r.read_cursor n (r.write_cursor - r.read_cursor - n),
      append-nil (slice r.buffer r.read_cursor n),
    )
    | no p ↦ ground (
      arith,
      slice_add r.buffer r.read_cursor n (r.tail_cursor - r.read_cursor - n),
      append-nil (slice r.buffer r.read_cursor n),
      append_assoc (slice r.buffer r.read_cursor n)
          (slice r.buffer (r.read_cursor + n) (r.tail_cursor - r.read_cursor - n))
          (slice r.buffer 0 r.write_cursor),
    )
  ]

-- A commit of a writer puts what it covers behind the contents,
abbrev pub Appended :
    RingBuffer → RingBufferWriter → RingBufferReader → ℕ → RingBuffer × RingBufferWriter → Type 0
Appended r w d size (r', w') =
    Inv r' w' d
    × (contents r' ≡ contents r ++ slice r.buffer r.write_cursor (committed w.size size))
    × (r'.buffer ≡ r.buffer)

-- and one of a reader takes what it covers from their front.
abbrev pub Removed :
    RingBuffer → RingBufferWriter → RingBufferReader → ℕ → RingBuffer × RingBufferReader → Type 0
Removed r w d size (r', d') =
    Inv r' w d'
    × (slice r.buffer r.read_cursor (committed d.size size) ++ contents r' ≡ contents r)
    × (r'.buffer ≡ r.buffer)

module _ {r : RingBuffer} {w : RingBufferWriter} {d : RingBufferReader} where
  -- Giving up a reservation changes nothing but the reservation.
  pub give_up_writer-Inv :
      (build : Build)
      → Inv r w d
      → r.is_active_writer ≡ true
      → Returns (give_up_writer build r w) (λ (r', w'). Inv r' w' d × Kept r r')
  unfolding give_up_writer
  give_up_writer-Inv build v held =
      either_build _ (λ b. give_up_writer b r w) (ground arith) (ground arith) build

  pub give_up_reader-Inv :
      (build : Build)
      → Inv r w d
      → r.is_active_reader ≡ true
      → Returns (give_up_reader build r d) (λ (r', d'). Inv r' w d' × Kept r r')
  unfolding give_up_reader
  give_up_reader-Inv build v held =
      either_build _ (λ b. give_up_reader b r d) (ground arith) (ground arith) build

  -- CommitWrite passes its assertions, and moves the write cursor over what is committed.
  pub commit_write_lem :
      (build : Build) (size : ℕ)
      → Inv r w d
      → r.is_active_writer ≡ true
      → size ≤ w.size
      → commit_write build r w size ≡ returns (written r (committed w.size size), clear_writer w)
  unfolding commit_write
  commit_write_lem debug size v held fits =
      ground (arith, add32_exact r.write_cursor w.size, add32_exact r.write_cursor size)
  commit_write_lem release size v held fits =
      ground (arith, add32_exact r.write_cursor w.size, add32_exact r.write_cursor size)

  -- From a valid state with a writer active, CommitWrite of no more than the writer's size returns
  -- in either build, keeps the state valid, and appends to the contents the bytes from the write
  -- cursor on: as many as it is given, or the whole reservation if it is given 0.
  pub commit_write-Inv :
      (build : Build) (size : ℕ)
      → Inv r w d
      → r.is_active_writer ≡ true
      → size ≤ w.size
      → Returns (commit_write build r w size) (Appended r w d size)
  commit_write-Inv build size v held fits = rw (commit_write_lem build size v held fits) (
    ground arith,
    contents-written r (committed w.size size) v.cursors (v.writer.not_full held) (ground arith)
        (ground arith) (ground arith),
    refl,
  )

  -- CommitRead passes its assertions, and moves the read cursor over what is committed.
  pub commit_read_lem :
      (build : Build) (size : ℕ)
      → Inv r w d
      → r.is_active_reader ≡ true
      → size ≤ d.size
      → commit_read build r d size ≡ returns (read_past r (committed d.size size), clear_reader d)
  unfolding commit_read clear_if_read clear jump_at_tail
  commit_read_lem debug size v held fits =
      ground (arith, add32_exact r.read_cursor d.size, add32_exact r.read_cursor size)
  commit_read_lem release size v held fits =
      ground (arith, add32_exact r.read_cursor d.size, add32_exact r.read_cursor size)

  -- From a valid state with a reader active, CommitRead of no more than the reader's size returns in
  -- either build, keeps the state valid, and takes from the front of the contents the bytes at the read
  -- cursor: as many as it is given, or the whole reservation if it is given 0.
  pub commit_read-Inv :
      (build : Build) (size : ℕ)
      → Inv r w d
      → r.is_active_reader ≡ true
      → size ≤ d.size
      → Returns (commit_read build r d size) (Removed r w d size)
  commit_read-Inv build size v held fits = rw (commit_read_lem build size v held fits) (
    ground arith,
    contents-read_past r (committed d.size size) v.cursors (ground arith) (ground arith)
        (ground arith) (ground arith),
    ground arith,
  )
