-- ===== src/RecvBuffer/Invariant.antt =====
-- What is true of a RecvBuffer between calls, and the bytes that it holds.
use tux_base_mmo.Common.{
  ℕ, ◌+◌, ◌-◌, ◌*◌, ◌≤◌, ◌<◌, ◌≡◌, sym, ap, ◌∙◌, List, [], ◌++◌, arith, slice, slice_add, store,
  slice-store_self, length-slice, u32_mod, add32_exact, sub32_exact,
}
use tux_base_mmo.Verify.{Build, debug, release, returns, Returns}
use tux_base_mmo.RecvBuffer.{
  RecvBuffer, get_writable_size, get_readable_size, new_recv_buffer, commit_write, consume, compact,
}

pub record IsValid (b : RecvBuffer) : Type 0 where
  pub ordered : b.read_pos ≤ b.write_pos
  pub in_buffer : b.write_pos ≤ b.capacity
  pub small : b.capacity < u32_mod
  pub min_pos : 0 < b.min_writable_size
  pub min_half : 2 * b.min_writable_size ≤ b.capacity

-- The bytes that are received and not yet consumed, oldest first: always one run of the buffer.
abbrev pub contents : RecvBuffer → List ℕ
contents b = slice b.buffer b.read_pos (b.write_pos - b.read_pos)

-- What a commit of `n` bytes, and a call of Consume for `n` bytes, do to the contents.
abbrev pub Appended : RecvBuffer → ℕ → RecvBuffer → Type 0
Appended b n b' = IsValid b' × (contents b' ≡ contents b ++ slice b.buffer b.write_pos n)

abbrev pub Removed : RecvBuffer → ℕ → RecvBuffer → Type 0
Removed b n b' = IsValid b' × (slice b.buffer b.read_pos n ++ contents b' ≡ contents b)

-- With a smallest write of at least one byte and at most half the capacity, the constructor returns in
-- either build a valid buffer that holds nothing.
pub new_recv_buffer-IsValid :
    (build : Build) (capacity min_writable_size : ℕ)
    → capacity < u32_mod
    → 0 < min_writable_size
    → 2 * min_writable_size ≤ capacity
    → Returns
        (new_recv_buffer build capacity min_writable_size)
        (λ b. IsValid b × (contents b ≡ []))
unfolding new_recv_buffer
new_recv_buffer-IsValid debug capacity m small pos half = ground arith
new_recv_buffer-IsValid release capacity m small pos half = ground arith

module _ {b : RecvBuffer} (v : IsValid b) where
  pub readable_exact : get_readable_size b ≡ b.write_pos - b.read_pos
  unfolding get_readable_size
  readable_exact = sub32_exact b.write_pos b.read_pos (v.ordered) (omega arith)

  pub writable_exact : get_writable_size b ≡ b.capacity - b.write_pos
  unfolding get_writable_size
  writable_exact = sub32_exact b.capacity b.write_pos (v.in_buffer) (v.small)

  commit_write_lem :
      (build : Build) (n : ℕ)
      → n ≤ b.capacity - b.write_pos
      → commit_write build b n ≡ returns (record b { write_pos = b.write_pos + n })
  unfolding commit_write
  commit_write_lem debug n fits = ground (arith, writable_exact, add32_exact b.write_pos n)
  commit_write_lem release n fits = ground (arith, writable_exact, add32_exact b.write_pos n)

  consume_lem :
      (build : Build) (n : ℕ)
      → n ≤ b.write_pos - b.read_pos
      → consume build b n ≡ returns (record b { read_pos = b.read_pos + n })
  unfolding consume
  consume_lem debug n fits = ground (arith, readable_exact, add32_exact b.read_pos n)
  consume_lem release n fits = ground (arith, readable_exact, add32_exact b.read_pos n)

  -- CommitWrite of no more than fits returns in either build, and appends to the contents the bytes
  -- from the write position on.
  pub commit_write-IsValid :
      (build : Build) (n : ℕ)
      → n ≤ b.capacity - b.write_pos
      → Returns (commit_write build b n) (Appended b n)
  commit_write-IsValid build n fits =
      rw (commit_write_lem build n fits)
        (ground arith, ground (arith, slice_add b.buffer b.read_pos (b.write_pos - b.read_pos) n))

  -- Consume of no more than is readable returns in either build, and takes that many bytes from the
  -- front of the contents.
  pub consume-IsValid :
      (build : Build) (n : ℕ)
      → n ≤ b.write_pos - b.read_pos
      → Returns (consume build b n) (Removed b n)
  consume-IsValid build n fits =
      rw (consume_lem build n fits) (
        ground arith,
        ground (arith, slice_add b.buffer b.read_pos n (b.write_pos - b.read_pos - n)),
      )

  pub compact-IsValid : IsValid (compact b)
  unfolding compact
  compact-IsValid = ground (arith, readable_exact, writable_exact)

  -- Compact moves the bytes that are left, and keeps them.
  pub contents-compact : contents (compact b) ≡ contents b
  unfolding compact
  contents-compact = ground (arith, readable_exact, writable_exact, moved)
    where
      n : ℕ
      n = b.write_pos - b.read_pos

      moved :
          slice (store b.buffer 0 (slice b.buffer b.read_pos n)) 0 n ≡ slice b.buffer b.read_pos n
      moved =
          ap (slice (store b.buffer 0 (slice b.buffer b.read_pos n)) 0)
            (sym (length-slice b.buffer b.read_pos n))
          ∙ slice-store_self b.buffer 0 (slice b.buffer b.read_pos n)

  compact_capacity : (compact b).capacity ≡ b.capacity
  unfolding compact
  compact_capacity = ground (arith, readable_exact, writable_exact)

  capacity-compact :
      b.write_pos - b.read_pos ≤ b.min_writable_size
      → b.min_writable_size ≤ (compact b).capacity - (compact b).write_pos
  unfolding compact
  capacity-compact short = ground (arith, readable_exact, writable_exact)

-- Compact keeps the buffer valid, and the bytes that are left, in their order.
pub compact_lem :
    {b : RecvBuffer} → IsValid b → IsValid (compact b) × (contents (compact b) ≡ contents b)
compact_lem {b} v = (compact-IsValid v, contents-compact v)

-- If no more bytes are left than the smallest write, there is room for that write after Compact, and
-- its span lies inside the buffer.
pub compact_room :
    {b : RecvBuffer}
    → IsValid b
    → b.write_pos - b.read_pos ≤ b.min_writable_size
    → (b.min_writable_size ≤ get_writable_size (compact b))
      × ((compact b).write_pos + get_writable_size (compact b) ≡ b.capacity)
compact_room {b} v short =
    rw (writable_exact (compact-IsValid v))
      (capacity-compact v short, ground (arith, compact-IsValid v, compact_capacity v))
