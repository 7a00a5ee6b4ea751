-- ===== src/RingBufferTest/Round.antt =====
-- One round of `FakeSession::Recv`: `RecvComplete` takes what fits before the end of the ring.
use tux_base_mmo.Common.{
  ℕ, ◌+◌, ◌-◌, ◌≤◌, ◌<◌, ◌≡◌, refl, sym, ap, ap₂, ◌∙◌, true, false, some, min, List, ◌++◌,
  append_assoc, length-slice, leb, ltb, if◌then◌else◌, arith, slice, slice_add, slice_shift, store,
  slice-store_self, sub32_exact,
}
use tux_base_mmo.Verify.{Build, debug, release, returns}
use tux_base_mmo.RingBuffer.{
  RingBuffer, RingBufferReader, RingBufferWriter, k_capacity, no_writer, create_all_writer,
  writable_size,
}
use tux_base_mmo.RingBuffer.Invariant.{contents, Inv}
use tux_base_mmo.RingBuffer.Commit.{committed, written, contents-written, commit_write_lem}
use tux_base_mmo.RingBuffer.Handle.{writer_get_ptr, writer_destroy, writer_commit}
use tux_base_mmo.RingBuffer.Client.Handles.{
  writer_destroy_invalid, writer_commit_passes, writer_get_ptr_lem, contents_fill,
}
use tux_base_mmo.RingBufferTest.{
  FakeSocket, FakeSession, k_socket_capacity, socket_recv, recv_complete,
}

-- The bytes that wait in a socket.
abbrev pub waiting : FakeSocket → List ℕ
waiting s = slice s.buffer 0 s.size

-- How far CreateAllWriter can reach,
abbrev pub reach : RingBuffer → ℕ
reach r =
    if leb r.read_cursor r.write_cursor
    then k_capacity - r.write_cursor
    else r.read_cursor - r.write_cursor

-- and how many bytes several calls of it can write.
abbrev pub free : RingBuffer → ℕ
free r =
    if r.is_full
    then 0
    else if leb r.read_cursor r.write_cursor
    then k_capacity - r.write_cursor + r.read_cursor
    else r.read_cursor - r.write_cursor

-- No writer is active, and the socket is not over its capacity.
pub record Receives (s : FakeSession) (d : RingBufferReader) : Type 0 where
  pub inv : Inv s.recv_buffer no_writer d
  pub in_socket : s.socket.size ≤ k_socket_capacity

-- What one round takes,
abbrev pub taken : FakeSession → ℕ
taken s = min (reach s.recv_buffer) s.socket.size

abbrev reserved : RingBuffer → RingBuffer
reserved r = record r { is_active_writer = true }

abbrev whole_writer : RingBuffer → RingBufferWriter
whole_writer r = record { owner = some r.address; ptr = some r.write_cursor; size = reach r }

abbrev filled : FakeSession → RingBuffer
filled s = record (reserved s.recv_buffer) {
  buffer =
      store s.recv_buffer.buffer s.recv_buffer.write_cursor (slice s.socket.buffer 0 (taken s));
}

-- and what it leaves.
abbrev left_in : FakeSocket → ℕ → FakeSocket
left_in s n = record {
  buffer = λ i. if ltb i (s.size - n) then s.buffer (i + n) else s.buffer i;
  size = s.size - n;
}

abbrev pub received : FakeSession → FakeSession
received s = record s {
  socket = left_in s.socket (taken s);
  recv_buffer = written (filled s) (taken s);
}

module _ {s : FakeSession} {d : RingBufferReader} (v : Receives s d) where
  create_all_writer_lem :
      (build : Build)
      → s.recv_buffer.is_full ≡ false
      → create_all_writer build s.recv_buffer
        ≡ returns (reserved s.recv_buffer, whole_writer s.recv_buffer)
  unfolding create_all_writer writable_size
  create_all_writer_lem debug vacant = ground (
    arith,
    v.inv,
    sub32_exact k_capacity s.recv_buffer.write_cursor,
    sub32_exact s.recv_buffer.read_cursor s.recv_buffer.write_cursor,
  )
  create_all_writer_lem release vacant = ground (
    arith,
    v.inv,
    sub32_exact k_capacity s.recv_buffer.write_cursor,
    sub32_exact s.recv_buffer.read_cursor s.recv_buffer.write_cursor,
  )

  reserved-Inv :
      s.recv_buffer.is_full ≡ false → Inv (reserved s.recv_buffer) (whole_writer s.recv_buffer) d
  reserved-Inv vacant = ground (arith, v.inv)

  filled-Inv : s.recv_buffer.is_full ≡ false → Inv (filled s) (whole_writer s.recv_buffer) d
  filled-Inv vacant = ground (arith, v.inv)

  whole_ptr :
      (build : Build)
      → s.recv_buffer.is_full ≡ false
      → writer_get_ptr build (whole_writer s.recv_buffer) 0
        ≡ returns (some s.recv_buffer.write_cursor)
  whole_ptr build vacant =
      writer_get_ptr_lem build 0 (reserved-Inv vacant) refl (omega arith)
      ∙ ap (λ p. returns (some p)) {x = s.recv_buffer.write_cursor + 0} (omega arith)

  round_commit :
      (build : Build)
      → s.recv_buffer.is_full ≡ false
      → 0 < taken s
      → writer_commit build (filled s) (whole_writer s.recv_buffer) (taken s)
        ≡ returns (written (filled s) (taken s), no_writer)
  round_commit build vacant some_left =
      writer_commit_passes build (taken s) (filled-Inv vacant) refl (omega arith)
      ∙ commit_write_lem build (taken s) (filled-Inv vacant) refl (omega arith)
      ∙ ap (λ n. returns (written (filled s) n, no_writer))
          {x = committed (reach s.recv_buffer) (taken s)} (ground arith)

  pub taken_pos : s.recv_buffer.is_full ≡ false → 0 < s.socket.size → 0 < taken s
  taken_pos vacant some_left = ground (arith, v.inv)

  pub recv_complete_lem :
      (build : Build)
      → s.recv_buffer.is_full ≡ false
      → 0 < s.socket.size
      → recv_complete build s ≡ returns (received s)
  unfolding recv_complete socket_recv
  recv_complete_lem build vacant some_left =
      rw
        (
          create_all_writer_lem build vacant,
          (reserved-Inv vacant).writer.held,
          whole_ptr build vacant,
          sub32_exact s.socket.size (taken s) (omega arith) (omega (arith, v.in_socket)),
          round_commit build vacant (taken_pos vacant some_left),
          writer_destroy_invalid build (written (filled s) (taken s)) no_writer refl,
        )
        refl

  pub recv_complete_full :
      (build : Build)
      → s.recv_buffer.is_full ≡ true
      → recv_complete build s ≡ returns (record s { has_failure = true })
  unfolding recv_complete writer_destroy create_all_writer
  recv_complete_full debug full = ground (arith, v.inv)
  recv_complete_full release full = ground (arith, v.inv)

  pub round-Receives : s.recv_buffer.is_full ≡ false → 0 < s.socket.size → Receives (received s) d
  round-Receives vacant some_left = record {
    inv = ground (arith, v.inv);
    in_socket = ground (arith, v.in_socket);
  }

  -- A round uses up as much of the room as it takes from the socket,
  pub free_round :
      s.recv_buffer.is_full ≡ false
      → 0 < s.socket.size
      → free s.recv_buffer ≡ free (received s).recv_buffer + taken s
  free_round vacant some_left = ground (arith, v.inv)

  -- and moves those bytes behind the contents.
  pub contents_round :
      s.recv_buffer.is_full ≡ false
      → 0 < s.socket.size
      → contents (received s).recv_buffer ++ waiting (received s).socket
        ≡ contents s.recv_buffer ++ waiting s.socket
  contents_round vacant some_left =
      ap₂ ◌++◌
        (contents-written (filled s) (taken s) (filled-Inv vacant).cursors vacant
            (taken_pos vacant some_left) (ground (arith, v.inv)) (ground (arith, v.inv))
          ∙ ap₂ ◌++◌ kept moved)
        left
      ∙ append_assoc (contents s.recv_buffer) (slice s.socket.buffer 0 (taken s))
          (slice s.socket.buffer (0 + taken s) (s.socket.size - taken s))
      ∙ ap (◌++◌ (contents s.recv_buffer)) (
          sym (slice_add s.socket.buffer 0 (taken s) (s.socket.size - taken s))
          ∙ ap (slice s.socket.buffer 0) (omega arith))
    where
      kept : contents (filled s) ≡ contents s.recv_buffer
      kept =
          contents_fill s.recv_buffer.write_cursor (slice s.socket.buffer 0 (taken s))
            (reserved-Inv vacant) refl (omega arith)
            (omega (arith, length-slice s.socket.buffer 0 (taken s)))

      moved :
          slice (filled s).buffer s.recv_buffer.write_cursor (taken s)
          ≡ slice s.socket.buffer 0 (taken s)
      moved =
          ap (slice (filled s).buffer s.recv_buffer.write_cursor)
            (sym (length-slice s.socket.buffer 0 (taken s)))
          ∙ slice-store_self s.recv_buffer.buffer s.recv_buffer.write_cursor
              (slice s.socket.buffer 0 (taken s))

      same : (l : ℕ) → s.socket.buffer (l + taken s) ≡ s.socket.buffer (0 + taken s + l)
      same l = ap s.socket.buffer (omega arith)

      left :
          waiting (left_in s.socket (taken s))
          ≡ slice s.socket.buffer (0 + taken s) (s.socket.size - taken s)
      left =
          slice_shift (left_in s.socket (taken s)).buffer s.socket.buffer 0 (0 + taken s)
            (s.socket.size - taken s) (λ l lt. ground (arith, same l))
