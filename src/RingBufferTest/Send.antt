-- ===== src/RingBufferTest/Send.antt =====
-- What is sent with `FakeSession::Send` arrives in the other ring by `FakeSession::Recv`.
use tux_base_mmo.Common.{
  lt→ltb, ℕ, ◌+◌, ◌≤◌, ◌<◌, ◌≡◌, refl, sym, ap, ap₂, ◌∙◌, true, some, List, ◌++◌, length, arith,
  slice, store, slice-store_self, slice-store_apart, slice_congr, slice_add, length-slice, inl,
  ◌==◌, if◌then◌else◌, sub32_exact,
}
use tux_base_mmo.Verify.{Build, returns}
use tux_base_mmo.RingBuffer.{RingBufferReader, k_capacity, new_ring, no_reader, no_writer}
use tux_base_mmo.RingBuffer.Invariant.{contents}
use tux_base_mmo.RingBuffer.Client.Handles.{
  writer_destroy_invalid, writer_get_ptr_lem, reader_destroy_invalid,
}
use tux_base_mmo.RingBufferTest.{
  FakeSocket, FakeSession, k_socket_capacity, socket_send, create_send_buffer, send_complete, send,
  send_packet, recv,
}
use tux_base_mmo.RingBufferTest.Round.{waiting, free, Receives}
use tux_base_mmo.RingBufferTest.Recv.{Drained, recv_ends}
use tux_base_mmo.RingBufferTest.Front.{
  reserved, front_writer, holding, create_writer_lem, writer_as_lem, create_reader_lem, commit_lem,
  consume_lem,
}

-- The socket after `Send` of `n` bytes for which it has room.
abbrev loaded : FakeSocket → (ℕ → ℕ) → ℕ → FakeSocket
loaded s memory n = record {
  buffer = λ i. if i == (s.size + n) then 0 else store s.buffer s.size (slice memory 0 n) i;
  size = s.size + n;
}

socket_send_lem :
    (s : FakeSocket) (memory : ℕ → ℕ) (n : ℕ)
    → s.size + n ≤ k_socket_capacity
    → socket_send s memory (some 0) n ≡ returns (loaded s memory n)
unfolding socket_send
socket_send_lem s memory n fits =
    rw (sub32_exact k_socket_capacity s.size (omega arith) (omega arith))
      (ap (λ k. returns (loaded s memory k)) (omega arith))

waiting-loaded :
    (s : FakeSocket) (memory : ℕ → ℕ) (n : ℕ)
    → waiting (loaded s memory n) ≡ waiting s ++ slice memory 0 n
waiting-loaded s memory n =
    slice_congr (loaded s memory n).buffer stored 0 (s.size + n) (λ j p q. ground arith)
    ∙ slice_add stored 0 s.size n
    ∙ ap₂ ◌++◌ (slice-store_apart s.buffer s.size (slice memory 0 n) 0 s.size (inl (omega arith))) (
        ap₂ (slice stored) {x = 0 + s.size} {y = s.size} (omega arith)
          (sym (length-slice memory 0 n))
        ∙ slice-store_self s.buffer s.size (slice memory 0 n))
  where
    stored : ℕ → ℕ
    stored = store s.buffer s.size (slice memory 0 n)

module _ (build : Build) (address : ℕ) (m : ℕ → ℕ) (n : ℕ) (pos : 0 < n) (t : FakeSession) where
  send_complete_lem :
      n < k_capacity
      → t.send_buffer ≡ holding address m n
      → send_complete build t n ≡ returns (record t { send_buffer = new_ring address m })
  unfolding send_complete
  send_complete_lem fits e =
      rw
        (
          e,
          create_reader_lem address m n pos fits build,
          consume_lem address m n pos fits build,
          reader_destroy_invalid build (new_ring address m) no_reader refl,
        )
        (ground arith)

-- A new ring after `Send`, and the session with it.
abbrev sent : FakeSession → ℕ → (ℕ → ℕ) → ℕ → FakeSession
sent t address m n = record t { send_buffer = new_ring address m; socket = loaded t.socket m n }

module _ (build : Build) (address : ℕ) (m : ℕ → ℕ) (n : ℕ) (pos : 0 < n) (t : FakeSession) where
  send_lem :
      t.socket.size + n ≤ k_socket_capacity
      → t.send_buffer ≡ reserved address m
      → send build t (front_writer address n) ≡ returns (sent t address m n, no_writer)
  unfolding send
  send_lem fits e =
      rw
        (
          e,
          writer_get_ptr_lem {r = reserved address m} {w = front_writer address n} {d = no_reader}
              build 0 (ground arith) refl (omega arith),
          commit_lem address m n pos (omega arith) build,
          socket_send_lem t.socket m n fits,
          send_complete_lem build address m n pos
              (record t { send_buffer = holding address m n; socket = loaded t.socket m n })
              (omega arith) refl,
        )
        refl

module _ (build : Build) (address : ℕ) (m : ℕ → ℕ) (packet : List ℕ) (pos : 0 < length packet)
    (s : FakeSession) (fits : s.socket.size + length packet ≤ k_socket_capacity)
    (reset : s.send_buffer ≡ new_ring address m) where
  send_packet_lem :
      send_packet build s packet ≡ returns (sent s address (store m 0 packet) (length packet), true)
  unfolding send_packet create_send_buffer
  send_packet_lem =
      rw
        (
          reset,
          create_writer_lem address m (length packet) pos (omega arith) build,
          lt→ltb 0 (length packet) pos,
          writer_as_lem address m (length packet) pos (omega arith) build,
          send_lem build address (store m 0 packet) (length packet) pos
              (record s { send_buffer = reserved address (store m 0 packet) }) fits refl,
          writer_destroy_invalid build (new_ring address (store m 0 packet)) no_writer refl,
        )
        refl

  -- In a session with no active writer to receive with and a send ring as new, a packet of at least
  -- one byte for which both the socket and the ring have room is sent, and `Recv` then ends, in
  -- either build: the bytes of the packet stand, unchanged and in order, behind those that the ring
  -- held and those that waited in the socket; the socket is empty, the send ring is as new, and no
  -- expectation failed.
  pub send_packet-recv :
      {d : RingBufferReader} (fuel : ℕ)
      → Receives s d
      → s.socket.size + length packet ≤ free s.recv_buffer
      → s.socket.size + length packet ≤ fuel
      → (t : FakeSession) × (u : FakeSession) × (send_packet build s packet ≡ returns (t, true))
        × (recv build fuel t ≡ returns (some u))
        × (contents u.recv_buffer ≡ contents s.recv_buffer ++ (waiting s.socket ++ packet))
        × (u.socket.size ≡ 0)
        × (u.send_buffer ≡ new_ring address (store m 0 packet))
        × (u.has_failure ≡ s.has_failure)
        × Receives u d
  send_packet-recv {d} fuel v room enough = (
    sent s address (store m 0 packet) (length packet),
    u,
    send_packet_lem,
    received,
    g.moved
        ∙ ap (◌++◌ (contents s.recv_buffer)) (
            waiting-loaded s.socket (store m 0 packet) (length packet)
            ∙ ap (◌++◌ (waiting s.socket)) (slice-store_self m 0 packet)),
    g.empty,
    g.same_send,
    g.same_failure,
    g.ready,
  )
    where
      ends :
          (u : FakeSession) × (recv build fuel (sent s address (store m 0 packet) (length packet))
            ≡ returns (some u))
          × Drained (sent s address (store m 0 packet) (length packet)) u d
      ends =
          recv_ends build fuel (sent s address (store m 0 packet) (length packet))
            (record { inv = v.inv; in_socket = fits }) room enough

      u : FakeSession
      u = ends.0

      received :
          recv build fuel (sent s address (store m 0 packet) (length packet)) ≡ returns (some u)
      received = ends.1

      g : Drained (sent s address (store m 0 packet) (length packet)) u d
      g = ends.2
