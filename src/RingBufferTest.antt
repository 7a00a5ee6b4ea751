-- ===== src/RingBufferTest.antt =====
-- 01_Server/Src/99_Test/Source/01_ServerBase/DataStruct/RingBufferTest.cpp: a session whose socket is
-- an array, with a ring to send from and a ring to receive into.
pub mod Round
pub mod Recv
pub mod Front
pub mod Send
pub mod Cases
pub mod Passed
mod Tests
use tux_base_mmo.Common.{
  ℕ, zero, suc, ◌+◌, Bool, true, false, Option, none, some, min, ltb, ◌==◌, if◌then◌else◌, not,
  ◌||◌, sub32, List, length, slice, store,
}
use tux_base_mmo.Verify.{Build, Outcome, returns, undefined, ◌>>=◌}
use tux_base_mmo.RingBuffer.{
  RingBuffer, RingBufferReader, RingBufferWriter, new_ring, create_writer, create_all_writer,
  create_reader, reader_is_valid, writer_is_valid,
}
use tux_base_mmo.RingBuffer.Handle.{
  writer_as, writer_get_ptr, writer_commit, writer_destroy, reader_commit, reader_destroy,
}

-- `FakeSocket::kCapacity`
abbrev pub k_socket_capacity : ℕ
k_socket_capacity = 256

pub record FakeSocket : Type 0 where
  pub buffer : ℕ → ℕ
  pub size : ℕ

-- `FakeSocket::FakeSocket()`
abbrev pub new_socket : FakeSocket
new_socket = record { buffer = λ i. 0; size = 0 }

-- `FakeSocket::Recv` to an address of the memory: the socket, the memory and the count after it.
unfoldable pub socket_recv : FakeSocket → (ℕ → ℕ) → Option ℕ → ℕ → FakeSocket × (ℕ → ℕ) × ℕ
socket_recv s memory none recv_len = (s, memory, 0)
socket_recv s memory (some buf) recv_len =
    let n = min recv_len s.size in
    let rest = sub32 s.size n in
    (
      record { buffer = λ i. if ltb i rest then s.buffer (i + n) else s.buffer i; size = rest },
      store memory buf (slice s.buffer 0 n),
      n,
    )

-- `FakeSocket::Send` from an address of the memory; `memcpy` from `nullptr` is undefined.
unfoldable pub socket_send : FakeSocket → (ℕ → ℕ) → Option ℕ → ℕ → Outcome FakeSocket
socket_send s memory none send_len = undefined
socket_send s memory (some buf) send_len =
    let n = min send_len (sub32 k_socket_capacity s.size) in
    let copied = store s.buffer s.size (slice memory buf n) in
    returns (record { buffer = λ i. if i == (s.size + n) then 0 else copied i; size = s.size + n })

-- `FakeSocket::GetDataSize`
abbrev pub get_data_size : FakeSocket → ℕ
get_data_size s = s.size

-- `has_failure` is true once an expectation has failed.
pub record FakeSession : Type 0 where
  pub socket : FakeSocket
  pub send_buffer : RingBuffer
  pub recv_buffer : RingBuffer
  pub has_failure : Bool

-- `FakeSession::FakeSession()`, with the bytes that the two rings happen to hold
abbrev pub new_session : (ℕ → ℕ) → (ℕ → ℕ) → FakeSession
new_session send_bytes recv_bytes = record {
  socket = new_socket;
  send_buffer = new_ring 1 send_bytes;
  recv_buffer = new_ring 2 recv_bytes;
  has_failure = false;
}

module _ (build : Build) where
  -- `FakeSession::CreateSendBuffer`, of the size of its type
  unfoldable pub create_send_buffer : FakeSession → ℕ → Outcome (FakeSession × RingBufferWriter)
  create_send_buffer s size = do
    (r, w) ← create_writer build s.send_buffer size
    returns (record s { send_buffer = r }, w)

  -- `FakeSession::FetchRecvBuffer`, of the size of its type
  unfoldable pub fetch_recv_buffer : FakeSession → ℕ → Outcome (FakeSession × RingBufferReader)
  fetch_recv_buffer s size = do
    (r, d) ← create_reader build s.recv_buffer size
    returns (record s { recv_buffer = r }, d)

  -- `FakeSession::SendComplete`. An ASSERT_TRUE that fails ends the function, an EXPECT_EQ does not.
  unfoldable pub send_complete : FakeSession → ℕ → Outcome FakeSession
  send_complete s send_size = do
    (r, reader) ← create_reader build s.send_buffer send_size
    if reader_is_valid reader
        then (do
          (r', reader') ← reader_commit build r reader 0
          (r'', reader'') ← reader_destroy build r' reader'
          returns (record s {
            send_buffer = r'';
            has_failure = s.has_failure || not (reader.size == send_size);
          }))
        else (do
          (r', reader') ← reader_destroy build r reader
          returns (record s { send_buffer = r'; has_failure = true }))

  -- `FakeSession::Send`; the writer that the caller moved in is left behind.
  unfoldable pub send : FakeSession → RingBufferWriter → Outcome (FakeSession × RingBufferWriter)
  send s writer = do
    ptr ← writer_get_ptr build writer 0
    let size = writer.size
    (r, writer') ← writer_commit build s.send_buffer writer 0
    socket ← socket_send s.socket r.buffer ptr size
    t ← send_complete (record s { send_buffer = r; socket = socket }) size
    returns (t, writer')

  -- `FakeSession::RecvComplete`
  unfoldable pub recv_complete : FakeSession → Outcome FakeSession
  recv_complete s = do
    (r, writer) ← create_all_writer build s.recv_buffer
    if writer_is_valid writer
        then (do
          let data_size = writer.size
          ptr ← writer_get_ptr build writer 0
          let (socket, memory, recv_len) = socket_recv s.socket r.buffer ptr data_size
          (r', writer') ← writer_commit build (record r { buffer = memory }) writer recv_len
          (r'', writer'') ← writer_destroy build r' writer'
          returns (record s { socket = socket; recv_buffer = r'' }))
        else (do
          (r', writer') ← writer_destroy build r writer
          returns (record s { recv_buffer = r'; has_failure = true }))

  -- `FakeSession::Recv`, as many rounds of it as the fuel says; `none` where it would go on.
  unfoldable pub recv : ℕ → FakeSession → Outcome (Option FakeSession)
  recv zero s = returns (if ltb 0 (get_data_size s.socket) then none else some s)
  recv (suc fuel) s = elim (ltb 0 (get_data_size s.socket)) [
    | true ↦ recv_complete s >>= λ t. recv fuel t
    | false ↦ returns (some s)
  ]

  -- The first block of `TEST(RingBufferTest, NetIO)`, with the bytes of its packet: `false` where
  -- ASSERT_TRUE(writer.IsValid()) ends the test.
  unfoldable pub send_packet : FakeSession → List ℕ → Outcome (FakeSession × Bool)
  send_packet s packet = do
    (t, writer) ← create_send_buffer s (length packet)
    if writer_is_valid writer
        then (do
          p ← writer_as build writer
          let filled = record t.send_buffer { buffer = store t.send_buffer.buffer p packet }
          (u, writer') ← send (record t { send_buffer = filled }) writer
          (r, writer'') ← writer_destroy build u.send_buffer writer'
          returns (record u { send_buffer = r }, true))
        else (do
          (r, writer') ← writer_destroy build t.send_buffer writer
          returns (record t { send_buffer = r; has_failure = true }, false))
