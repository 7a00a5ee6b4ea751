-- ===== src/RingBufferTest/Tests.antt =====
-- Runs of the fake session, and its theorems at them.
use tux_base_mmo.Common.{◌≡◌, refl, true, some, none, [], ◌∷◌, ◌++◌, arith, store}
use tux_base_mmo.Verify.{debug, release, returns}
use tux_base_mmo.RingBuffer.{new_ring, no_reader}
use tux_base_mmo.RingBuffer.Invariant.{contents}
use tux_base_mmo.RingBufferTest.{FakeSession, new_session, send_packet, recv}
use tux_base_mmo.RingBufferTest.Round.{Receives, waiting}
use tux_base_mmo.RingBufferTest.Recv.{Drained, recv_ends, recv_never_ends}
use tux_base_mmo.RingBufferTest.Send.{send_packet-recv}

abbrev fresh : FakeSession
fresh = new_session (λ i. 7) (λ i. 9)

fresh-Receives : Receives fresh no_reader
fresh-Receives = ground arith

-- Three bytes wait in the socket; the write cursor of the receiving ring is two before the end, and a
-- reader has freed the front.
abbrev wrapping : FakeSession
wrapping = record fresh {
  socket = record { buffer = λ i. i; size = 3 };
  recv_buffer = record (new_ring 2 (λ i. 9)) { read_cursor = 16380; write_cursor = 16382 };
}

wrapping-Receives : Receives wrapping no_reader
wrapping-Receives = ground arith

recv_ends_example :
    (t : FakeSession) × (recv debug 3 wrapping ≡ returns (some t)) × Drained wrapping t no_reader
recv_ends_example = recv_ends debug 3 wrapping wrapping-Receives (omega arith) (omega arith)

-- The ring holds all that it can but one byte.
abbrev crowded : FakeSession
crowded = record wrapping {
  recv_buffer = record (new_ring 2 (λ i. 9)) { read_cursor = 5; write_cursor = 4 };
}

crowded-Receives : Receives crowded no_reader
crowded-Receives = ground arith

recv_never_ends_example : recv release 1000 crowded ≡ returns none
recv_never_ends_example = recv_never_ends release 1000 crowded crowded-Receives (omega arith)

send_packet-recv_example :
    (t : FakeSession) × (u : FakeSession) × (send_packet debug wrapping (4 ∷ 0 ∷ 1 ∷ 0 ∷ [])
      ≡ returns (t, true))
    × (recv debug 7 t ≡ returns (some u))
    × (contents u.recv_buffer
        ≡ contents wrapping.recv_buffer ++ (waiting wrapping.socket ++ (4 ∷ 0 ∷ 1 ∷ 0 ∷ [])))
    × (u.socket.size ≡ 0)
    × (u.send_buffer ≡ new_ring 1 (store (λ i. 7) 0 (4 ∷ 0 ∷ 1 ∷ 0 ∷ [])))
    × (u.has_failure ≡ wrapping.has_failure)
    × Receives u no_reader
send_packet-recv_example =
    send_packet-recv debug 1 (λ i. 7) (4 ∷ 0 ∷ 1 ∷ 0 ∷ []) (omega arith) wrapping (omega arith) refl
      7 wrapping-Receives (omega arith) (omega arith)
