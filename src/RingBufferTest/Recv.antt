-- ===== src/RingBufferTest/Recv.antt =====
-- `FakeSession::Recv` ends just when the ring has room for the bytes in the socket.
use tux_base_mmo.Common.{
  ℕ, zero, suc, ◌≤◌, ◌<◌, ◌≡◌, refl, sym, ap, inl, inr, Bool-cases, lt→ltb, ◌∙◌, true, false, some,
  none, ◌++◌, append-nil, arith, dec_lt, slice,
}
use tux_base_mmo.Verify.{Build, returns, ◌>>=◌}
use tux_base_mmo.RingBuffer.{RingBufferReader}
use tux_base_mmo.RingBuffer.Invariant.{contents}
use tux_base_mmo.RingBufferTest.{FakeSession, recv_complete, recv}
use tux_base_mmo.RingBufferTest.Round.{
  Receives, received, waiting, free, recv_complete_lem, recv_complete_full, round-Receives,
  free_round, contents_round, taken_pos,
}

-- What `Recv` leaves: an empty socket, whose bytes stand behind those that the ring held.
pub record Drained (s t : FakeSession) (d : RingBufferReader) : Type 0 where
  pub ready : Receives t d
  pub empty : t.socket.size ≡ 0
  pub moved : contents t.recv_buffer ≡ contents s.recv_buffer ++ waiting s.socket
  pub same_send : t.send_buffer ≡ s.send_buffer
  pub same_failure : t.has_failure ≡ s.has_failure

waiting_none :
    (s : FakeSession)
    → s.socket.size ≡ 0
    → contents s.recv_buffer ++ waiting s.socket ≡ contents s.recv_buffer
waiting_none s e =
    ap (λ n. contents s.recv_buffer ++ slice s.socket.buffer 0 n) e
    ∙ append-nil (contents s.recv_buffer)

room_vacant : (s : FakeSession) → 0 < free s.recv_buffer → s.recv_buffer.is_full ≡ false
room_vacant s h = ground arith

recv_on :
    (build : Build) (fuel : ℕ) (s : FakeSession)
    → 0 < s.socket.size
    → recv build (suc fuel) s ≡ recv_complete build s >>= λ t. recv build fuel t
unfolding recv
recv_on build fuel s some_left = rw (recv, lt→ltb 0 s.socket.size some_left) refl

-- `Recv` of at most so many rounds ends.
abbrev Ends : Build → RingBufferReader → ℕ → FakeSession → Type 0
Ends build d fuel s = (t : FakeSession) × (recv build fuel s ≡ returns (some t)) × Drained s t d

-- A round, and then those that remain.
round_then :
    (build : Build) {d : RingBufferReader} (fuel : ℕ) {s : FakeSession} (v : Receives s d)
    → s.recv_buffer.is_full ≡ false
    → 0 < s.socket.size
    → Ends build d fuel (received s)
    → Ends build d (suc fuel) s
round_then build fuel {s} v vacant some_left (t, e, g) = (
  t,
  recv_on build fuel s some_left ∙ rw (recv_complete_lem v build vacant some_left) e,
  record {
    ready = g.ready;
    empty = g.empty;
    moved = g.moved ∙ contents_round v vacant some_left;
    same_send = g.same_send;
    same_failure = g.same_failure;
  },
)

module _ (build : Build) {d : RingBufferReader} where
  -- With no writer active and room in the ring for the bytes in the socket, `Recv` comes to an end in
  -- either build, after no more rounds than there are bytes: the socket is then empty, its bytes stand
  -- in order behind those that the ring held, no expectation has failed that had not, and the state is
  -- one in which `Recv` can be called again.
  pub recv_ends :
      (fuel : ℕ) (s : FakeSession)
      → Receives s d
      → s.socket.size ≤ free s.recv_buffer
      → s.socket.size ≤ fuel
      → (t : FakeSession) × (recv build fuel s ≡ returns (some t)) × Drained s t d
  unfolding recv
  recv_ends zero s v room enough = (
    s,
    ground arith,
    record {
      ready = v;
      empty = omega arith;
      moved = sym (waiting_none s (omega arith));
      same_send = refl;
      same_failure = refl;
    },
  )
  recv_ends (suc fuel) s v room enough = elim (dec_lt 0 s.socket.size) [
    | yes some_left ↦
        (let vacant = room_vacant s (omega arith) in
          round_then build fuel v vacant some_left (
            recv_ends fuel (received s) (round-Receives v vacant some_left)
              (omega (arith, free_round v vacant some_left))
              (omega (arith, taken_pos v vacant some_left))))
    | no none_left ↦ (
      s,
      ground arith,
      record {
        ready = v;
        empty = omega arith;
        moved = sym (waiting_none s (omega arith));
        same_send = refl;
        same_failure = refl;
      },
    )
  ]

  -- With no writer active and more bytes in the socket than the ring has room for, `Recv` never ends,
  -- however many rounds it makes, in either build.
  pub recv_never_ends :
      (fuel : ℕ) (s : FakeSession)
      → Receives s d
      → free s.recv_buffer < s.socket.size
      → recv build fuel s ≡ returns none
  unfolding recv
  recv_never_ends zero s v over = ground arith
  recv_never_ends (suc fuel) s v over = elim (Bool-cases s.recv_buffer.is_full) [
    | inl full ↦
        recv_on build fuel s (omega arith)
        ∙ rw (recv_complete_full v build full) (
            recv_never_ends fuel (record s { has_failure = true })
              (record { inv = v.inv; in_socket = v.in_socket }) over)
    | inr vacant ↦
        recv_on build fuel s (omega arith)
        ∙ rw (recv_complete_lem v build vacant (omega arith)) (
            recv_never_ends fuel (received s) (round-Receives v vacant (omega arith))
              (omega (arith, free_round v vacant (omega arith))))
  ]
