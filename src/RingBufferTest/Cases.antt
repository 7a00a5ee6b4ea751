-- ===== src/RingBufferTest/Cases.antt =====
-- The three cases of RingBufferTest.cpp. A case comes to `true` if every expectation held.
use tux_base_mmo.Common.{
  ℕ, zero, suc, ◌+◌, ◌-◌, ◌*◌, ◌/◌, ◌%◌, Bool, true, false, Option, none, some, List, [], ◌∷◌, not,
  ◌&&◌, ltb, leb, ◌==◌, if◌then◌else◌,
}
use tux_base_mmo.Verify.{Build, Outcome, returns, undefined, ◌>>=◌, ◌>>◌}
use tux_base_mmo.RingBuffer.{
  RingBuffer, RingBufferReader, RingBufferWriter, k_capacity, new_ring, create_writer,
  create_reader, create_all_reader, reader_is_valid, writer_is_valid, destroy_ring,
}
use tux_base_mmo.RingBuffer.Handle.{
  writer_get_ptr, writer_commit, writer_destroy, reader_get_ptr, reader_as, reader_commit,
  reader_give_up, reader_destroy,
}
use tux_base_mmo.RingBufferTest.{FakeSession, new_session, fetch_recv_buffer, send_packet, recv}

-- `memset(pointer, value, size)` in the ring's bytes
abbrev pub memset : RingBuffer → Option ℕ → ℕ → ℕ → Outcome RingBuffer
memset r none value size = undefined
memset r (some p) value size =
    returns (record r { buffer = λ i. if leb p i && ltb i (p + size) then value else r.buffer i })

-- The bytes of a `DummyPacket` in memory: `m_size`, `m_id` and `m_sequence`.
abbrev pub packet_bytes : ℕ → ℕ → ℕ → List ℕ
packet_bytes size id sequence =
    size % 256
    ∷ size / 256 % 256
    ∷ id % 256
    ∷ id / 256 % 256
    ∷ sequence % 256
    ∷ sequence / 256 % 256
    ∷ sequence / 65536 % 256
    ∷ sequence / 16777216 % 256
    ∷ []

-- A UINT16 and a UINT32 read from the ring's bytes
abbrev u16_at : RingBuffer → ℕ → ℕ
u16_at r p = r.buffer p + 256 * r.buffer (p + 1)

abbrev u32_at : RingBuffer → ℕ → ℕ
u32_at r p = u16_at r p + 65536 * u16_at r (p + 2)

module _ (build : Build) where
  -- The ring goes out of scope, and the case ends.
  abbrev pub end_case : RingBuffer → Bool → Outcome Bool
  end_case r passed = destroy_ring build r >> returns passed

  -- `ASSERT_TRUE(w.IsValid())` and `ASSERT_TRUE(r.IsValid())`: the case goes on, or ends.
  abbrev pub require_writer : RingBuffer → RingBufferWriter → Outcome Bool → Outcome Bool
  require_writer r w next =
      if writer_is_valid w
      then next
      else (do (r', w') ← writer_destroy build r w; end_case r' false)

  abbrev pub require_reader : RingBuffer → RingBufferReader → Outcome Bool → Outcome Bool
  require_reader r d next =
      if reader_is_valid d
      then next
      else (do (r', d') ← reader_destroy build r d; end_case r' false)

  -- A scope in which a writer is made, its bytes are set to a value, or left alone, and its destructor
  -- commits it. The rest is given the size of the writer.
  abbrev pub write_block :
      RingBuffer → ℕ → Option ℕ → (RingBuffer → ℕ → Outcome Bool) → Outcome Bool
  write_block r size value next = do
    (r₁, w) ← create_writer build r size
    require_writer r₁ w
        (do r₂ ← set_bytes value r₁ w; (r₃, w') ← writer_destroy build r₂ w; next r₃ w.size)
    where
      set_bytes : Option ℕ → RingBuffer → RingBufferWriter → Outcome RingBuffer
      set_bytes none r w = returns r
      set_bytes (some v) r w = do p ← writer_get_ptr build w 0; memset r p v w.size

  -- A scope in which a reader of all that is contiguous is made, and its destructor commits it.
  abbrev pub read_all_block : RingBuffer → (RingBuffer → ℕ → Outcome Bool) → Outcome Bool
  read_all_block r next = do
    (r₁, d) ← create_all_reader build r
    require_reader r₁ d (do (r₂, d') ← reader_destroy build r₁ d; next r₂ d.size)

  -- A scope in which a reader of a size is made, and its destructor commits it.
  abbrev pub read_block : RingBuffer → ℕ → (RingBuffer → Outcome Bool) → Outcome Bool
  read_block r size next = do
    (r₁, d) ← create_reader build r size
    require_reader r₁ d (do (r₂, d') ← reader_destroy build r₁ d; next r₂)

  -- `TEST(RingBufferTest, Wrap)`: three quarters are written, and a half is read;
  abbrev pub wrap_begin : RingBuffer → (RingBuffer → Outcome Bool) → Outcome Bool
  wrap_begin r next = do
    (r₁, w) ← create_writer build r (k_capacity / 4 * 3)
    require_writer r₁ w (do
      p ← writer_get_ptr build w 0
      r₂ ← memset r₁ p 255 w.size
      (r₃, w') ← writer_commit build r₂ w 0
      (r₄, d) ← create_reader build r₃ (k_capacity / 2)
      require_reader r₄ d (do
        (r₅, d') ← reader_commit build r₄ d 0
        (r₆, d'') ← reader_destroy build r₅ d'
        (r₇, w'') ← writer_destroy build r₆ w'
        next r₇))

  -- the contiguous size is noted;
  abbrev pub wrap_measure : RingBuffer → (RingBuffer → ℕ → Outcome Bool) → Outcome Bool
  wrap_measure r next = do
    (r₁, d) ← create_all_reader build r
    require_reader r₁ d (do
      (r₂, d') ← reader_give_up build r₁ d
      (r₃, d'') ← reader_destroy build r₂ d'
      next r₃ d.size)

  -- a half is written, which wraps, and two readers take what is there.
  unfoldable pub wrap : (ℕ → ℕ) → Outcome Bool
  wrap memory = wrap_begin (new_ring 1 memory) (λ r₁. wrap_measure r₁ (λ r₂ continue_remain_size.
      write_block r₂ (k_capacity / 2) (some 255) (λ r₃ tail_skip_data_size.
        read_all_block r₃ (λ r₄ first. read_all_block r₄ (λ r₅ second.
          end_case r₅ ((first == continue_remain_size) && (second == tail_skip_data_size)))))))

  -- `EXPECT_EQ(data[i], value)` for the `n` indices from `i` on
  abbrev pub all_equal : RingBuffer → ℕ → ℕ → ℕ → Bool
  all_equal r i zero value = true
  all_equal r i (suc n) value =
      let rest = all_equal r (suc i) n value in (r.buffer i == value) && rest

  -- The last block of `TEST(RingBufferTest, Wrap_ResetCursor)`
  abbrev pub check_sections : RingBuffer → Outcome Bool
  check_sections r = do
    (r₁, d) ← create_all_reader build r
    require_reader r₁ d (do
      bytes ← reader_get_ptr build d 0
      passed ← check bytes r₁ (d.size / 2) d.size
      (r₂, d') ← reader_commit build r₁ d 0
      (r₃, d'') ← reader_destroy build r₂ d'
      end_case r₃ passed)
    where
      check : Option ℕ → RingBuffer → ℕ → ℕ → Outcome Bool
      check none r middle end = undefined
      check (some p) r middle end =
          returns (all_equal r p middle 0 && all_equal r (p + middle) (end - middle) 255)

  -- `TEST(RingBufferTest, Wrap_ResetCursor)`
  unfoldable pub wrap_reset_cursor : (ℕ → ℕ) → Outcome Bool
  wrap_reset_cursor memory = write_block (new_ring 1 memory) (k_capacity / 2) (some 255) (λ r₁ n₁.
      read_block r₁ (k_capacity / 2) (λ r₂.
        write_block r₂ (k_capacity / 4) (some 0)
          (λ r₃ n₃. write_block r₃ (k_capacity / 4) none (λ r₄ n₄. check_sections r₄))))

  -- `TEST(RingBufferTest, NetIO)`; `none` where `Recv` would go on after `fuel` rounds.
  unfoldable pub net_io : (ℕ → ℕ) → (ℕ → ℕ) → ℕ → ℕ → Outcome (Option Bool)
  net_io send_bytes recv_bytes sequence fuel = do
    (s, sent) ← send_packet build (new_session send_bytes recv_bytes) (packet_bytes 8 1 sequence)
    if sent then (do t ← recv build fuel s; receive_packet t) else end_session s false
    where
      end_session : FakeSession → Bool → Outcome (Option Bool)
      end_session s passed = do
        destroy_ring build s.recv_buffer
        destroy_ring build s.send_buffer
        returns (some (passed && not s.has_failure))

      receive_body : FakeSession → Outcome (Option Bool)
      receive_body s = do
        (t, d) ← fetch_recv_buffer build s 8
        if reader_is_valid d
            then (do
              p ← reader_as build d
              let expected = u32_at t.recv_buffer (p + 4) == sequence
              (r, d') ← reader_commit build t.recv_buffer d 0
              (r', d'') ← reader_destroy build r d'
              end_session (record t { recv_buffer = r' }) expected)
            else end_session t false

      receive_packet : Option FakeSession → Outcome (Option Bool)
      receive_packet none = returns none
      receive_packet (some s) = do
        (t, d) ← fetch_recv_buffer build s 4
        if reader_is_valid d
            then (do
              p ← reader_as build d
              (r, d') ← reader_give_up build t.recv_buffer d
              receive_body (record t { recv_buffer = r }))
            else end_session t false
