-- ===== src/RingBuffer/Tests.antt =====
-- Runs of the ring on small inputs, and its theorems at them.
use tux_base_mmo.Common.{ℕ, ◌<◌, ◌≡◌, refl, List, [], ◌∷◌, ◌++◌, length, arith, add32, sub32}
use tux_base_mmo.Verify.{debug, release, Outcome, returns, aborts, undefined, Returns}
use tux_base_mmo.RingBuffer.{
  RingBuffer, k_capacity, no_reader, no_writer, new_ring, create_writer, create_reader,
  create_reader_at, jump_at_tail, readable_size, commit_write, commit_read, clear_if_read, clear,
}
use tux_base_mmo.RingBuffer.Invariant.{contents, Inv, new_ring-Inv}
use tux_base_mmo.RingBuffer.Create.{WriterMade, create_writer-Inv}
use tux_base_mmo.RingBuffer.Commit.{Appended, Removed, commit_write-Inv, commit_read-Inv}
use tux_base_mmo.RingBuffer.Handle.{writer_get_ptr, writer_commit, reader_commit}
use tux_base_mmo.RingBuffer.Client.{
  Client, Call, reserve, fill, commit_writer, receive, commit_reader, bytes_at, start, step, Good,
}
use tux_base_mmo.RingBuffer.Fifo.{
  Reach, Reach-Good, begin, later, sent-received, call_returns, shown_first,
}
use tux_base_mmo.RingBuffer.Full.{write_whole, false_full}

abbrev result : Outcome Client → Client → Client
result (returns c) d = c
result aborts d = d
result undefined d = d

-- The client after a call, in a debug build.
after : Client → Call → Client
unfolding step create_writer create_reader create_reader_at jump_at_tail readable_size commit_write
    commit_read clear_if_read clear writer_get_ptr writer_commit reader_commit add32 sub32
after c call = result (step debug c call) c

abbrev fresh : Client
fresh = start 1 (λ i. 0)

abbrev reserved : Client
reserved = after fresh (reserve 3)

abbrev filled : Client
filled = after reserved (fill 0 (7 ∷ 8 ∷ 9 ∷ []))

abbrev committed_3 : Client
committed_3 = after filled (commit_writer 0)

abbrev reading : Client
reading = after committed_3 (receive 2)

abbrev read_2 : Client
read_2 = after reading (commit_reader 2)

read_2-received : (read_2.received ≡ 7 ∷ 8 ∷ []) × (contents read_2.ring ≡ 9 ∷ [])
unfolding after
read_2-received = (refl, refl)

filled-Reach : Reach debug filled
unfolding after
filled-Reach =
    later (fill 0 (7 ∷ 8 ∷ 9 ∷ [])) (later (reserve 3) (begin 1 (λ i. 0)) (refl, omega arith) refl)
      (refl, omega arith) refl

committed_3-Reach : Reach debug committed_3
unfolding after
committed_3-Reach = later (commit_writer 0) filled-Reach (refl, omega arith) refl

reading-Reach : Reach debug reading
unfolding after
reading-Reach = later (receive 2) committed_3-Reach (refl, omega arith) refl

read_2-Reach : Reach debug read_2
unfolding after
read_2-Reach = later (commit_reader 2) reading-Reach (refl, omega arith) refl

sent-received_example : read_2.sent ≡ read_2.received ++ contents read_2.ring
sent-received_example = sent-received read_2-Reach

call_returns_example : (c' : Client) × (step debug reading (commit_reader 1) ≡ returns c') × Good c'
unfolding after
call_returns_example = call_returns (commit_reader 1) reading-Reach (refl, omega arith)

shown_first_example :
    (rest : List ℕ) × (contents reading.ring
      ≡ bytes_at reading.ring reading.reader.ptr reading.reader.size ++ rest)
unfolding after
shown_first_example = shown_first reading-Reach refl

create_writer-Inv_example :
    Returns (create_writer release fresh.ring 5) (WriterMade fresh.ring no_reader 5)
create_writer-Inv_example = create_writer-Inv release 5 (new_ring-Inv 1 (λ i. 0)) refl (omega arith)

commit_write-Inv_example :
    Returns
      (commit_write debug filled.ring filled.writer 2)
      (Appended filled.ring filled.writer filled.reader 2)
unfolding after
commit_write-Inv_example =
    commit_write-Inv debug 2 ((Reach-Good filled-Reach).inv) refl (omega arith)

commit_read-Inv_example :
    Returns
      (commit_read debug reading.ring reading.reader 2)
      (Removed reading.ring reading.writer reading.reader 2)
unfolding after
commit_read-Inv_example =
    commit_read-Inv debug 2 ((Reach-Good reading-Reach).inv) refl (omega arith)

-- An empty ring whose cursors stand at 10000
abbrev drained_ring : RingBuffer
drained_ring = record (new_ring 1 (λ i. 0)) { read_cursor = 10000; write_cursor = 10000 }

drained_ring-Inv : Inv drained_ring no_writer no_reader
drained_ring-Inv = ground arith

false_full_example : Returns (write_whole debug drained_ring 10000) (λ (r, w).
    (length (contents r) ≡ 10000)
    × (10000 < k_capacity)
    × (create_writer debug r 1 ≡ returns (r, no_writer)))
false_full_example = false_full debug 1 drained_ring-Inv refl refl refl (omega arith) (omega arith)
