-- ===== src/RingBuffer/Client.antt =====
-- A client of the ring: it holds one handle to write and one to read, and calls their methods and
-- those of the ring in any order that the assertions allow.
pub mod Handles
pub mod Steps
use tux_base_mmo.Common.{
  ℕ, ◌+◌, ◌≤◌, ◌<◌, ◌≡◌, refl, sym, ap, ◌∙◌, true, false, inl, inr, Bool-cases, if◌then◌else◌, ◌-◌,
  Option, none, some, List, [], ◌++◌, append-nil, append_assoc, length, arith, slice, store,
  slice-store_apart, slice-store_self,
}
use tux_base_mmo.Verify.{
  Build, debug, release, Outcome, returns, undefined, ◌>>=◌, Returns, Returns-map, Returns-bind,
  Returns-at, Returns-result,
}
use tux_base_mmo.RingBuffer
use tux_base_mmo.RingBuffer.{
  RingBuffer, RingBufferReader, RingBufferWriter, k_capacity, new_ring, no_reader, no_writer,
  reader_is_valid, writer_is_valid, create_writer, create_all_writer, create_reader,
  create_all_reader, commit_write, commit_read,
}
use tux_base_mmo.RingBuffer.Invariant.{contents, CursorsOk, WriterOk, ReaderOk, Inv, new_ring-Inv}
use tux_base_mmo.RingBuffer.Create.{
  Kept, WriterMade, AllWriterMade, ReaderMade, create_writer-Inv, create_all_writer-Inv,
  create_reader-Inv, create_all_reader-Inv,
}
use tux_base_mmo.RingBuffer.Commit.{
  Appended, Removed, read_past, committed, commit_write_lem, commit_read_lem, give_up_writer-Inv,
  give_up_reader-Inv, commit_write-Inv, commit_read-Inv,
}
use tux_base_mmo.RingBuffer.Handle.{
  through, writer_get_ptr, writer_commit, writer_give_up, writer_destroy, reader_commit,
  reader_give_up, reader_destroy,
}

-- `sent` is all that was ever committed by a writer, `received` all that was committed by a reader.
pub record Client : Type 0 where
  pub ring : RingBuffer
  pub writer : RingBufferWriter
  pub reader : RingBufferReader
  pub sent : List ℕ
  pub received : List ℕ

pub data Call : Type 0 where
  reserve : ℕ → Call
  reserve_all : Call
  fill : ℕ → List ℕ → Call
  commit_writer : ℕ → Call
  give_up_writer destroy_writer : Call
  receive : ℕ → Call
  receive_all : Call
  commit_reader : ℕ → Call
  give_up_reader destroy_reader : Call

-- The bytes that stand from a pointer on.
abbrev pub bytes_at : RingBuffer → Option ℕ → ℕ → List ℕ
bytes_at r none n = []
bytes_at r (some p) n = slice r.buffer p n

abbrev pub start : ℕ → (ℕ → ℕ) → Client
start address bytes = record {
  ring = new_ring address bytes;
  writer = no_writer;
  reader = no_reader;
  sent = [];
  received = [];
}

-- What a commit of a handle moves over.
abbrev pub sent_by : RingBuffer → RingBufferWriter → ℕ → List ℕ
sent_by r w n = if writer_is_valid w then bytes_at r w.ptr (committed w.size n) else []

abbrev pub received_by : RingBuffer → RingBufferReader → ℕ → List ℕ
received_by r d n = if reader_is_valid d then bytes_at r d.ptr (committed d.size n) else []

-- `std::memcpy(ptr, bytes, size)` by the client
abbrev pub copy_to : RingBuffer → Option ℕ → List ℕ → Outcome RingBuffer
copy_to r none bytes = undefined
copy_to r (some p) bytes = returns (record r { buffer = store r.buffer p bytes })

module _ (build : Build) where
  -- One call. A handle that a call makes takes the place of the client's last one.
  unfoldable pub step : Client → Call → Outcome Client
  step c (reserve n) = do
    (r, w) ← create_writer build c.ring n
    returns (record c { ring = r; writer = w })
  step c reserve_all = do
    (r, w) ← create_all_writer build c.ring
    returns (record c { ring = r; writer = w })
  step c (fill offset bytes) = do
    p ← writer_get_ptr build c.writer offset
    r ← copy_to c.ring p bytes
    returns (record c { ring = r })
  step c (commit_writer n) = do
    (r, w) ← writer_commit build c.ring c.writer n
    returns (record c { ring = r; writer = w; sent = c.sent ++ sent_by c.ring c.writer n })
  step c give_up_writer = do
    (r, w) ← writer_give_up build c.ring c.writer
    returns (record c { ring = r; writer = w })
  step c destroy_writer = do
    (r, w) ← writer_destroy build c.ring c.writer
    returns (record c { ring = r; writer = w; sent = c.sent ++ sent_by c.ring c.writer 0 })
  step c (receive n) = do
    (r, d) ← create_reader build c.ring n
    returns (record c { ring = r; reader = d })
  step c receive_all = do
    (r, d) ← create_all_reader build c.ring
    returns (record c { ring = r; reader = d })
  step c (commit_reader n) = do
    (r, d) ← reader_commit build c.ring c.reader n
    returns
        (record c { ring = r; reader = d; received = c.received ++ received_by c.ring c.reader n })
  step c give_up_reader = do
    (r, d) ← reader_give_up build c.ring c.reader
    returns (record c { ring = r; reader = d })
  step c destroy_reader = do
    (r, d) ← reader_destroy build c.ring c.reader
    returns
        (record c { ring = r; reader = d; received = c.received ++ received_by c.ring c.reader 0 })

-- What each call asks of its caller; a handle may be destroyed in any state.
abbrev pub Allowed : Client → Call → Type 0
Allowed c (reserve n) = (c.ring.is_active_writer ≡ false) × (0 < n)
Allowed c reserve_all = c.ring.is_active_writer ≡ false
Allowed c (fill offset bytes) =
    (c.ring.is_active_writer ≡ true) × (offset + length bytes ≤ c.writer.size)
Allowed c (commit_writer n) = (c.ring.is_active_writer ≡ true) × (n ≤ c.writer.size)
Allowed c give_up_writer = c.ring.is_active_writer ≡ true
Allowed c destroy_writer = Unit {0}
Allowed c (receive n) = (c.ring.is_active_reader ≡ false) × (0 < n)
Allowed c receive_all = c.ring.is_active_reader ≡ false
Allowed c (commit_reader n) = (c.ring.is_active_reader ≡ true) × (n ≤ c.reader.size)
Allowed c give_up_reader = c.ring.is_active_reader ≡ true
Allowed c destroy_reader = Unit {0}

pub record Good (c : Client) : Type 0 where
  pub inv : Inv c.ring c.writer c.reader
  pub fifo : c.sent ≡ c.received ++ contents c.ring
