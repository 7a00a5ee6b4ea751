-- ===== src/RingBuffer/Client/Steps.antt =====
-- Each allowed call of a client keeps the invariant and the order of the bytes.
use tux_base_mmo.Common.{
  ℕ, ◌+◌, ◌≤◌, ◌≡◌, sym, ap, ◌∙◌, true, inl, inr, Bool-cases, List, ◌++◌, append-nil, append_assoc,
  length, arith, slice, store,
}
use tux_base_mmo.Verify.{Build, Returns, Returns-map, Returns-bind}
use tux_base_mmo.RingBuffer.{
  RingBuffer, RingBufferReader, RingBufferWriter, k_capacity, reader_is_valid, writer_is_valid,
}
use tux_base_mmo.RingBuffer.Invariant.{contents, Inv}
use tux_base_mmo.RingBuffer.Create.{
  Kept, WriterMade, AllWriterMade, ReaderMade, create_writer-Inv, create_all_writer-Inv,
  create_reader-Inv, create_all_reader-Inv,
}
use tux_base_mmo.RingBuffer.Commit.{
  Appended, Removed, committed, give_up_writer-Inv, give_up_reader-Inv, commit_write-Inv,
  commit_read-Inv,
}
use tux_base_mmo.RingBuffer.Handle.{writer_commit, reader_commit}
use tux_base_mmo.RingBuffer.Client.{
  Client, Call, reserve, reserve_all, fill, commit_writer, give_up_writer, destroy_writer, receive,
  receive_all, commit_reader, give_up_reader, destroy_reader, sent_by, received_by, step, Allowed,
  Good,
}
use tux_base_mmo.RingBuffer.Client.Handles.{
  writer_destroy_valid, writer_destroy_invalid, reader_destroy_invalid, sent_by_invalid,
  received_by_invalid, writer_commit_passes, reader_commit_passes, writer_get_ptr_lem,
  reader_destroy_valid, writer_give_up_passes, reader_give_up_passes, contents_fill,
}

-- What one commit adds to either log.
abbrev Wrote : Client → ℕ → RingBuffer × RingBufferWriter → Type 0
Wrote c n (r, w) =
    Good (record c { ring = r; writer = w; sent = c.sent ++ sent_by c.ring c.writer n })

abbrev Read : Client → ℕ → RingBuffer × RingBufferReader → Type 0
Read c n (r, d) =
    Good (record c { ring = r; reader = d; received = c.received ++ received_by c.ring c.reader n })

module _ (build : Build) {c : Client} (g : Good c) where
  keep_writer :
      (p : RingBuffer × RingBufferWriter)
      → Inv p.0 p.1 c.reader × Kept c.ring p.0
      → Good (record c { ring = p.0; writer = p.1 })
  keep_writer p (v, k) = record { inv = v; fifo = rw (k.same_contents) (g.fifo) }

  keep_reader :
      (p : RingBuffer × RingBufferReader)
      → Inv p.0 c.writer p.1 × Kept c.ring p.0
      → Good (record c { ring = p.0; reader = p.1 })
  keep_reader p (v, k) = record { inv = v; fifo = rw (k.same_contents) (g.fifo) }

  wrote :
      (n : ℕ) (p : RingBuffer × RingBufferWriter)
      → c.ring.is_active_writer ≡ true
      → Appended c.ring c.writer c.reader n p
      → Wrote c n p
  wrote n p held h = record {
    inv = h.0;
    fifo = rw (g.fifo, sent_bytes, append_assoc) (ap (◌++◌ c.received) (sym (h.1)));
  }
    where
      sent_bytes :
          sent_by c.ring c.writer n
          ≡ slice c.ring.buffer c.ring.write_cursor (committed c.writer.size n)
      sent_bytes = ground (arith, g.inv.writer)

  read :
      (n : ℕ) (p : RingBuffer × RingBufferReader)
      → c.ring.is_active_reader ≡ true
      → Removed c.ring c.writer c.reader n p
      → Read c n p
  read n p held h = record {
    inv = h.0;
    fifo =
        g.fifo
        ∙ ap (◌++◌ c.received) (sym (h.1))
        ∙ sym (
            append_assoc c.received
              (slice c.ring.buffer c.ring.read_cursor (committed c.reader.size n)) (contents p.0))
        ∙ ap (λ b. (c.received ++ b) ++ contents p.0) (sym received_bytes);
  }
    where
      received_bytes :
          received_by c.ring c.reader n
          ≡ slice c.ring.buffer c.ring.read_cursor (committed c.reader.size n)
      received_bytes = ground (arith, g.inv.reader)

  commit_writer-Good :
      (n : ℕ)
      → c.ring.is_active_writer ≡ true
      → n ≤ c.writer.size
      → Returns (writer_commit build c.ring c.writer n) (Wrote c n)
  commit_writer-Good n held fits = rw (writer_commit_passes build n (g.inv) held fits) (
      Returns-map _ (Wrote c n) (λ p. wrote n p held) _
        (commit_write-Inv build n (g.inv) held fits))

  commit_reader-Good :
      (n : ℕ)
      → c.ring.is_active_reader ≡ true
      → n ≤ c.reader.size
      → Returns (reader_commit build c.ring c.reader n) (Read c n)
  commit_reader-Good n held fits =
      rw (reader_commit_passes build n (g.inv) held fits) (
        Returns-map _ (Read c n) (λ p. read n p held) _ (commit_read-Inv build n (g.inv) held fits))

  fill-Good :
      (offset : ℕ) (bytes : List ℕ)
      → c.ring.is_active_writer ≡ true
      → offset + length bytes ≤ c.writer.size
      → Returns (step build c (fill offset bytes)) Good
  unfolding step
  fill-Good offset bytes held fits =
      rw (writer_get_ptr_lem build offset (g.inv) held (omega arith))
        (record { inv = filled; fifo = rw same (g.fifo) })
    where
      p : ℕ
      p = c.ring.write_cursor + offset

      filled : Inv (record c.ring { buffer = store c.ring.buffer p bytes }) c.writer c.reader
      filled = ground (arith, g.inv)

      same : contents (record c.ring { buffer = store c.ring.buffer p bytes }) ≡ contents c.ring
      same = contents_fill p bytes (g.inv) held (omega arith) (omega arith)

  give_up_writer-Good : c.ring.is_active_writer ≡ true → Returns (step build c give_up_writer) Good
  unfolding step
  give_up_writer-Good held =
      rw (writer_give_up_passes build (g.inv) held)
        (Returns-bind _ Good _ (λ p h. keep_writer p h) _ (give_up_writer-Inv build (g.inv) held))

  give_up_reader-Good : c.ring.is_active_reader ≡ true → Returns (step build c give_up_reader) Good
  unfolding step
  give_up_reader-Good held =
      rw (reader_give_up_passes build (g.inv) held)
        (Returns-bind _ Good _ (λ p h. keep_reader p h) _ (give_up_reader-Inv build (g.inv) held))

  destroy_writer-Good : Returns (step build c destroy_writer) Good
  unfolding step
  destroy_writer-Good = elim (Bool-cases (writer_is_valid c.writer)) [
    | inl e ↦ rw (writer_destroy_valid build c.ring c.writer e) (
        Returns-bind (Wrote c 0) Good _ (λ p h. h) (writer_commit build c.ring c.writer 0)
          (commit_writer-Good 0 (sym (g.inv.writer.held) ∙ e) (omega arith)))
    | inr e ↦ rw (writer_destroy_invalid build c.ring c.writer e) (record {
      inv = g.inv;
      fifo = rw (sent_by_invalid c.ring c.writer 0 e, append-nil) (g.fifo);
    })
  ]

  destroy_reader-Good : Returns (step build c destroy_reader) Good
  unfolding step
  destroy_reader-Good = elim (Bool-cases (reader_is_valid c.reader)) [
    | inl e ↦ rw (reader_destroy_valid build (g.inv) e) (
        Returns-bind (Read c 0) Good _ (λ p h. h) (reader_commit build c.ring c.reader 0)
          (commit_reader-Good 0 (sym (g.inv.reader.held) ∙ e) (omega arith)))
    | inr e ↦ rw (reader_destroy_invalid build c.ring c.reader e) (record {
      inv = g.inv;
      fifo = rw (received_by_invalid c.ring c.reader 0 e, append-nil) (g.fifo);
    })
  ]

-- A call that its caller may make fires no assertion, and keeps the invariant and the order of bytes.
pub step-Good :
    (build : Build) {c : Client} (call : Call)
    → Allowed c call
    → Good c
    → Returns (step build c call) Good
unfolding step
step-Good build {c} (reserve n) a g =
    Returns-bind (WriterMade c.ring c.reader n) Good _ (λ p h. keep_writer build g p (h.0, h.1)) _
      (create_writer-Inv build n (g.inv) (a.0) (a.1))
step-Good build {c} reserve_all a g =
    Returns-bind (AllWriterMade c.ring c.reader) Good _ (λ p h. keep_writer build g p (h.0, h.1)) _
      (create_all_writer-Inv build (g.inv) a)
step-Good build (fill offset bytes) a g = fill-Good build g offset bytes (a.0) (a.1)
step-Good build {c} (commit_writer n) a g =
    Returns-bind (Wrote c n) Good _ (λ p h. h) _ (commit_writer-Good build g n (a.0) (a.1))
step-Good build give_up_writer a g = give_up_writer-Good build g a
step-Good build destroy_writer a g = destroy_writer-Good build g
step-Good build {c} (receive n) a g =
    Returns-bind (ReaderMade c.ring c.writer n) Good _ (λ p h. keep_reader build g p (h.0, h.1)) _
      (create_reader-Inv build n (g.inv) (a.0) (a.1))
step-Good build {c} receive_all a g =
    Returns-bind (ReaderMade c.ring c.writer k_capacity) Good _
      (λ p h. keep_reader build g p (h.0, h.1)) _ (create_all_reader-Inv build (g.inv) a)
step-Good build {c} (commit_reader n) a g =
    Returns-bind (Read c n) Good _ (λ p h. h) _ (commit_reader-Good build g n (a.0) (a.1))
step-Good build give_up_reader a g = give_up_reader-Good build g a
step-Good build destroy_reader a g = destroy_reader-Good build g
