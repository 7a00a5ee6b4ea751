-- ===== src/RingBuffer/Fifo.antt =====
-- Every history of a client's calls: the bytes come out in the order in which they were committed.
use tux_base_mmo.Common.{ℕ, ◌≡◌, refl, sym, true, List, ◌++◌, arith, slice}
use tux_base_mmo.Verify.{Build, returns, Returns-at, Returns-result}
use tux_base_mmo.RingBuffer.Invariant.{contents, new_ring-Inv}
use tux_base_mmo.RingBuffer.Commit.{Removed, read_past, commit_read_lem, commit_read-Inv}
use tux_base_mmo.RingBuffer.Client.{Client, Call, bytes_at, start, step, Allowed, Good}
use tux_base_mmo.RingBuffer.Client.Steps.{step-Good}

start-Good : (address : ℕ) (bytes : ℕ → ℕ) → Good (start address bytes)
start-Good address bytes = record { inv = new_ring-Inv address bytes; fifo = refl }

-- The clients that a history of allowed calls leads to.
pub data Reach (build : Build) : Client → Type 0 where
  begin : (address : ℕ) (bytes : ℕ → ℕ) → Reach build (start address bytes)
  later :
      {c c' : Client} (call : Call)
      → Reach build c
      → Allowed c call
      → step build c call ≡ returns c'
      → Reach build c'

pub Reach-Good : {build : Build} {c : Client} → Reach build c → Good c
Reach-Good (begin address bytes) = start-Good address bytes
Reach-Good {build} (later {c} call r a e) =
    Returns-at Good e (step-Good build call a (Reach-Good r))

-- After any history of allowed calls of a client from a new ring, in either build: all that was
-- committed by writers is what readers committed, in order, with the bytes that the ring still holds
-- behind it. No byte is lost, doubled or out of place.
pub sent-received :
    {build : Build} {c : Client} → Reach build c → c.sent ≡ c.received ++ contents c.ring
sent-received r = (Reach-Good r).fifo

-- After any history of allowed calls from a new ring, in either build, an allowed call returns: no
-- assertion fires, no pointer dangles, and the state that it leaves is valid.
pub call_returns :
    {build : Build} {c : Client} (call : Call)
    → Reach build c
    → Allowed c call
    → (c' : Client) × (step build c call ≡ returns c') × Good c'
call_returns {build} {c} call r a =
    Returns-result Good (step build c call) (step-Good build call a (Reach-Good r))

-- After any history of allowed calls from a new ring, while a reader is active, the bytes at its
-- pointer are the front of what the ring holds.
pub shown_first :
    {build : Build} {c : Client}
    → Reach build c
    → c.ring.is_active_reader ≡ true
    → (rest : List ℕ) × (contents c.ring ≡ bytes_at c.ring c.reader.ptr c.reader.size ++ rest)
shown_first {build} {c} r held = (contents (read_past c.ring c.reader.size), sym (rw shown removed))
  where
    good : Good c
    good = Reach-Good r

    shown :
        bytes_at c.ring c.reader.ptr c.reader.size
        ≡ slice c.ring.buffer c.ring.read_cursor c.reader.size
    shown = ground (arith, good.inv.reader)

    removed :
        slice c.ring.buffer c.ring.read_cursor c.reader.size
          ++ contents (read_past c.ring c.reader.size)
        ≡ contents c.ring
    removed =
        (Returns-at (Removed c.ring c.writer c.reader 0)
          (commit_read_lem build 0 (good.inv) held (omega arith))
          (commit_read-Inv build 0 (good.inv) held (omega arith))).1
