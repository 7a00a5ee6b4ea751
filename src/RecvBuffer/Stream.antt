-- ===== src/RecvBuffer/Stream.antt =====
-- A receive loop over a RecvBuffer: the socket writes into the writable span, the parser consumes
-- whole packets, and Compact makes room.
use tux_base_mmo.Common.{
  ℕ, ◌-◌, ◌*◌, ◌≤◌, ◌<◌, ◌≡◌, sym, ap, ap₂, inl, ◌∙◌, List, [], ◌++◌, append_assoc, arith, length,
  slice, store, slice-store_apart, slice-store_self, u32_mod,
}
use tux_base_mmo.Verify.{
  Build, Outcome, returns, ◌>>=◌, Returns, Returns-bind, Returns-map, Returns-at, Returns-result,
}
use tux_base_mmo.RecvBuffer.{
  RecvBuffer, get_writable_span, get_readable_span, new_recv_buffer, commit_write, consume, compact,
}
use tux_base_mmo.RecvBuffer.Invariant.{
  Appended, Removed, IsValid, contents, new_recv_buffer-IsValid, readable_exact, writable_exact,
  commit_write-IsValid, consume-IsValid, compact_lem,
}

-- `arrived` is all that the socket ever wrote, `consumed` all that was consumed.
pub record Stream : Type 0 where
  pub recv : RecvBuffer
  pub arrived : List ℕ
  pub consumed : List ℕ

pub data Event : Type 0 where
  arrive : List ℕ → Event
  take_front : ℕ → Event
  compacts : Event

-- The socket copies what arrived to the writable span, as `async_read_some` does.
abbrev pub read_some : RecvBuffer → List ℕ → RecvBuffer
read_some b bytes = record b { buffer = store b.buffer (get_writable_span b).offset bytes }

module _ (build : Build) where
  unfoldable pub step : Stream → Event → Outcome Stream
  step s (arrive bytes) = do
    b ← commit_write build (read_some s.recv bytes) (length bytes)
    returns (record s { recv = b; arrived = s.arrived ++ bytes })
  step s (take_front n) = do
    b ← consume build s.recv n
    returns (record s {
      recv = b;
      consumed = s.consumed ++ slice s.recv.buffer (get_readable_span s.recv).offset n;
    })
  step s compacts = returns (record s { recv = compact s.recv })

-- Bytes arrive into the writable span, and no more is consumed than is readable.
abbrev pub Allowed : Stream → Event → Type 0
Allowed s (arrive bytes) = length bytes ≤ (get_writable_span s.recv).size
Allowed s (take_front n) = n ≤ (get_readable_span s.recv).size
Allowed s compacts = Unit {0}

pub record Good (s : Stream) : Type 0 where
  pub valid : IsValid s.recv
  pub in_order : s.arrived ≡ s.consumed ++ contents s.recv

abbrev Committed : Stream → List ℕ → RecvBuffer → Type 0
Committed s bytes b = IsValid b × (contents b ≡ contents s.recv ++ bytes)

arrive-Committed :
    (build : Build) (s : Stream) (bytes : List ℕ)
    → IsValid s.recv
    → length bytes ≤ s.recv.capacity - s.recv.write_pos
    → Returns (commit_write build (read_some s.recv bytes) (length bytes)) (Committed s bytes)
unfolding get_writable_span
arrive-Committed build s bytes v fits =
    Returns-map (Appended (read_some s.recv bytes) (length bytes)) (Committed s bytes)
      (λ b h. (h.0, h.1 ∙ same)) _ (commit_write-IsValid filled build (length bytes) fits)
  where
    open s.recv use {buffer, read_pos, write_pos}

    filled : IsValid (read_some s.recv bytes)
    filled = ground (arith, v)

    same :
        contents (read_some s.recv bytes)
          ++ slice (store buffer write_pos bytes) write_pos (length bytes)
        ≡ contents s.recv ++ bytes
    same =
        ap₂ ◌++◌
          (slice-store_apart buffer write_pos bytes read_pos (write_pos - read_pos)
            (inl (omega arith)))
          (slice-store_self buffer write_pos bytes)

-- An event that is allowed fires no assertion and keeps the order of bytes.
pub step-Good :
    (build : Build) {s : Stream} (e : Event) → Allowed s e → Good s → Returns (step build s e) Good
unfolding step get_writable_span get_readable_span
step-Good build {s} (arrive bytes) a g =
    Returns-bind (Committed s bytes) Good _
      (λ b h. record {
        valid = h.0;
        in_order = rw (h.1, g.in_order) (append_assoc (s.consumed) (contents s.recv) bytes);
      })
      _ (arrive-Committed build s bytes (g.valid) (rw (← writable_exact (g.valid)) a))
step-Good build {s} (take_front n) a g =
    Returns-bind (Removed s.recv n) Good _
      (λ b h. record {
        valid = h.0;
        in_order =
            g.in_order
            ∙ ap (◌++◌ s.consumed) (sym (h.1))
            ∙ sym (append_assoc (s.consumed) (slice s.recv.buffer s.recv.read_pos n) (contents b));
      })
      _ (consume-IsValid (g.valid) build n (rw (← readable_exact (g.valid)) a))
step-Good build {s} compacts a g = record {
  valid = (compact_lem (g.valid)).0;
  in_order = rw ((compact_lem (g.valid)).1) (g.in_order);
}

-- The streams that a history of allowed events leads to, from a new buffer.
pub data Reach (build : Build) : Stream → Type 0 where
  begin :
      {b : RecvBuffer} (capacity min_writable_size : ℕ)
      → capacity < u32_mod
      → 0 < min_writable_size
      → 2 * min_writable_size ≤ capacity
      → new_recv_buffer build capacity min_writable_size ≡ returns b
      → Reach build (record { recv = b; arrived = []; consumed = [] })
  later :
      {s s' : Stream} (e : Event)
      → Reach build s
      → Allowed s e
      → step build s e ≡ returns s'
      → Reach build s'

pub Reach-Good : {build : Build} {s : Stream} → Reach build s → Good s
Reach-Good {build} (begin {b} capacity m small pos half e) =
    let made =
      Returns-at (λ b. IsValid b × (contents b ≡ [])) e
        (new_recv_buffer-IsValid build capacity m small pos half) in
    record { valid = made.0; in_order = sym (made.1) }
Reach-Good {build} (later {s} e r a eq) = Returns-at Good eq (step-Good build e a (Reach-Good r))

-- From a new buffer, whatever the pieces in which bytes arrive and are consumed within the two
-- spans, and wherever Compact runs: all that arrived is what was consumed, in order, with the bytes
-- that the buffer still holds behind it, and these stand in one run at the readable span.
pub arrived-consumed :
    {build : Build} {s : Stream}
    → Reach build s
    → s.arrived
      ≡ s.consumed
        ++ slice s.recv.buffer (get_readable_span s.recv).offset (get_readable_span s.recv).size
unfolding get_readable_span
arrived-consumed r = rw (readable_exact ((Reach-Good r).valid)) ((Reach-Good r).in_order)

-- After any history of allowed events from a new buffer, in either build, an allowed event returns: no
-- assertion fires, and the buffer stays valid.
pub event_returns :
    {build : Build} {s : Stream} (e : Event)
    → Reach build s
    → Allowed s e
    → (s' : Stream) × (step build s e ≡ returns s') × Good s'
event_returns {build} {s} e r a =
    Returns-result Good (step build s e) (step-Good build e a (Reach-Good r))
