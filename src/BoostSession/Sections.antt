-- ===== src/BoostSession/Sections.antt =====
-- Send, FlushSendQueue and CompleteSend of BoostSession by their blocks: what stands under
-- `m_sendMutex` is one step, and what stands before or behind it are steps of their own, between which
-- other threads run. `m_sendingBuffers` has no mutex: two threads that use it at once race, which is
-- undefined.
pub mod Linked
pub mod Send
pub mod Flush
pub mod Refine
mod Tests
use tux_base_mmo.Common.{
  ℕ, suc, ◌-◌, ◌<◌, ◌≡◌, ◌≢◌, Bool, true, false, not, none, some, List, [], ◌∷◌, ◌++◌, length,
  is_some, leb, if◌then◌else◌,
}
use tux_base_mmo.Verify.{Build, Outcome, returns, undefined, ◌>>=◌, ◌>>◌, assert}
use tux_base_mmo.BoostSession
use tux_base_mmo.BoostSession.{
  BoostSession, BufferPtr, k_max_send_queue_size, opened_session, gather, close_socket,
}
use tux_base_mmo.BoostSession.Steps.{tag}

-- Where the thread is that uses `m_sendingBuffers`: nowhere, between the swap of FlushSendQueue and its
-- `async_write`, or between the `clear` of CompleteSend and the mutex, with what it cleared and whether
-- the write failed.
pub data Phase : Type 0 where
  resting to_write : Phase
  cleared : List BufferPtr → Bool → Phase

-- The session; the calls of Send that have left their block and not posted what they are to post; and
-- the log of Steps.History.
pub record Sections : Type 0 where
  pub session : BoostSession
  pub to_flush : ℕ
  pub to_close : ℕ
  pub phase : Phase
  pub accepted : List BufferPtr
  pub finished : List (BufferPtr × Bool)

abbrev pub begin : Sections
begin = record {
  session = opened_session;
  to_flush = 0;
  to_close = 0;
  phase = resting;
  accepted = [];
  finished = [];
}

-- `Send` up to the end of its block
abbrev pub send_block : Build → Sections → BufferPtr → Outcome Sections
send_block build f b = do
  assert build (is_some b)
  if leb k_max_send_queue_size (length f.session.send_queue)
      then returns (record f { to_close = suc f.to_close })
      else returns (record f {
        session = record f.session {
          send_queue = f.session.send_queue ++ (b ∷ []);
          is_sending = true;
        };
        to_flush = if not f.session.is_sending then suc f.to_flush else f.to_flush;
        accepted = f.accepted ++ (b ∷ []);
      })

-- `m_sendingBuffers.swap(m_sendQueue)`
abbrev pub swap_buffers : Phase → Sections → List BufferPtr → Outcome Sections
swap_buffers resting f queue = returns (record f {
  session = record f.session { sending_buffers = queue; send_queue = f.session.sending_buffers };
  phase = to_write;
})
swap_buffers _ f queue = undefined

abbrev pub flush_with : Sections → List BufferPtr → Outcome Sections
flush_with f [] = returns (record f { session = record f.session { is_sending = false } })
flush_with f (b ∷ rest) = swap_buffers f.phase f (b ∷ rest)

-- The block of `FlushSendQueue`
abbrev pub flush_block : Sections → Outcome Sections
flush_block f = flush_with f f.session.send_queue

-- `FlushSendQueue` behind its block
abbrev pub start_write_block : Sections → Outcome Sections
start_write_block f = do
  spans ← gather f.session.sending_buffers
  returns (record f { session = record f.session { in_flight = some spans }; phase = resting })

-- `m_sendingBuffers.clear()` of `CompleteSend`
abbrev pub clear_block : Phase → Sections → Bool → Outcome Sections
clear_block resting f failed = returns (record f {
  session = record f.session { sending_buffers = []; in_flight = none };
  phase = cleared f.session.sending_buffers failed;
})
clear_block _ f failed = undefined

-- `CompleteSend` behind it: the block of an error with CloseSocket, or the block of FlushSendQueue
abbrev pub end_block : Sections → List BufferPtr → Bool → Outcome Sections
end_block f old true = returns (record f {
  session = close_socket (record f.session { send_queue = []; is_sending = false });
  phase = resting;
  finished = f.finished ++ tag false (old ++ f.session.send_queue);
})
end_block f old false =
    flush_block (record f { phase = resting; finished = f.finished ++ tag true old })

pub data Event : Type 0 where
  send_locks : BufferPtr → Event
  posts_flush posts_close flush_locks writes : Event
  ends : Bool → Event
  end_locks : List BufferPtr → Bool → Event
  starts runs_receive runs_close : Event

abbrev pub Allowed : Sections → Event → Type 0
Allowed f (send_locks b) = b ≢ none
Allowed f posts_flush = 0 < f.to_flush
Allowed f posts_close = 0 < f.to_close
Allowed f flush_locks = 0 < f.session.posted_flushes
Allowed f writes = f.phase ≡ to_write
Allowed f (ends failed) = f.session.in_flight ≢ none
Allowed f (end_locks old failed) = f.phase ≡ cleared old failed
Allowed f starts = f.session.is_open ≡ true
Allowed f runs_receive = 0 < f.session.posted_receives
Allowed f runs_close = 0 < f.session.posted_closes

unfoldable pub step : Build → Sections → Event → Outcome Sections
step build f (send_locks b) = send_block build f b
step build f posts_flush = returns (record f {
  session = record f.session { posted_flushes = suc f.session.posted_flushes };
  to_flush = f.to_flush - 1;
})
step build f posts_close = returns (record f {
  session = record f.session { posted_closes = suc f.session.posted_closes };
  to_close = f.to_close - 1;
})
step build f flush_locks =
    flush_block
      (record f { session = record f.session { posted_flushes = f.session.posted_flushes - 1 } })
step build f writes = start_write_block f
step build f (ends failed) = clear_block f.phase f failed
step build f (end_locks old failed) = end_block f old failed
step build f starts = do s ← BoostSession.start f.session; returns (record f { session = s })
step build f runs_receive = returns (record f {
  session =
      BoostSession.receive (record f.session { posted_receives = f.session.posted_receives - 1 });
})
step build f runs_close = returns (record f {
  session = close_socket (record f.session { posted_closes = f.session.posted_closes - 1 });
})

pub data Reach (build : Build) : Sections → Type 0 where
  start : Reach build begin
  later :
      {f g : Sections} (e : Event)
      → Reach build f
      → Allowed f e
      → step build f e ≡ returns g
      → Reach build g
