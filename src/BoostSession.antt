-- ===== src/BoostSession.antt =====
-- 01_Server/Src/02_ServerEngine/{Include,Source}/Boost/BoostSession: the send path of a session.
-- What Boost.Asio does is the environment's: a posted handler runs at some later time, on any thread,
-- and an `async_write` completes at some later time, with an error or without. Under `m_sendMutex` a
-- call reads and writes the queue and the flag in one step; what it does after the lock is to post, so
-- the step of a call includes it. Receive, CompleteReceive and ProcessRecvPackets have empty bodies in
-- the source (all their lines are comments but `return true`), so nothing arrives in a session.
pub mod Steps
pub mod Invariant
pub mod Flush
pub mod Events
pub mod Delivery
pub mod Sections
mod Tests
use tux_base_mmo.Common.{
  ℕ, suc, ◌+◌, ◌-◌, Bool, true, false, not, Option, none, some, List, [], ◌∷◌, ◌++◌, length,
  is_some, leb, if◌then◌else◌,
}
use tux_base_mmo.Verify.{Build, Outcome, returns, aborts, undefined, ◌>>=◌, ◌>>◌, assert}
use tux_base_mmo.SendBuffer.{SendBuffer, get_span}

-- `kMaxSendQueueSize`
abbrev pub k_max_send_queue_size : ℕ
k_max_send_queue_size = 1024

-- `std::shared_ptr<const SendBuffer>`
abbrev pub BufferPtr : Type 0
BufferPtr = Option SendBuffer

-- The members, and what Asio holds for the session: how many FlushSendQueue, CloseSocket and Receive
-- handlers are posted and have not run, the spans of the `async_write` in progress, and the socket.
pub record BoostSession : Type 0 where
  pub send_queue : List BufferPtr
  pub is_sending : Bool
  pub sending_buffers : List BufferPtr
  pub posted_flushes : ℕ
  pub posted_closes : ℕ
  pub posted_receives : ℕ
  pub in_flight : Option (List (List ℕ))
  pub is_open : Bool

-- The members as their initialisers leave them; the identifier is the base class's (Session).
abbrev pub initial_members : BoostSession
initial_members = record {
  send_queue = [];
  is_sending = false;
  sending_buffers = [];
  posted_flushes = 0;
  posted_closes = 0;
  posted_receives = 0;
  in_flight = none;
  is_open = false;
}

-- `BoostSession::BoostSession`, with whether `netEngine` is not null
unfoldable pub new_session : Build → Bool → Outcome BoostSession
new_session build has_engine = do assert build has_engine; returns initial_members

-- A new session whose socket Asio has opened for a connection: histories begin with it.
abbrev pub opened_session : BoostSession
opened_session = record initial_members { is_open = true }

-- `BoostSession::Start`; the options are left out. On a closed socket `set_option` throws, and nothing
-- catches it.
unfoldable pub start : BoostSession → Outcome BoostSession
start s =
    if s.is_open then returns (record s { posted_receives = suc s.posted_receives }) else aborts

-- `BoostSession::Receive`
abbrev pub receive : BoostSession → BoostSession
receive s = s

-- `BoostSession::ProcessRecvPackets`
abbrev pub process_recv_packets : BoostSession → BoostSession × Bool
process_recv_packets s = (s, true)

-- `BoostSession::CompleteReceive`, with whether `errorCode` is set and the size received
abbrev pub complete_receive : BoostSession → Bool → ℕ → BoostSession
complete_receive s failed recv_size = s

-- `BoostSession::CloseSocket`
abbrev pub close_socket : BoostSession → BoostSession
close_socket s = record s { is_open = false }

-- The locked part of `BoostSession::Send` past the limit, and the post of CloseSocket after it.
abbrev pub send_over : BoostSession → BoostSession
send_over s = record s { posted_closes = suc s.posted_closes }

-- The locked part of `BoostSession::Send` below the limit, and the post of FlushSendQueue after it.
abbrev pub send_under : BoostSession → BufferPtr → BoostSession
send_under s b = record s {
  send_queue = s.send_queue ++ (b ∷ []);
  is_sending = true;
  posted_flushes = if not s.is_sending then suc s.posted_flushes else s.posted_flushes;
}

-- `BoostSession::Send`
unfoldable pub send : Build → BoostSession → BufferPtr → Outcome (BoostSession × Bool)
send build s b = do
  assert build (is_some b)
  if leb k_max_send_queue_size (length s.send_queue)
      then returns (send_over s, false)
      else returns (send_under s b, true)

-- The spans that FlushSendQueue gathers: a null pointer is dereferenced.
abbrev pub gather : List BufferPtr → Outcome (List (List ℕ))
gather [] = returns []
gather (none ∷ rest) = undefined
gather (some b ∷ rest) = gather rest >>= λ spans. returns (get_span b ∷ spans)

-- FlushSendQueue after `m_sendingBuffers.swap(m_sendQueue)`
abbrev pub start_write : BoostSession → Outcome BoostSession
start_write s = gather s.sending_buffers >>= λ spans. returns (record s { in_flight = some spans })

abbrev pub flush_queue : BoostSession → List BufferPtr → Outcome BoostSession
flush_queue s [] = returns (record s { is_sending = false })
flush_queue s (b ∷ rest) =
    start_write (record s { sending_buffers = b ∷ rest; send_queue = s.sending_buffers })

-- `BoostSession::FlushSendQueue`
unfoldable pub flush_send_queue : BoostSession → Outcome BoostSession
flush_send_queue s = flush_queue s s.send_queue

-- `BoostSession::CompleteSend`; the argument says whether `errorCode` is set.
unfoldable pub complete_send : BoostSession → Bool → Outcome BoostSession
unfolding flush_send_queue
complete_send s true =
    returns (close_socket (record s { sending_buffers = []; send_queue = []; is_sending = false }))
complete_send s false = flush_send_queue (record s { sending_buffers = [] })
