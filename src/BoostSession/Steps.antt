-- ===== src/BoostSession/Steps.antt =====
-- The histories of a session: calls of Send from any thread, and what Asio does.
use tux_base_mmo.Common.{
  ◌-◌, ◌<◌, ◌≡◌, ◌≢◌, Bool, true, false, none, List, [], ◌∷◌, ◌++◌, map, if◌then◌else◌,
}
use tux_base_mmo.Verify.{Build, Outcome, returns, ◌>>=◌}
use tux_base_mmo.BoostSession
use tux_base_mmo.BoostSession.{
  BoostSession, BufferPtr, opened_session, send, flush_send_queue, complete_send, close_socket,
}

-- `accepted` is what Send took, in the order of the lock; `finished` is what a write ended with, or
-- an error dropped, each with whether it was written without an error.
pub record History : Type 0 where
  pub session : BoostSession
  pub accepted : List BufferPtr
  pub finished : List (BufferPtr × Bool)

pub data Event : Type 0 where
  sends : BufferPtr → Event
  starts runs_receive runs_flush runs_close : Event
  completes : Bool → Event

abbrev pub begin : History
begin = record { session = opened_session; accepted = []; finished = [] }

-- What an event needs: an open socket to start with, a posted handler to run, a write in progress to
-- complete.
abbrev pub Allowed : History → Event → Type 0
Allowed h (sends b) = b ≢ none
Allowed h starts = h.session.is_open ≡ true
Allowed h runs_receive = 0 < h.session.posted_receives
Allowed h runs_flush = 0 < h.session.posted_flushes
Allowed h runs_close = 0 < h.session.posted_closes
Allowed h (completes failed) = h.session.in_flight ≢ none

abbrev pub tag : Bool → List BufferPtr → List (BufferPtr × Bool)
tag written = map (λ b. (b, written))

-- What a completed write, and what it drops from the queue if it failed, add to the log.
abbrev pub completed : BoostSession → Bool → List (BufferPtr × Bool)
completed s true = tag false (s.sending_buffers ++ s.send_queue)
completed s false = tag true s.sending_buffers

unfoldable pub step : Build → History → Event → Outcome History
step build h (sends b) = do
  (s, taken) ← send build h.session b
  returns
      (record h { session = s; accepted = if taken then h.accepted ++ (b ∷ []) else h.accepted })
step build h starts = do s ← BoostSession.start h.session; returns (record h { session = s })
step build h runs_receive = returns (record h {
  session =
      BoostSession.receive (record h.session { posted_receives = h.session.posted_receives - 1 });
})
step build h runs_flush = do
  s ← flush_send_queue (record h.session { posted_flushes = h.session.posted_flushes - 1 })
  returns (record h { session = s })
step build h runs_close = returns (record h {
  session = close_socket (record h.session { posted_closes = h.session.posted_closes - 1 });
})
step build h (completes failed) = do
  s ← complete_send (record h.session { in_flight = none }) failed
  returns (record h { session = s; finished = h.finished ++ completed h.session failed })

pub data Reach (build : Build) : History → Type 0 where
  start : Reach build begin
  later :
      {h h' : History} (e : Event)
      → Reach build h
      → Allowed h e
      → step build h e ≡ returns h'
      → Reach build h'
