-- ===== src/BoostAcceptor.antt =====
-- 01_Server/Src/02_ServerEngine/{Include,Source}/Boost/BoostAcceptor, and the server engine of
-- BoostNetEngine that owns it. What Boost.Asio does is the environment's: an `async_accept` and the
-- wait on the timer complete at some later time, with an error or without, while the io_context
-- runs. A handler and Start are one step each; Stop is two, since handlers may run between its exchange of
-- `m_isRun` and its events.
pub mod Steps
pub mod Sessions
pub mod Accepted
pub mod Stop
pub mod Frame
pub mod Engine
pub mod Pending
mod Tests
use tux_base_mmo.Common.{
  ℕ, suc, Bool, true, false, not, Option, none, some, List, [], ◌∷◌, ◌++◌, if◌then◌else◌, replicate,
  ◌≡◌, refl,
}
use tux_base_mmo.Verify.{Build, Outcome, returns, undefined, ◌>>=◌}
use tux_base_mmo.Delegate.{invoke}
use tux_base_mmo.NetEngine
use tux_base_mmo.NetEngine.{
  NetEngine, new_net_engine, add_start_event, add_stop_event, join_threads, take_session,
  release_session,
}

-- What is subscribed to the engine: `BoostNetEngineServer::StartEngineEvent`,
-- `BoostNetEngine::StopEngineEvent` and `BoostNetEngineServer::StopEngineEvent`.
pub data EngineEvent : Type 0 where
  start_server stop_context stop_server : EngineEvent

-- The engine, and what Asio holds for the acceptor: whether it listens, the sessions whose
-- `async_accept` has not completed, how many waits on the retry timer have not, and whether the
-- io_context is stopped. `is_stopping` says whether a Stop has cleared `m_isRun` and not yet called its
-- events. `lost` are the sessions that nothing holds any more.
pub record Server {ℓ} (Session : Type ℓ) : Type ℓ where
  pub engine : NetEngine Session EngineEvent
  pub is_listening : Bool
  pub accepting : List Session
  pub waiting : ℕ
  pub is_stopped : Bool
  pub is_stopping : Bool
  pub lost : List Session

-- An error of an asynchronous operation: `operation_aborted`, or another.
pub data ErrorCode : Type 0 where
  success operation_aborted other_error : ErrorCode

-- `shared_from_this()` in the initialiser of the base class: no base has been made yet, so the call is
-- undefined; where it happens to find no owner it throws bad_weak_ptr.
abbrev pub shared_from_this {ℓ} : {Self : Type ℓ} → Outcome Self
shared_from_this = undefined

module _ {ℓ} {Session : Type ℓ} where
  -- `BoostAcceptor::RetryAcception`, up to the wait
  abbrev pub retry_acception : Server Session → Server Session
  retry_acception s = record s { waiting = suc s.waiting }

  -- `BoostAcceptor::AcceptSession` with what TakeBoostSession gives
  abbrev pub accept_with :
      Server Session → NetEngine Session EngineEvent × Option Session → Server Session
  accept_with s (engine, none) = retry_acception (record s { engine = engine })
  accept_with s (engine, some session) = record s {
    engine = engine;
    accepting = s.accepting ++ (session ∷ []);
  }

  -- `BoostAcceptor::AcceptSession`
  unfoldable pub accept_session : Server Session → Server Session
  accept_session s = if not s.engine.is_run then s else accept_with s (take_session s.engine)

  -- `m_netEngine.ReleaseSession(std::move(session))`
  abbrev pub give_back : Server Session → Session → Server Session
  give_back s session = record s { engine = release_session s.engine session }

  -- `BoostAcceptor::CompleteAcception`. After a success nothing holds the session: its Start is a
  -- comment.
  unfoldable pub complete_acception : Server Session → Session → ErrorCode → Server Session
  unfolding accept_session
  complete_acception s session success =
      if not s.engine.is_run
      then give_back s session
      else accept_session (record s { lost = session ∷ s.lost })
  complete_acception s session operation_aborted = give_back s session
  complete_acception s session other_error =
      if not s.engine.is_run then give_back s session else accept_session (give_back s session)

  -- The handler of the wait in `BoostAcceptor::RetryAcception`; the argument says whether
  -- `errorCode` is set.
  unfoldable pub complete_wait : Server Session → Bool → Server Session
  unfolding accept_session
  complete_wait s true = s
  complete_wait s false = accept_session s

  -- `BoostAcceptor::StartListening`
  unfoldable pub start_listening : Server Session → Server Session
  unfolding accept_session
  start_listening s = accept_session (record s { is_listening = true })

  -- `BoostAcceptor::StopListening`; what it cancels completes with an error.
  abbrev pub stop_listening : Server Session → Server Session
  stop_listening s = record s { is_listening = false }

  -- What the events do.
  unfoldable pub run_event : EngineEvent → Unit {0} → Server Session → Outcome (Server Session)
  unfolding start_listening
  run_event start_server _ s = returns (start_listening s)
  run_event stop_context _ s = returns (record s { is_stopped = true })
  run_event stop_server _ s = returns (stop_listening s)

  -- `BoostNetEngine::BoostNetEngine`. `make` is the factory that the pointer goes to.
  unfoldable pub new_boost_net_engine :
      {Self : Type ℓ}
      → (make : Self → ℕ → Option Session) → Build
      → ℕ
      → ℕ
      → Outcome (NetEngine Session EngineEvent)
  new_boost_net_engine make build io_thread_count session_count = do
    self ← shared_from_this
    e ← new_net_engine build io_thread_count session_count (some (make self))
    returns (add_stop_event e stop_context)

  -- The server around an engine, before anything is pending
  abbrev pub server_of : NetEngine Session EngineEvent → Server Session
  server_of e = record {
    engine = e;
    is_listening = false;
    accepting = [];
    waiting = 0;
    is_stopped = false;
    is_stopping = false;
    lost = [];
  }

  -- `BoostNetEngineServer::BoostNetEngineServer`
  unfoldable pub new_server :
      {Self : Type ℓ}
      → (make : Self → ℕ → Option Session) → Build
      → ℕ
      → ℕ
      → Outcome (Server Session)
  unfolding new_boost_net_engine
  new_server make build io_thread_count session_count = do
    e ← new_boost_net_engine make build io_thread_count session_count
    returns (server_of (add_stop_event (add_start_event e start_server) stop_server))

  -- A server at rest, with any number of threads, none of them started, any sessions in its pool, and its
  -- events subscribed. The constructor does not return, so this is where histories of the methods begin.
  abbrev pub idle_server : ℕ → List Session → Server Session
  idle_server io_thread_count sessions = server_of (record {
    is_run = false;
    start_delegator = record { callbacks = start_server ∷ [] };
    stop_delegator = record { callbacks = stop_context ∷ stop_server ∷ [] };
    threads = replicate io_thread_count false;
    session_pool = record { stack = sessions };
  })

  -- The constructor of the server never returns.
  pub new_server_lem :
      {Self : Type ℓ} (make : Self → ℕ → Option Session) (build : Build)
      (io_thread_count session_count : ℕ)
      → new_server make build io_thread_count session_count ≡ undefined
  unfolding new_server new_boost_net_engine
  new_server_lem make build io_thread_count session_count = refl

  -- `NetEngine::Start`
  unfoldable pub start : Build → Server Session → Outcome (Server Session)
  unfolding invoke run_event
  start build s = do
    e ← NetEngine.start build s.engine
    invoke run_event e.start_delegator tt (record s { engine = e })

  abbrev pub exchanged : Server Session → NetEngine Session EngineEvent × Bool → Server Session
  exchanged s (e, false) = s
  exchanged s (e, true) = record s { engine = e; is_stopping = true }

  -- `NetEngine::Stop` up to its events: it returns, or it goes on with `finish_stop`.
  unfoldable pub stop : Server Session → Server Session
  stop s = exchanged s (NetEngine.stop s.engine)

  -- The rest of `NetEngine::Stop`
  unfoldable pub finish_stop : Server Session → Outcome (Server Session)
  unfolding invoke run_event
  finish_stop s = do
    t ← invoke run_event s.engine.stop_delegator tt s
    returns (record t { engine = join_threads t.engine; is_stopping = false })
