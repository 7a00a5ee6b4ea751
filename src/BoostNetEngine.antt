-- ===== src/BoostNetEngine.antt =====
-- 01_Server/Src/02_ServerEngine/{Include,Source}/Boost/BoostNetEngine: the io_context, its work guard
-- and the threads that run it, around the server of BoostAcceptor. Stop is in three parts here: its
-- exchange of `m_isRun`, its events, and its loop of Join, which waits for every thread to come back from
-- `run`.
pub mod Steps
pub mod Threads
mod Handlers
pub mod Valid
pub mod Invariant
pub mod Refine
pub mod Workers
pub mod Stop
mod Tests
use tux_base_mmo.Common.{
  ℕ, ◌+◌, ◌-◌, Bool, true, false, Option, none, some, length, ltb, List, if◌then◌else◌,
}
use tux_base_mmo.Verify.{Build, Outcome, returns, undefined, ◌>>=◌}
use tux_base_mmo.Delegate.{invoke}
use tux_base_mmo.NetEngine
use tux_base_mmo.NetEngine.{NetEngine, join_threads, take_session}
use tux_base_mmo.BoostAcceptor.{
  Server, EngineEvent, start_server, stop_context, stop_server, idle_server, start_listening,
  stop_listening, stop,
}

-- `m_workGuard` owns its work or not; `inside` is the number of threads in `m_ioContext.run()`, and
-- `joining` says whether a call of Stop is in its loop of Join.
pub record Runtime {ℓ} (Session : Type ℓ) : Type ℓ where
  pub server : Server Session
  pub has_guard : Bool
  pub inside : ℕ
  pub joining : Bool

module _ {ℓ} {Session : Type ℓ} where
  -- An engine at rest, around a server at rest, with work guarded. The constructor does not return
  -- (`new_boost_net_engine`), so this is where histories of the methods begin.
  abbrev pub idle_runtime : ℕ → List Session → Runtime Session
  idle_runtime io_thread_count sessions = record {
    server = idle_server io_thread_count sessions;
    has_guard = true;
    inside = 0;
    joining = false;
  }

  -- `BoostNetEngine::StopEngineEvent`: `m_ioContext.stop()` and `m_workGuard.reset()`
  abbrev pub stop_engine_event : Runtime Session → Runtime Session
  stop_engine_event r = record r {
    server = record r.server { is_stopped = true };
    has_guard = false;
  }

  -- What is subscribed to the engine
  unfoldable pub run_engine_event :
      EngineEvent → Unit {0} → Runtime Session → Outcome (Runtime Session)
  unfolding start_listening
  run_engine_event start_server _ r = returns (record r { server = start_listening r.server })
  run_engine_event stop_context _ r = returns (stop_engine_event r)
  run_engine_event stop_server _ r = returns (record r { server = stop_listening r.server })

  -- `BoostNetEngine::RunThreadWorker` of each thread that was started: it enters `run`.
  abbrev pub run_thread_workers : Runtime Session → NetEngine Session EngineEvent → Runtime Session
  run_thread_workers r e = record r {
    server = record r.server { engine = e };
    inside = r.inside + length e.threads;
  }

  -- `NetEngine::Start`
  unfoldable pub start : Build → Runtime Session → Outcome (Runtime Session)
  unfolding invoke run_engine_event
  start build r = do
    e ← NetEngine.start build r.server.engine
    invoke run_engine_event e.start_delegator tt (run_thread_workers r e)

  -- `NetEngine::Stop` up to its events
  abbrev pub begin_stop : Runtime Session → Runtime Session
  begin_stop r = record r { server = stop r.server }

  -- The events of a Stop that has made its exchange
  unfoldable pub run_stop_events : Runtime Session → Outcome (Runtime Session)
  unfolding invoke run_engine_event
  run_stop_events r = do
    t ← invoke run_engine_event r.server.engine.stop_delegator tt r
    returns (record t { server = record t.server { is_stopping = false }; joining = true })

  -- The loop of `NetEngine::Stop`, once every thread has come back
  abbrev pub end_stop : Runtime Session → Runtime Session
  end_stop r = record r {
    server = record r.server { engine = join_threads r.server.engine };
    joining = false;
  }

  -- `m_ioContext.run()` of one thread returns; a context that ran out of work is stopped.
  abbrev pub leave : Runtime Session → Runtime Session
  leave r = record r { server = record r.server { is_stopped = true }; inside = r.inside - 1 }

  -- The destructors of the engine's members: the context before the threads, which `~Thread` joins. To
  -- destroy a context while a thread is in its `run` is undefined.
  unfoldable pub destroy : Runtime Session → Outcome (Unit {0})
  destroy r = if ltb 0 r.inside then undefined else returns tt

  -- `BoostNetEngine::TakeBoostSession`
  abbrev pub take_boost_session : Runtime Session → Runtime Session × Option Session
  take_boost_session r =
      let (e, session) = take_session r.server.engine in
      (record r { server = record r.server { engine = e } }, session)
