-- ===== src/NetEngine.antt =====
-- 01_Server/Src/02_ServerEngine/{Include,Source}/EngineCommon/NetEngine. What an event does is for
-- the engine's owner to say, so Start and Stop are here up to the call of their events.
use tux_base_mmo.Common.{
  ℕ, zero, suc, Bool, true, false, Option, none, some, List, [], ◌∷◌, length, replicate, map, ltb,
  is_some, if◌then◌else◌,
}
use tux_base_mmo.Thread.{Thread, start_thread, join}
use tux_base_mmo.Verify.{Build, Outcome, returns, undefined, ◌>>=◌, ◌>>◌, assert}
use tux_base_mmo.LockStack.Dynamic.{LockStack, new_stack, reserve, push, try_pop}
use tux_base_mmo.Delegate.{Delegate, new_delegate, subscribe}

pub record NetEngine {ℓ κ} (Session : Type ℓ) (Event : Type κ) : Type (ℓ ⊔ κ) where
  pub is_run : Bool
  pub start_delegator : Delegate Event
  pub stop_delegator : Delegate Event
  pub threads : List Thread
  pub session_pool : LockStack Session

module _ {ℓ} {Session : Type ℓ} where
  -- One round of the loop of the constructor: at a null session the constructor returns.
  abbrev pub push_created :
      Option Session
      → LockStack Session
      → (LockStack Session → LockStack Session)
      → LockStack Session
  push_created none pool next = pool
  push_created (some session) pool next = next (push pool session)

  -- The loop; the call of `sessionFactory->Create()` at index `i` returns `create i`.
  unfoldable pub fill_pool : (ℕ → Option Session) → ℕ → ℕ → LockStack Session → LockStack Session
  fill_pool create i zero pool = pool
  fill_pool create i (suc n) pool = push_created (create i) pool (fill_pool create (suc i) n)

-- The loop of `NetEngine::Start`; a name there is not empty, and the worker not null.
unfoldable pub start_threads : Build → List Thread → Outcome (List Thread)
start_threads build [] = returns []
start_threads build (t ∷ rest) = do
  t' ← start_thread build t false false
  rest' ← start_threads build rest
  returns (t' ∷ rest')

module _ {ℓ κ} {Session : Type ℓ} {Event : Type κ} where
  abbrev pub engine_of : ℕ → LockStack Session → NetEngine Session Event
  engine_of io_thread_count pool = record {
    is_run = false;
    start_delegator = new_delegate;
    stop_delegator = new_delegate;
    threads = replicate io_thread_count false;
    session_pool = pool;
  }

  abbrev pub fill_engine : ℕ → ℕ → Option (ℕ → Option Session) → Outcome (NetEngine Session Event)
  fill_engine io_thread_count zero factory =
      returns (engine_of io_thread_count (reserve new_stack 0))
  fill_engine io_thread_count (suc n) none = undefined
  fill_engine io_thread_count (suc n) (some create) =
      returns (engine_of io_thread_count (fill_pool create 0 (suc n) (reserve new_stack (suc n))))

  -- `NetEngine::NetEngine`
  unfoldable pub new_net_engine :
      Build → ℕ → ℕ → Option (ℕ → Option Session) → Outcome (NetEngine Session Event)
  new_net_engine build io_thread_count session_count factory = do
    assert build (ltb 0 io_thread_count)
    assert build (ltb 0 session_count)
    assert build (is_some factory)
    fill_engine io_thread_count session_count factory

  -- `NetEngine::Start`, up to the call of the events
  unfoldable pub start : Build → NetEngine Session Event → Outcome (NetEngine Session Event)
  start build e = do
    assert build (ltb 0 (length e.threads))
    threads ← start_threads build e.threads
    returns (record e { threads = threads; is_run = true })

  -- `compare_exchange_strong` of `NetEngine::Stop`: the engine, and whether it was running.
  unfoldable pub stop : NetEngine Session Event → NetEngine Session Event × Bool
  stop e = if e.is_run then (record e { is_run = false }, true) else (e, false)

  -- The loop of `NetEngine::Stop` after the events
  abbrev pub join_threads : NetEngine Session Event → NetEngine Session Event
  join_threads e = record e { threads = map join e.threads }

  -- `NetEngine::AddStartEvent`
  abbrev pub add_start_event : NetEngine Session Event → Event → NetEngine Session Event
  add_start_event e event = record e { start_delegator = (subscribe e.start_delegator event).0 }

  -- `NetEngine::AddStopEvent`
  abbrev pub add_stop_event : NetEngine Session Event → Event → NetEngine Session Event
  add_stop_event e event = record e { stop_delegator = (subscribe e.stop_delegator event).0 }

  -- `NetEngine::TakeSession`: `none` is the null pointer.
  unfoldable pub take_session : NetEngine Session Event → NetEngine Session Event × Option Session
  take_session e =
      let (pool, session) = try_pop e.session_pool in (record e { session_pool = pool }, session)

  -- `NetEngine::ReleaseSession`
  unfoldable pub release_session : NetEngine Session Event → Session → NetEngine Session Event
  release_session e session = record e { session_pool = push e.session_pool session }
