-- ===== src/BoostNetEngineClient.antt =====
-- 01_Server/Src/02_ServerEngine/{Include,Source}/Boost/BoostNetEngine: the client engine. Its threads and
-- its context are those of BoostNetEngine, without an acceptor. Of Asio stand the parser of addresses,
-- the resolver, and the times at which a wait of the timer completes.
pub mod Retry
pub mod Close
mod Tests
use tux_base_mmo.Common.{
  ℕ, zero, suc, Bool, true, false, not, ◌||◌, Option, none, some, List, [], ◌∷◌, ◌++◌, map, Text,
  is_some, ◌==◌, if◌then◌else◌, replicate,
}
use tux_base_mmo.Verify.{Build, Outcome, returns, undefined, ◌>>=◌, ◌>>◌, assert}
use tux_base_mmo.NetEngine.{NetEngine}
use tux_base_mmo.BoostNetEngine.{Runtime, begin_stop}
use tux_base_mmo.BoostSession.{BoostSession, start, close_socket}
use tux_base_mmo.BoostAcceptor.{
  new_boost_net_engine, server_of, EngineEvent, stop_context, ErrorCode, success, operation_aborted,
  other_error,
}

module _ {ℓ} {Session : Type ℓ} where
  -- `BoostNetEngineClient::BoostNetEngineClient` but for `m_endpoint`, which is `endpoint_of`
  unfoldable pub new_client :
      {Self : Type ℓ}
      → (make : Self → ℕ → Option Session) → Build
      → ℕ
      → ℕ
      → Outcome (NetEngine Session EngineEvent)
  new_client make build io_thread_count session_count =
      new_boost_net_engine make build io_thread_count session_count

  -- A client at rest, with any number of threads, none of them started, any sessions in its pool, and the
  -- one event of its base class; what is an acceptor's stays empty. The constructor does not return, so this
  -- is where its methods begin.
  abbrev pub idle_client : ℕ → List Session → Runtime Session
  idle_client io_thread_count sessions = record {
    server = server_of (record {
      is_run = false;
      start_delegator = record { callbacks = [] };
      stop_delegator = record { callbacks = stop_context ∷ [] };
      threads = replicate io_thread_count false;
      session_pool = record { stack = sessions };
    });
    has_guard = true;
    inside = 0;
    joining = false;
  }

  -- `BoostNetEngineClient::~BoostNetEngineClient`, up to the events of Stop
  abbrev pub begin_destruction : Runtime Session → Runtime Session
  begin_destruction r = begin_stop r

-- `Endpoint(address, port)`
pub record Endpoint {ℓ} (Address : Type ℓ) : Type ℓ where
  pub address : Address
  pub port : ℕ

-- The first of the resolver's results; past the end of none is undefined.
abbrev pub first_result {ℓ} :
    {Address : Type ℓ} → Option (List (Endpoint Address)) → Outcome (Endpoint Address)
first_result (some (endpoint ∷ rest)) = returns endpoint
first_result _ = undefined

abbrev pub found {ℓ} : {Address : Type ℓ} → Option (List (Endpoint Address)) → Bool
found (some (endpoint ∷ rest)) = true
found _ = false

-- `m_endpoint` of the constructor: `make_address` and `resolve` are Asio's, `none` where they set the
-- error code.
unfoldable pub endpoint_of {ℓ} :
    {Address : Type ℓ}
    → Build
    → (make_address : Text → Option Address)
    → (resolve : Text → ℕ → Option (List (Endpoint Address))) → Text
    → ℕ
    → Outcome (Endpoint Address)
endpoint_of build make_address resolve host port = elim (make_address host) [
  | some address ↦ returns (record { address = address; port = port })
  | none ↦ assert build (found (resolve host port)) >> first_result (resolve host port)
]

-- A handler of `m_connectRetryTimer.async_wait`: its session, and whether the wait was cancelled.
pub record Wait : Type 0 where
  pub session : ℕ
  pub is_cancelled : Bool

-- `sessions` are the objects at their addresses; `waits` are the handlers that have not run.
pub record Client : Type 0 where
  pub is_running : Bool
  pub sessions : ℕ → BoostSession
  pub waits : List Wait

abbrev pub set_session : Client → ℕ → BoostSession → Client
set_session c p s = record c { sessions = λ q. if q == p then s else c.sessions q }

-- `BoostNetEngineClient::Connect`; its call of `async_connect` is a comment.
unfoldable pub connect : Build → Client → Option ℕ → Outcome Client
connect build c session =
    if not c.is_running then returns c else (do assert build (is_some session); returns c)

-- `expires_after` cancels the waits of the timer: their handlers get an error.
abbrev pub cancel : Wait → Wait
cancel w = record w { is_cancelled = true }

-- `BoostNetEngineClient::RetryConnect`
unfoldable pub retry_connect : Client → ℕ → Client
retry_connect c p = record c {
  waits = map cancel c.waits ++ (record { session = p; is_cancelled = false } ∷ []);
}

-- The rest of `CompleteConnect` of a running engine, with its error code
abbrev pub connected : Client → ℕ → ErrorCode → Outcome Client
connected c p success = do s ← start (c.sessions p); returns (set_session c p s)
connected c p operation_aborted = returns c
connected c p other_error = returns (retry_connect c p)

-- `session->`, of a pointer that is not null
abbrev pub with_session {ℓ} : {A : Type ℓ} → Option ℕ → (ℕ → Outcome A) → Outcome A
with_session none call = undefined
with_session (some p) call = call p

-- `BoostNetEngineClient::CompleteConnect`
unfoldable pub complete_connect : Build → Client → Option ℕ → ErrorCode → Outcome Client
complete_connect build c session error = do
  assert build (is_some session)
  if not c.is_running then returns c else with_session session (λ p. connected c p error)

-- The handler of a wait, with whether it gets an error
unfoldable pub wait_handler : Build → Client → ℕ → Bool → Outcome Client
wait_handler build c p failed =
    if failed
    then returns c
    else connect build (set_session c p (close_socket (c.sessions p))) (some p)

-- The wait at a place of the list, and the others
abbrev pub kept_before : Wait → Option (Wait × List Wait) → Option (Wait × List Wait)
kept_before w none = none
kept_before w (some (v, rest)) = some (v, w ∷ rest)

abbrev pub remove_at : ℕ → List Wait → Option (Wait × List Wait)
remove_at i [] = none
remove_at zero (w ∷ rest) = some (w, rest)
remove_at (suc i) (w ∷ rest) = kept_before w (remove_at i rest)

-- That wait completes; a cancelled one gets an error.
abbrev pub run_removed : Build → Client → Bool → Option (Wait × List Wait) → Outcome Client
run_removed build c failed none = returns c
run_removed build c failed (some (w, rest)) =
    wait_handler build (record c { waits = rest }) w.session (w.is_cancelled || failed)

unfoldable pub run_wait : Build → Client → ℕ → Bool → Outcome Client
run_wait build c i failed = run_removed build c failed (remove_at i c.waits)
