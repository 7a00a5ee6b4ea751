-- ===== src/BoostNetEngineClient/Tests.antt =====
-- A client of two sessions that both fail to connect, and one that is destroyed while it runs.
use tux_base_mmo.Common.{ℕ, ◌≡◌, refl, true, false, none, some, [], ◌∷◌, ascii}
use tux_base_mmo.Verify.{debug, Outcome, returns, aborts, undefined}
use tux_base_mmo.BoostSession.{opened_session, start}
use tux_base_mmo.BoostAcceptor.{other_error}
use tux_base_mmo.Delegate.{invoke}
use tux_base_mmo.Thread.{start_thread}
use tux_base_mmo.NetEngine
use tux_base_mmo.NetEngine.{new_net_engine, fill_pool, start_threads}
use tux_base_mmo.BoostNetEngine
use tux_base_mmo.BoostNetEngine.{Runtime, destroy}
use tux_base_mmo.BoostNetEngine.Steps.{Later}
use tux_base_mmo.BoostNetEngine.Stop.{AllJoined}
use tux_base_mmo.BoostNetEngineClient.Close.{client_closes}
use tux_base_mmo.BoostNetEngineClient.{
  idle_client, begin_destruction, Client, endpoint_of, connect, retry_connect, complete_connect,
  wait_handler, run_wait,
}
use tux_base_mmo.BoostNetEngineClient.Retry.{
  Event, connects, step, Reach, begin, later, live, retry_gives_up,
}

abbrev fresh : Client
fresh = record { is_running = true; sessions = λ p. opened_session; waits = [] }

abbrev result : Outcome Client → Client → Client
result (returns c) d = c
result aborts d = d
result undefined d = d

after : Client → Event → Client
unfolding step connect retry_connect complete_connect wait_handler run_wait start
after c e = result (step debug c e) c

abbrev one_failed : Client
one_failed = after fresh (connects 1 other_error)

abbrev two_failed : Client
two_failed = after one_failed (connects 2 other_error)

two_failed-Reach : Reach debug two_failed
unfolding after
two_failed-Reach =
    later (connects 2 other_error) (later (connects 1 other_error) (begin fresh refl) refl) refl

-- The wait of session 1 is cancelled.
two_failed_waits :
    two_failed.waits
    ≡ record { session = 1; is_cancelled = true }
      ∷ record { session = 2; is_cancelled = false }
      ∷ []
unfolding after
two_failed_waits = refl

two_failed_gives_up :
    (c : Client) × (run_wait debug two_failed 1 false ≡ returns c)
    × (live c.waits ≡ 0)
    × ((c.sessions 2).is_open ≡ false)
unfolding after
two_failed_gives_up = retry_gives_up 1 two_failed-Reach refl refl

-- A host name is resolved if it is no address.
resolved :
    endpoint_of {Address = ℕ} debug
      (λ host. none)
      (λ host port. some (record { address = 7; port = port } ∷ []))
      (ascii "mainserver")
      13000
    ≡ returns (record { address = 7; port = 13000 })
unfolding endpoint_of
resolved = refl

unresolved :
    endpoint_of {Address = ℕ} debug (λ host. none) (λ host port. none) (ascii "nowhere") 13000
    ≡ aborts
unfolding endpoint_of
unresolved = refl

-- A client with three threads and two sessions
running : (s : Runtime ℕ) × (BoostNetEngine.start debug (idle_client 3 (1 ∷ 0 ∷ [])) ≡ returns s)
unfolding BoostNetEngine.start NetEngine.start start_threads start_thread invoke
running = (_, refl)

client_closes_example :
    (u : Runtime ℕ) × Later debug (begin_destruction running.0) 5 u
    × AllJoined u.server.engine.threads
    × (destroy u ≡ returns tt)
client_closes_example = client_closes 3 (1 ∷ 0 ∷ []) running.1
