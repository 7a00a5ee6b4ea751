-- ===== src/Factory/Tests.antt =====
-- A pool of three sessions that a factory makes.
use tux_base_mmo.Common.{ℕ, ◌≡◌, arith, replicate, some}
use tux_base_mmo.Verify.{debug, Returns}
use tux_base_mmo.BoostAcceptor.{EngineEvent}
use tux_base_mmo.BoostSession.{opened_session}
use tux_base_mmo.NetEngine.{new_net_engine}
use tux_base_mmo.Session.{WithBase, session_of}
use tux_base_mmo.Factory.{Factory, factory_of}
use tux_base_mmo.Factory.Pool.{pool_of_factory}

abbrev make_session : ℕ → WithBase
make_session id = record { base = session_of id; members = opened_session }

abbrev of_seven : Factory ℕ
of_seven = record { args = 7 }

-- All three have the identifier 7.
three_sevens :
    Returns
      (new_net_engine {Event = EngineEvent} debug 1 3
        (some (factory_of make_session of_seven).create))
      (λ e. e.session_pool.stack ≡ replicate 3 (make_session 7))
three_sevens = pool_of_factory debug 1 3 make_session of_seven (omega arith) (omega arith)
