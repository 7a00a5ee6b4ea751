-- ===== src/ServerApp.antt =====
-- 01_Server/Src/03_ServerApp/Source/main.cpp: the server program, over SignalHandler and the server engine.
-- The port, 13000, is of no matter to the model.
use tux_base_mmo.Common.{ℕ, ◌≡◌, refl, Option}
use tux_base_mmo.Verify.{Build, Outcome, returns, undefined, ◌>>=◌}
use tux_base_mmo.SignalHandler.{Platform, Process, init_signal}
use tux_base_mmo.BoostAcceptor.{Server, new_server, new_server_lem}

-- The arguments of `make_shared<BoostNetEngineServer>`
abbrev pub io_thread_count : ℕ
io_thread_count = 1024

abbrev pub session_count : ℕ
session_count = 5

module _ {ℓ} {Session Self : Type ℓ} (make : Self → ℕ → Option Session) where
  -- `main` up to its loop
  unfoldable pub begin_main : Platform → Build → Process → Outcome (Process × Server Session)
  begin_main platform build p = do
    s ← new_server make build io_thread_count session_count
    returns (init_signal platform p, s)

  -- `main` never comes to its loop.
  begin_main_lem :
      (platform : Platform) (build : Build) (p : Process) → begin_main platform build p ≡ undefined
  unfolding begin_main
  begin_main_lem platform build p =
      rw (new_server_lem make build io_thread_count session_count) refl
