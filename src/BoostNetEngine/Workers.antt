-- ===== src/BoostNetEngine/Workers.antt =====
-- The threads in `run`, and the destruction of an engine.
use tux_base_mmo.Common.{◌||◌, ◌≡◌, refl, ap, ◌∙◌, true, false, if◌then◌else◌, List, arith, length}
use tux_base_mmo.Verify.{Build, returns, undefined}
use tux_base_mmo.BoostNetEngine.{Runtime, destroy}
use tux_base_mmo.BoostNetEngine.Steps.{CanLeave, Reach}
use tux_base_mmo.BoostNetEngine.Valid.{leave_stopped}
use tux_base_mmo.BoostNetEngine.Invariant.{Reach-Valid}

module _ {ℓ} {Session : Type ℓ} {build : Build} {initial : List Session} {r : Runtime Session} where
  -- In every history from an engine at rest, in either build, while a server runs whose context was not stopped: all its threads
  -- are in `run`, and none can come back, whether or not an operation is pending.
  pub workers_stay :
      Reach build initial r
      → r.server.engine.is_run ≡ true
      → r.server.is_stopped ≡ false
      → (r.inside ≡ length r.server.engine.threads) × (¬ CanLeave r)
  workers_stay h run open_ =
      let v = Reach-Valid h in
      (
        v.workers open_
            ∙ ap (λ b. if b || r.server.is_stopping then length r.server.engine.threads else 0) run,
        λ out. cc (leave_stopped r v out, open_),
      )

  -- In every history from an engine at rest, in either build: to destroy a server that runs, and whose context was not stopped, is
  -- undefined, since its threads are still in the context's `run`.
  pub destroy_running :
      Reach build initial r
      → r.server.engine.is_run ≡ true
      → r.server.is_stopped ≡ false
      → destroy r ≡ undefined
  unfolding destroy
  destroy_running h run open_ =
      ground (arith, (Reach-Valid h).some_thread, (workers_stay h run open_).0)

  -- Where no Stop has begun, an engine that does not run is destroyed without fault.
  pub destroy_at_rest :
      Reach build initial r
      → r.server.engine.is_run ≡ false
      → r.server.is_stopping ≡ false
      → r.joining ≡ false
      → destroy r ≡ returns tt
  unfolding destroy
  destroy_at_rest h rest calm idle = rw ((Reach-Valid h).at_rest rest calm idle) refl
