-- ===== src/BoostNetEngine/Tests.antt =====
-- Runs of a server with two threads and two sessions.
use tux_base_mmo.Common.{arith, ℕ, ◌+◌, ◌≡◌, refl, ◌⊎◌, inl, true, false, [], ◌∷◌}
use tux_base_mmo.Verify.{release, Outcome, returns, aborts, undefined}
use tux_base_mmo.LockStack.Dynamic.{try_pop}
use tux_base_mmo.Delegate.{invoke}
use tux_base_mmo.NetEngine
use tux_base_mmo.NetEngine.{start_threads, fill_pool, new_net_engine, take_session}
use tux_base_mmo.Thread.{start_thread}
use tux_base_mmo.BoostAcceptor.{stop, accept_session, start_listening, success}
use tux_base_mmo.BoostAcceptor.Steps
use tux_base_mmo.BoostAcceptor.Steps.{starts, stops, finishes, accepts, waits}
use tux_base_mmo.BoostNetEngine.{Runtime, idle_runtime, start, run_stop_events, run_engine_event}
use tux_base_mmo.BoostNetEngine.Steps.{
  Event, calls, leaves, joins, CanLeave, Allowed, step, Reach, begin, later, Later, here,
}
use tux_base_mmo.BoostNetEngine.Refine.{seen, runtime_refines}
use tux_base_mmo.BoostNetEngine.Workers.{workers_stay}
use tux_base_mmo.BoostNetEngine.Stop.{AllJoined, stop_ends, stop_falls, restart_handles_nothing}

abbrev result : Outcome (Runtime ℕ) → Runtime ℕ → Runtime ℕ
result (returns r) t = r
result aborts t = t
result undefined t = t

-- Two threads, and two sessions, 11 and 10
abbrev built : Runtime ℕ
built = idle_runtime 2 (11 ∷ 10 ∷ [])

after : Runtime ℕ → Event ℕ → Runtime ℕ
unfolding step start run_stop_events stop NetEngine.start NetEngine.stop start_threads start_thread
    invoke run_engine_event start_listening accept_session take_session try_pop
after r e = result (step release r e) r

abbrev running : Runtime ℕ
running = after built (calls starts)

abbrev stopping : Runtime ℕ
stopping = after (after running (calls stops)) (calls finishes)

abbrev one_left : Runtime ℕ
one_left = after stopping leaves

abbrev both_left : Runtime ℕ
both_left = after one_left leaves

abbrev at_rest : Runtime ℕ
at_rest = after both_left joins

abbrev restarted : Runtime ℕ
restarted = after at_rest (calls starts)

at_rest_state :
    (at_rest.inside ≡ 0)
    × (at_rest.server.engine.threads ≡ false ∷ false ∷ [])
    × (at_rest.server.accepting ≡ 11 ∷ [])
unfolding after
at_rest_state = (refl, refl, refl)

running-Reach : Reach release (11 ∷ 10 ∷ []) running
unfolding after
running-Reach = later (calls starts) (begin 2 (omega arith)) tt refl

stopping-Reach : Reach release (11 ∷ 10 ∷ []) stopping
unfolding after
stopping-Reach = later (calls finishes) (later (calls stops) running-Reach tt refl) (refl, tt) refl

at_rest-Reach : Reach release (11 ∷ 10 ∷ []) at_rest
unfolding after
at_rest-Reach =
    later joins
      (later leaves (later leaves stopping-Reach (omega arith, inl refl, tt) refl)
        (omega arith, inl refl, tt) refl)
      (refl, refl, tt) refl

runtime_refines_example : Steps.Reach release (11 ∷ 10 ∷ []) (seen stopping)
runtime_refines_example = runtime_refines stopping-Reach

workers_stay_example : (running.inside ≡ 2) × (¬ CanLeave running)
unfolding after
workers_stay_example = workers_stay running-Reach refl refl

stop_ends_example :
    (t : Runtime ℕ) × Later release stopping 3 t
    × (t.joining ≡ false)
    × (t.inside ≡ 0)
    × AllJoined t.server.engine.threads
unfolding after
stop_ends_example = stop_ends stopping-Reach refl

abbrev one_leaves : Event ℕ
one_leaves = leaves

stop_falls_example :
    ((one_leaves ≡ calls stops) × (one_left ≡ stopping))
    ⊎ (((one_leaves ≡ leaves) × (one_left.inside + 1 ≡ 2) × (one_left.joining ≡ true))
        ⊎ ((one_leaves ≡ joins) × (stopping.inside ≡ 0) × (one_left.joining ≡ false)))
unfolding after
stop_falls_example = stop_falls leaves stopping-Reach refl (omega arith, inl refl, tt) refl

restart_handles_nothing_example :
    (restarted.server.engine.is_run ≡ true)
    × (¬ Allowed restarted (calls (accepts [] 11 (10 ∷ []) success)))
    × (¬ Allowed restarted (calls (waits false)))
unfolding after
restart_handles_nothing_example =
    restart_handles_nothing [] 11 (10 ∷ []) success false at_rest-Reach refl refl here
