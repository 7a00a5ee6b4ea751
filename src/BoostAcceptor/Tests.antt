-- ===== src/BoostAcceptor/Tests.antt =====
-- Runs of a server with two sessions.
use tux_base_mmo.Common.{ℕ, ◌+◌, ◌≤◌, ◌≡◌, refl, [], ◌∷◌, ltb}
use tux_base_mmo.Verify.{debug, Outcome, returns, aborts, undefined}
use tux_base_mmo.LockStack.Dynamic.{push, try_pop}
use tux_base_mmo.Delegate.{invoke}
use tux_base_mmo.NetEngine
use tux_base_mmo.NetEngine.{start_threads, fill_pool, new_net_engine, take_session, release_session}
use tux_base_mmo.Thread.{start_thread}
use tux_base_mmo.BoostAcceptor.{
  Server, success, idle_server, accept_session, complete_acception, complete_wait, start_listening,
  run_event, start, stop, finish_stop,
}
use tux_base_mmo.BoostAcceptor.Steps.{
  Event, starts, stops, finishes, accepts, step, count_if, Reach, begin, later,
}
use tux_base_mmo.BoostAcceptor.Sessions.{total, sessions_conserved}
use tux_base_mmo.BoostAcceptor.Accepted.{connections, accepts_bounded}
use tux_base_mmo.BoostAcceptor.Frame.{pending}
use tux_base_mmo.BoostAcceptor.Pending.{one_pending}

abbrev result : Outcome (Server ℕ) → Server ℕ → Server ℕ
result (returns s) t = s
result aborts t = t
result undefined t = t

-- One thread, and two sessions, 11 and 10
abbrev built : Server ℕ
built = idle_server 1 (11 ∷ 10 ∷ [])

after : Server ℕ → Event ℕ → Server ℕ
unfolding step start stop finish_stop NetEngine.start NetEngine.stop start_threads start_thread
    invoke run_event start_listening accept_session complete_acception complete_wait take_session
    release_session try_pop push
after s e = result (step debug s e) s

abbrev running : Server ℕ
running = after built starts

abbrev one_lost : Server ℕ
one_lost = after running (accepts [] 11 [] success)

abbrev both_lost : Server ℕ
both_lost = after one_lost (accepts [] 10 [] success)

abbrev stopped : Server ℕ
stopped = after (after both_lost stops) finishes

both_lost-state :
    (both_lost.lost ≡ 10 ∷ 11 ∷ []) × (both_lost.accepting ≡ []) × (both_lost.waiting ≡ 1)
unfolding after
both_lost-state = (refl, refl, refl)

both_lost-Reach : Reach debug (11 ∷ 10 ∷ []) both_lost
unfolding after
both_lost-Reach =
    later (accepts [] 10 [] success)
      (later (accepts [] 11 [] success) (later starts (begin 1) tt refl) (refl, refl) refl)
      (refl, refl) refl

sessions_conserved_example :
    total (λ x. ltb 10 x) both_lost ≡ count_if (λ x. ltb 10 x) (11 ∷ 10 ∷ [])
sessions_conserved_example = sessions_conserved (λ x. ltb 10 x) both_lost-Reach

accepts_bounded_example :
    (connections both_lost-Reach + 0 + 0 ≡ 2) × (connections both_lost-Reach ≤ 2)
unfolding after
accepts_bounded_example = accepts_bounded both_lost-Reach

one_pending_example : pending both_lost ≤ 1
unfolding after
one_pending_example = one_pending both_lost-Reach refl
