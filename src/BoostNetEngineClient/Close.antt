-- ===== src/BoostNetEngineClient/Close.antt =====
-- The destructor of a client engine that runs.
use tux_base_mmo.Common.{
  sym, List, ℕ, suc, ◌-◌, ◌≡◌, refl, ap, subst, ◌∙◌, true, false, [], ◌∷◌, arith, length,
  length-replicate,
}
use tux_base_mmo.Verify.{Build, returns, returns_injective, bind_inverse}
use tux_base_mmo.Delegate.{invoke, call_each}
use tux_base_mmo.NetEngine
use tux_base_mmo.NetEngine.{
  NetEngine, new_net_engine, add_stop_event, fill_engine, fill_pool, engine_of,
}
use tux_base_mmo.BoostAcceptor.{stop, stop_context}
use tux_base_mmo.BoostAcceptor.Steps.{finishes}
use tux_base_mmo.BoostNetEngine.{
  Runtime, run_engine_event, run_thread_workers, start, run_stop_events, end_stop, destroy,
}
use tux_base_mmo.BoostNetEngine.Threads.{engine-Started}
use tux_base_mmo.BoostNetEngine.Steps.{Event, calls, joins, Allowed, step, Later, here, next}
use tux_base_mmo.BoostNetEngine.Stop.{AllJoined, join-AllJoined, left, left_state, left-Later}
use tux_base_mmo.BoostNetEngineClient.{idle_client, begin_destruction}

cancelled : (n : ℕ) → n - n ≡ 0
cancelled n = omega arith

module _ {ℓ} {Session : Type ℓ} where
  -- The threads and events of a client at rest, and what Start keeps of them
  record IsClient (n : ℕ) (r : Runtime Session) : Type ℓ where
    pub on_start : r.server.engine.start_delegator.callbacks ≡ []
    pub on_stop : r.server.engine.stop_delegator.callbacks ≡ stop_context ∷ []
    pub threads : length r.server.engine.threads ≡ n

  start-IsClient :
      (build : Build) (n : ℕ) (r t : Runtime Session)
      → IsClient n r
      → r.inside ≡ 0
      → start build r ≡ returns t
      → IsClient n t × (t.inside ≡ n) × (t.server.engine.is_run ≡ true)
  unfolding start invoke run_engine_event
  start-IsClient build n r t v inside e =
      let (u, passed, e₁) =
        bind_inverse (NetEngine.start build r.server.engine)
          (λ u. call_each run_engine_event u.start_delegator.callbacks tt (run_thread_workers r u))
          e in
      let b = engine-Started build r.server.engine u passed in
      let same = returns_injective (
        subst (λ l. call_each run_engine_event l tt (run_thread_workers r u) ≡ returns t)
          (ap (λ d. d.callbacks) b.on_start ∙ v.on_start) e₁) in
      subst (λ x. IsClient n x × (x.inside ≡ n) × (x.server.engine.is_run ≡ true)) same
        (
          record {
            on_start = ap (λ d. d.callbacks) b.on_start ∙ v.on_start;
            on_stop = ap (λ d. d.callbacks) b.on_stop ∙ v.on_stop;
            threads = b.same_length ∙ v.threads;
          },
          omega (arith, inside, b.same_length, v.threads),
          b.is_run,
        )

  -- What the exchange of Stop leaves of a client that runs, and then its events, before its loop
  abbrev halting : Runtime Session → Runtime Session
  halting r = record r {
    server = record r.server {
      engine = record r.server.engine { is_run = false };
      is_stopping = true;
    };
  }

  abbrev stopping : Runtime Session → Runtime Session
  stopping r = record {
    server = record r.server {
      engine = record r.server.engine { is_run = false };
      is_stopped = true;
      is_stopping = false;
    };
    has_guard = false;
    inside = r.inside;
    joining = true;
  }

  begin_destruction_lem :
      (r : Runtime Session) → r.server.engine.is_run ≡ true → begin_destruction r ≡ halting r
  unfolding stop NetEngine.stop
  begin_destruction_lem r run = rw run refl

  run_stop_events-client :
      (n : ℕ) (r : Runtime Session)
      → IsClient n r
      → run_stop_events (halting r) ≡ returns (stopping r)
  unfolding run_stop_events invoke run_engine_event
  run_stop_events-client n r v = rw v.on_stop refl

  -- `Later` with a step before it
  before :
      {build : Build} {r t u : Runtime Session} {n : ℕ} (e : Event Session)
      → Allowed r e
      → step build r e ≡ returns t
      → Later build t n u
      → Later build r (suc n) u
  before e a eq here = next e here a eq
  before e a eq (next e' l a' eq') = next e' (before e a eq l) a' eq'

  -- The destructor of a client that was started from rest, with any number of threads and in either build,
  -- comes to its end: from the exchange of its Stop, one step for the stop events, as many steps as there are
  -- threads, and one more lead to a runtime with every thread joined; and that is destroyed without fault.
  pub client_closes :
      {build : Build} (io_thread_count : ℕ) (sessions : List Session) {s : Runtime Session}
      → start build (idle_client io_thread_count sessions) ≡ returns s
      → (u : Runtime Session) × Later build (begin_destruction s) (suc (suc io_thread_count)) u
        × AllJoined u.server.engine.threads
        × (destroy u ≡ returns tt)
  unfolding step destroy
  client_closes {build} n sessions {s} started =
      let rest : IsClient n (idle_client n sessions) = record {
        on_start = refl;
        on_stop = refl;
        threads = length-replicate n false;
      } in
      let (w, inside', run) = start-IsClient build n (idle_client n sessions) s rest refl started in
      let t = stopping s in
      let (inside'', _, same) = left_state n t refl in
      (
        end_stop (left n t),
        subst (λ x. Later build x (suc (suc n)) (end_stop (left n t)))
            (sym (begin_destruction_lem s run))
            (before (calls finishes) (refl, tt) (run_stop_events-client n s w)
              (next joins (left-Later build n t refl (omega (arith, inside')))
                (same, omega (arith, inside'', inside'), tt) refl)),
        join-AllJoined (left n t).server.engine.threads,
        rw (inside'', inside', cancelled n) refl,
      )
