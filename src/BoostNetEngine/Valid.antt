-- ===== src/BoostNetEngine/Valid.antt =====
-- What is true of a runtime between two steps.
use tux_base_mmo.Common.{
  ◌||◌, ◌<◌, ◌≡◌, refl, sym, ap, subst, ◌∙◌, inl, inr, Bool-cases, true, false, if◌then◌else◌, [],
  ◌∷◌, length,
}
use tux_base_mmo.Verify.{Build, returns, bind_inverse, returns_injective}
use tux_base_mmo.Delegate.{call_each, invoke}
use tux_base_mmo.NetEngine
use tux_base_mmo.NetEngine.{
  NetEngine, join_threads, new_net_engine, fill_engine, fill_pool, engine_of, add_start_event,
  add_stop_event,
}
use tux_base_mmo.BoostAcceptor.{
  Server, EngineEvent, start_server, stop_context, stop_server, accept_session, start_listening,
  stop,
}
use tux_base_mmo.BoostAcceptor.Frame.{Frame}
use tux_base_mmo.BoostNetEngine.{
  Runtime, run_engine_event, run_thread_workers, start, begin_stop, run_stop_events,
}
use tux_base_mmo.BoostNetEngine.Threads.{AllJoinable, Started, engine-Started}
use tux_base_mmo.BoostNetEngine.Steps.{CanLeave}

module _ {ℓ} {Session : Type ℓ} where
  pub record Valid (r : Runtime Session) : Type ℓ where
    pub some_thread : 0 < length r.server.engine.threads
    pub on_start : r.server.engine.start_delegator.callbacks ≡ start_server ∷ []
    pub on_stop : r.server.engine.stop_delegator.callbacks ≡ stop_context ∷ stop_server ∷ []
    pub started : r.server.engine.is_run ≡ true → AllJoinable r.server.engine.threads
    pub not_joined : r.joining ≡ true → AllJoinable r.server.engine.threads
    pub stopped : r.joining ≡ true → r.server.is_stopped ≡ true
    pub off : r.joining ≡ true → r.server.engine.is_run ≡ false
    pub guarded : r.has_guard ≡ false → r.server.is_stopped ≡ true
    pub halted : r.server.is_stopping ≡ true → AllJoinable r.server.engine.threads
    pub halted_off : r.server.is_stopping ≡ true → r.server.engine.is_run ≡ false
    pub halted_waits : r.server.is_stopping ≡ true → r.joining ≡ false
    pub at_rest :
        r.server.engine.is_run ≡ false
        → r.server.is_stopping ≡ false
        → r.joining ≡ false
        → r.inside ≡ 0
    pub workers :
        r.server.is_stopped ≡ false
        → r.inside ≡ (
            if r.server.engine.is_run || r.server.is_stopping
            then length r.server.engine.threads
            else 0)

  pub frame-Valid :
      (r : Runtime Session) (t : Server Session)
      → Frame r.server t
      → Valid r
      → Valid (record r { server = t })
  frame-Valid r t f v = record {
    some_thread = subst (λ l. 0 < length l) (sym f.threads) v.some_thread;
    on_start = ap (λ d. d.callbacks) f.on_start ∙ v.on_start;
    on_stop = ap (λ d. d.callbacks) f.on_stop ∙ v.on_stop;
    started = λ run. subst AllJoinable (sym f.threads) (v.started (sym f.is_run ∙ run));
    not_joined = λ j. subst AllJoinable (sym f.threads) (v.not_joined j);
    stopped = λ j. f.is_stopped ∙ v.stopped j;
    off = λ j. f.is_run ∙ v.off j;
    guarded = λ g. f.is_stopped ∙ v.guarded g;
    halted = λ halt. subst AllJoinable (sym f.threads) (v.halted (sym f.is_stopping ∙ halt));
    halted_off = λ halt. f.is_run ∙ v.halted_off (sym f.is_stopping ∙ halt);
    halted_waits = λ halt. v.halted_waits (sym f.is_stopping ∙ halt);
    at_rest = λ rest calm j. v.at_rest (sym f.is_run ∙ rest) (sym f.is_stopping ∙ calm) j;
    workers =
        λ open_. rw (f.is_run, f.is_stopping, f.threads) (v.workers (sym f.is_stopped ∙ open_));
  }

  -- A thread comes back from `run` only when the context is stopped.
  pub leave_stopped : (r : Runtime Session) → Valid r → CanLeave r → r.server.is_stopped ≡ true
  leave_stopped r v (inl s) = s
  leave_stopped r v (inr (_, g)) = v.guarded g

  -- What the exchange of Stop leaves of a running server
  abbrev pub halting : Runtime Session → Runtime Session
  halting r = record r {
    server = record r.server {
      engine = record r.server.engine { is_run = false };
      is_stopping = true;
    };
  }

  pub begin_stop_running :
      (r : Runtime Session) → r.server.engine.is_run ≡ true → begin_stop r ≡ halting r
  unfolding stop NetEngine.stop
  begin_stop_running r run = rw run refl

  pub begin_stop_rest : (r : Runtime Session) → r.server.engine.is_run ≡ false → begin_stop r ≡ r
  unfolding stop NetEngine.stop
  begin_stop_rest r off = rw off refl

  -- What its events leave, before its loop
  abbrev pub stopping : Runtime Session → Runtime Session
  stopping r = record {
    server = record r.server { is_stopped = true; is_listening = false; is_stopping = false };
    has_guard = false;
    inside = r.inside;
    joining = true;
  }

  pub run_stop_events_lem :
      (r : Runtime Session) → Valid r → run_stop_events r ≡ returns (stopping r)
  unfolding run_stop_events invoke run_engine_event
  run_stop_events_lem r v = rw v.on_stop refl

  -- Before Start of a valid runtime that returns, its engine is at rest.
  pub rest_before :
      (r : Runtime Session) (u : NetEngine Session EngineEvent)
      → Valid r
      → Started r.server.engine u
      → (r.server.engine.is_run ≡ false) × (r.joining ≡ false) × (r.server.is_stopping ≡ false)
  rest_before r u v b = (
    elim (Bool-cases r.server.engine.is_run) [
      | inl run ↦ absurd (b.first v.some_thread (v.started run))
      | inr off ↦ off
    ],
    elim (Bool-cases r.joining) [
      | inl j ↦ absurd (b.first v.some_thread (v.not_joined j))
      | inr off ↦ off
    ],
    elim (Bool-cases r.server.is_stopping) [
      | inl halt ↦ absurd (b.first v.some_thread (v.halted halt))
      | inr off ↦ off
    ],
  )

  -- The runtime after Start, with the engine that its loop leaves.
  abbrev pub begun : Runtime Session → NetEngine Session EngineEvent → Runtime Session
  begun r u = record (run_thread_workers r u) {
    server = accept_session (record r.server { engine = u; is_listening = true });
  }

  pub start_inverse :
      (build : Build) (r t : Runtime Session)
      → Valid r
      → start build r ≡ returns t
      → (u : NetEngine Session EngineEvent) × (NetEngine.start build r.server.engine ≡ returns u)
        × Started r.server.engine u
        × (t ≡ begun r u)
  unfolding start invoke run_engine_event start_listening
  start_inverse build r t v e =
      let (u, passed, e₁) =
        bind_inverse (NetEngine.start build r.server.engine)
          (λ u. call_each run_engine_event u.start_delegator.callbacks tt (run_thread_workers r u))
          e in
      let b = engine-Started build r.server.engine u passed in
      (
        u,
        passed,
        b,
        sym (
            returns_injective (
              subst (λ l. call_each run_engine_event l tt (run_thread_workers r u) ≡ returns t)
                (ap (λ d. d.callbacks) b.on_start ∙ v.on_start) e₁)),
      )
