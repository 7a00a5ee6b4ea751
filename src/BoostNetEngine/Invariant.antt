-- ===== src/BoostNetEngine/Invariant.antt =====
-- Every step keeps a runtime valid.
use tux_base_mmo.Common.{
  ◌||◌, ◌≡◌, refl, sym, ap, subst, ◌∙◌, inl, inr, Bool-cases, true, false, if◌then◌else◌, List,
  arith, length, length-replicate,
}
use tux_base_mmo.Verify.{Build, returns, bind_inverse, returns_injective}
use tux_base_mmo.NetEngine.{NetEngine}
use tux_base_mmo.BoostAcceptor.{EngineEvent, accept_session}
use tux_base_mmo.BoostAcceptor.Frame.{accept_session-Frame}
use tux_base_mmo.BoostAcceptor.Steps
use tux_base_mmo.BoostAcceptor.Steps.{starts, stops, finishes, accepts, waits}
use tux_base_mmo.BoostNetEngine.{Runtime, run_thread_workers, begin_stop, end_stop, leave}
use tux_base_mmo.BoostNetEngine.Threads.{Started, length-join}
use tux_base_mmo.BoostNetEngine.Handlers.{accepts-Frame, waits-Frame}
use tux_base_mmo.BoostNetEngine.Steps.{
  Event, calls, leaves, joins, Allowed, step, Reach, begin, later,
}
use tux_base_mmo.BoostNetEngine.Valid.{
  Valid, frame-Valid, halting, stopping, run_stop_events_lem, begin_stop_running, begin_stop_rest,
  rest_before, begun, start_inverse,
}

module _ {ℓ} {Session : Type ℓ} where
  start-Valid :
      (r : Runtime Session) (u : NetEngine Session EngineEvent)
      → Valid r
      → Started r.server.engine u
      → Valid (begun r u)
  start-Valid r u v b =
      let (off, idle, calm) = rest_before r u v b in
      let w = record (run_thread_workers r u) {
        server = record r.server { engine = u; is_listening = true };
      } in
      frame-Valid w (accept_session w.server) ((accept_session-Frame w.server).0) (record {
        some_thread = omega (arith, v.some_thread, b.same_length);
        on_start = ap (λ d. d.callbacks) b.on_start ∙ v.on_start;
        on_stop = ap (λ d. d.callbacks) b.on_stop ∙ v.on_stop;
        started = λ run. b.joinable;
        not_joined = λ j. b.joinable;
        stopped = λ j. absurd (cc (j, idle));
        off = λ j. absurd (cc (j, idle));
        guarded = v.guarded;
        halted = λ halt. absurd (cc (halt, calm));
        halted_off = λ halt. absurd (cc (halt, calm));
        halted_waits = λ halt. idle;
        at_rest = λ rest _ j. absurd (cc (rest, b.is_run));
        workers = λ open_. rw b.is_run (omega (arith, v.at_rest off calm idle));
      })

  halting-Valid :
      (r : Runtime Session) → Valid r → r.server.engine.is_run ≡ true → Valid (halting r)
  halting-Valid r v run = record {
    some_thread = v.some_thread;
    on_start = v.on_start;
    on_stop = v.on_stop;
    started = λ again. absurd (cc again);
    not_joined = v.not_joined;
    stopped = v.stopped;
    off = λ j. refl;
    guarded = v.guarded;
    halted = λ halt. v.started run;
    halted_off = λ halt. refl;
    halted_waits = λ halt. idle;
    at_rest = λ rest calm j. absurd (cc calm);
    workers = λ open_.
        v.workers open_
        ∙ ap (λ b. if b || r.server.is_stopping then length r.server.engine.threads else 0) run;
  }
    where
      idle : r.joining ≡ false
      idle = elim (Bool-cases r.joining) [ inl j ↦ absurd (cc (v.off j, run)) | inr off ↦ off ]

  stopping-Valid :
      (r : Runtime Session) → Valid r → r.server.is_stopping ≡ true → Valid (stopping r)
  stopping-Valid r v halt = record {
    some_thread = v.some_thread;
    on_start = v.on_start;
    on_stop = v.on_stop;
    started = λ run. absurd (cc (run, v.halted_off halt));
    not_joined = λ j. v.halted halt;
    stopped = λ j. refl;
    off = λ j. v.halted_off halt;
    guarded = λ g. refl;
    halted = λ again. absurd (cc again);
    halted_off = λ again. absurd (cc again);
    halted_waits = λ again. absurd (cc again);
    at_rest = λ rest calm j. absurd (cc j);
    workers = λ open_. absurd (cc open_);
  }

  leave-Valid : (r : Runtime Session) → Valid r → Valid (leave r)
  leave-Valid r v = record {
    some_thread = v.some_thread;
    on_start = v.on_start;
    on_stop = v.on_stop;
    started = v.started;
    not_joined = v.not_joined;
    stopped = λ j. refl;
    off = v.off;
    guarded = λ g. refl;
    halted = v.halted;
    halted_off = v.halted_off;
    halted_waits = v.halted_waits;
    at_rest = λ rest calm j. omega (arith, v.at_rest rest calm j);
    workers = λ open_. absurd (cc open_);
  }

  end_stop-Valid :
      (r : Runtime Session) → Valid r → r.joining ≡ true → r.inside ≡ 0 → Valid (end_stop r)
  end_stop-Valid r v j none_inside = record {
    some_thread = omega (arith, v.some_thread, length-join r.server.engine.threads);
    on_start = v.on_start;
    on_stop = v.on_stop;
    started = λ run. absurd (cc (run, v.off j));
    not_joined = λ again. absurd (cc again);
    stopped = λ again. absurd (cc again);
    off = λ again. absurd (cc again);
    guarded = v.guarded;
    halted = λ halt. absurd (cc (j, v.halted_waits halt));
    halted_off = v.halted_off;
    halted_waits = λ _. refl;
    at_rest = λ rest calm again. none_inside;
    workers = λ open_. absurd (cc (open_, v.stopped j));
  }

  begin_stop-Valid : (r : Runtime Session) → Valid r → Valid (begin_stop r)
  begin_stop-Valid r v = elim (Bool-cases r.server.engine.is_run) [
    | inl run ↦ subst Valid (sym (begin_stop_running r run)) (halting-Valid r v run)
    | inr off ↦ subst Valid (sym (begin_stop_rest r off)) v
  ]

  pub step-Valid :
      (build : Build) (r t : Runtime Session) (e : Event Session)
      → Allowed r e
      → step build r e ≡ returns t
      → Valid r
      → Valid t
  unfolding step
  step-Valid build r t (calls starts) a eq v =
      let (u, _, b, same) = start_inverse build r t v eq in
      subst Valid (sym same) (start-Valid r u v b)
  step-Valid build r t (calls stops) a eq v =
      subst Valid (returns_injective eq) (begin_stop-Valid r v)
  step-Valid build r t (calls finishes) a eq v =
      subst Valid (returns_injective (sym (run_stop_events_lem r v) ∙ eq))
        (stopping-Valid r v (a.0))
  step-Valid build r t (calls (accepts before x after code)) a eq v =
      let (s, ran, same) =
        bind_inverse (Steps.step build r.server (accepts before x after code))
          (λ s. returns (record r { server = s })) eq in
      subst Valid (returns_injective same)
        (frame-Valid r s (accepts-Frame build r.server s before x after code ran) v)
  step-Valid build r t (calls (waits failed)) a eq v =
      let (s, ran, same) =
        bind_inverse (Steps.step build r.server (waits failed))
          (λ s. returns (record r { server = s })) eq in
      subst Valid (returns_injective same)
        (frame-Valid r s (waits-Frame build r.server s failed ran) v)
  step-Valid build r t leaves a eq v = subst Valid (returns_injective eq) (leave-Valid r v)
  step-Valid build r t joins a eq v =
      subst Valid (returns_injective eq) (end_stop-Valid r v (a.0) (a.1))

  pub Reach-Valid :
      {build : Build} {initial : List Session} {r : Runtime Session}
      → Reach build initial r
      → Valid r
  Reach-Valid (begin n pos) = record {
    some_thread = omega (arith, pos, length-replicate n false);
    on_start = refl;
    on_stop = refl;
    started = λ run. absurd (cc run);
    not_joined = λ j. absurd (cc j);
    stopped = λ j. absurd (cc j);
    off = λ j. refl;
    guarded = λ g. absurd (cc g);
    halted = λ halt. absurd (cc halt);
    halted_off = λ halt. absurd (cc halt);
    halted_waits = λ halt. refl;
    at_rest = λ rest calm j. refl;
    workers = λ open_. refl;
  }
  Reach-Valid {build} (later {r} {t} e h a eq) = step-Valid build r t e a eq (Reach-Valid h)
