-- ===== src/BoostNetEngine/Refine.antt =====
-- A runtime against the server whose Stop joins its threads in the step of its events.
use tux_base_mmo.Common.{
  ◌≡◌, refl, sym, ap, subst, ◌∙◌, Bool, Bool-cases, true, false, inl, inr, List,
}
use tux_base_mmo.Verify.{Build, returns, ◌>>=◌, bind_inverse, returns_injective}
use tux_base_mmo.Delegate.{invoke}
use tux_base_mmo.NetEngine
use tux_base_mmo.NetEngine.{NetEngine, join_threads}
use tux_base_mmo.BoostAcceptor
use tux_base_mmo.BoostAcceptor.{
  Server, EngineEvent, run_event, finish_stop, start_listening, accept_session,
}
use tux_base_mmo.BoostAcceptor.Steps
use tux_base_mmo.BoostAcceptor.Steps.{starts, stops, finishes, accepts, waits}
use tux_base_mmo.BoostNetEngine.{Runtime, begin_stop}
use tux_base_mmo.BoostNetEngine.Threads.{Started}
use tux_base_mmo.BoostNetEngine.Steps.{
  Event, calls, leaves, joins, Allowed, step, Reach, begin, later,
}
use tux_base_mmo.BoostNetEngine.Valid.{
  Valid, begun, start_inverse, rest_before, stopping, run_stop_events_lem, begin_stop_rest,
  leave_stopped,
}
use tux_base_mmo.BoostNetEngine.Invariant.{Reach-Valid}

module _ {ℓ} {Session : Type ℓ} where
  abbrev seen_with : Bool → Server Session → Server Session
  seen_with true s = record s { engine = join_threads s.engine }
  seen_with false s = s

  -- The server that is seen from outside: while Stop waits in its loop, as when it is through.
  abbrev pub seen : Runtime Session → Server Session
  seen r = seen_with r.joining r.server

  seen_off : (r : Runtime Session) → r.joining ≡ false → seen r ≡ r.server
  seen_off r e = ap (λ j. seen_with j r.server) e

  start_once :
      (build : Build) (r : Runtime Session) (u : NetEngine Session EngineEvent)
      → Valid r
      → Started r.server.engine u
      → NetEngine.start build r.server.engine ≡ returns u
      → BoostAcceptor.start build r.server ≡ returns (begun r u).server
  unfolding BoostAcceptor.start invoke run_event start_listening
  start_once build r u v b passed = rw (passed, ap (λ d. d.callbacks) b.on_start ∙ v.on_start) refl

  finished_once :
      (r : Runtime Session) → Valid r → finish_stop r.server ≡ returns (seen (stopping r))
  unfolding finish_stop invoke run_event
  finished_once r v = rw v.on_stop refl

  stays_stopped : (s : Server Session) → s.is_stopped ≡ true → record s { is_stopped = true } ≡ s
  stays_stopped s e = λ i. record s { is_stopped = sym e i }

  handled_once :
      {build : Build} {initial : List Session} (r t : Runtime Session) (e : Steps.Event Session)
      → Valid r
      → Steps.Reach build initial (seen r)
      → Steps.Allowed r.server e
      → r.server.is_stopped ≡ false
      → (Steps.step build r.server e >>= λ s. returns (record r { server = s })) ≡ returns t
      → Steps.Reach build initial (seen t)
  handled_once {build} {initial} r t e v h a open_ eq =
      let (s, ran, same) =
        bind_inverse (Steps.step build r.server e) (λ s. returns (record r { server = s })) eq in
      subst (λ x. Steps.Reach build initial (seen x)) (returns_injective same)
        (subst (Steps.Reach build initial) (sym (seen_off (record r { server = s }) idle))
          (Steps.later e (subst (Steps.Reach build initial) (seen_off r idle) h) a ran))
    where
      idle : r.joining ≡ false
      idle = elim (Bool-cases r.joining) [
        | inl j ↦ absurd (cc (v.stopped j, open_))
        | inr off ↦ off
      ]

  stopped_once :
      {build : Build} {initial : List Session} (r : Runtime Session)
      → r.joining ≡ false
      → Steps.Reach build initial (seen r)
      → Steps.Reach build initial (seen (begin_stop r))
  unfolding Steps.step
  stopped_once {build} {initial} r idle h =
      subst (Steps.Reach build initial) (sym (seen_off (begin_stop r) idle))
        (Steps.later stops (subst (Steps.Reach build initial) (seen_off r idle) h) tt refl)

  -- Each step of the runtime is a step of the server, or is not seen.
  step_seen :
      {build : Build} {initial : List Session} (r t : Runtime Session) (e : Event Session)
      → Valid r
      → Steps.Reach build initial (seen r)
      → Allowed r e
      → step build r e ≡ returns t
      → Steps.Reach build initial (seen t)
  unfolding step Steps.step
  step_seen {build} {initial} r t (calls starts) v h a eq =
      let (u, passed, b, same) = start_inverse build r t v eq in
      let (_, idle, _) = rest_before r u v b in
      subst (λ x. Steps.Reach build initial (seen x)) (sym same)
        (subst (Steps.Reach build initial) (sym (seen_off (begun r u) idle)) (
          Steps.later starts (subst (Steps.Reach build initial) (seen_off r idle) h) tt
            (start_once build r u v b passed)))
  step_seen {build} {initial} r t (calls stops) v h a eq =
      subst (λ x. Steps.Reach build initial (seen x)) (returns_injective eq)
        (elim (Bool-cases r.joining) [
          | inl j ↦
              subst (λ x. Steps.Reach build initial (seen x)) (sym (begin_stop_rest r (v.off j))) h
          | inr idle ↦ stopped_once r idle h
        ])
  step_seen {build} {initial} r t (calls finishes) v h a eq =
      subst (λ x. Steps.Reach build initial (seen x))
        (returns_injective (sym (run_stop_events_lem r v) ∙ eq))
        (Steps.later finishes
          (subst (Steps.Reach build initial) (seen_off r (v.halted_waits (a.0))) h) a
          (finished_once r v))
  step_seen r t (calls (accepts before x after code)) v h a eq =
      handled_once r t (accepts before x after code) v h (a.0) (a.0.1) eq
  step_seen r t (calls (waits failed)) v h a eq =
      handled_once r t (waits failed) v h (a.0) (a.0.1) eq
  step_seen {build} {initial} r t leaves v h a eq =
      subst (λ x. Steps.Reach build initial (seen x)) (returns_injective eq)
        (subst (Steps.Reach build initial)
          (sym (ap (seen_with r.joining) (stays_stopped r.server (leave_stopped r v (a.1))))) h)
  step_seen {build} {initial} r t joins v h a eq =
      subst (λ x. Steps.Reach build initial (seen x)) (returns_injective eq)
        (subst (λ j. Steps.Reach build initial (seen_with j r.server)) (a.0) h)

  -- Every history from an engine at rest with at least one thread, in either build, is seen from outside as a
  -- history of the server whose Stop calls its events and joins its threads in one step, where a Stop that
  -- still waits for its threads is seen as one that has joined them.
  pub runtime_refines :
      {build : Build} {initial : List Session} {r : Runtime Session}
      → Reach build initial r
      → Steps.Reach build initial (seen r)
  runtime_refines (begin n pos) = Steps.begin n
  runtime_refines (later {r} {t} e h a eq) =
      step_seen r t e (Reach-Valid h) (runtime_refines h) a eq
