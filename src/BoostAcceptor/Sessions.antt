-- ===== src/BoostAcceptor/Sessions.antt =====
-- Where the sessions of a server are.
use tux_base_mmo.Common.{
  ℕ, ◌-◌, ◌+◌, ◌≡◌, refl, sym, ap, ◌∙◌, Bool, true, false, not, if◌then◌else◌, ltb, List, [], ◌∷◌,
  ◌++◌, arith, length,
}
use tux_base_mmo.Verify.{Build, assert, bind_inverse, returns_injective, returns}
use tux_base_mmo.LockStack.Dynamic.{push, try_pop}
use tux_base_mmo.Delegate.{invoke, call_each}
use tux_base_mmo.NetEngine
use tux_base_mmo.NetEngine.{
  NetEngine, join_threads, take_session, release_session, start_threads, new_net_engine,
}
use tux_base_mmo.BoostAcceptor.{
  Server, EngineEvent, ErrorCode, start_server, stop_context, stop_server, success,
  operation_aborted, other_error, accept_with, accept_session, give_back, complete_acception,
  complete_wait, start_listening, run_event, start, stop, finish_stop,
}
use tux_base_mmo.BoostAcceptor.Steps.{
  Event, starts, stops, finishes, accepts, waits, Allowed, step, tally, count_if, Reach, begin,
  later,
}

module _ {ℓ} {Session : Type ℓ} where
  start_pool :
      (build : Build) (e u : NetEngine Session EngineEvent)
      → NetEngine.start build e ≡ returns u
      → u.session_pool.stack ≡ e.session_pool.stack
  unfolding NetEngine.start
  start_pool build e u started =
      let (_, _, rest) = bind_inverse (assert build (ltb 0 (length e.threads))) _ started in
      let (ts, _, same) = bind_inverse (start_threads build e.threads) _ rest in
      ap (λ x. x.session_pool.stack) (sym (returns_injective same))

module _ {ℓ} {Session : Type ℓ} (p : Session → Bool) where
  -- The sessions in the pool, those that wait for a connection, and those that are lost.
  abbrev pub total : Server Session → ℕ
  total s = count_if p s.engine.session_pool.stack + count_if p s.accepting + count_if p s.lost

  count_if-append : (xs ys : List Session) → count_if p (xs ++ ys) ≡ count_if p xs + count_if p ys
  count_if-append [] ys = omega arith
  count_if-append (x ∷ xs) ys = omega (arith, count_if-append xs ys)

  total_if :
      (b : Bool) (s t : Server Session) (n : ℕ)
      → total s ≡ n
      → total t ≡ n
      → total (if b then s else t) ≡ n
  total_if true s t n e f = e
  total_if false s t n e f = f

  total-accept_with :
      (l : List Session) (s : Server Session)
      → s.engine.session_pool.stack ≡ l
      → total (accept_with s (take_session s.engine)) ≡ total s
  unfolding take_session try_pop
  total-accept_with [] s e = ground (arith, e)
  total-accept_with (x ∷ xs) s e = rw e (ground (arith, count_if-append s.accepting (x ∷ [])))

  total-accept_session : (s : Server Session) → total (accept_session s) ≡ total s
  unfolding accept_session
  total-accept_session s =
      total_if (not s.engine.is_run) s _ _ refl
        (total-accept_with s.engine.session_pool.stack s refl)

  total-give_back :
      (s : Server Session) (x : Session) → total (give_back s x) ≡ total s + tally (p x)
  unfolding release_session push
  total-give_back s x = omega arith

  total-complete_acception :
      (s : Server Session) (x : Session) (code : ErrorCode)
      → total (complete_acception s x code) ≡ total s + tally (p x)
  unfolding complete_acception
  total-complete_acception s x success =
      total_if (not s.engine.is_run) (give_back s x) _ _ (total-give_back s x)
        (total-accept_session (record s { lost = x ∷ s.lost }) ∙ omega arith)
  total-complete_acception s x operation_aborted = total-give_back s x
  total-complete_acception s x other_error =
      total_if (not s.engine.is_run) (give_back s x) _ _ (total-give_back s x)
        (total-accept_session (give_back s x) ∙ total-give_back s x)

  total-complete_wait :
      (s : Server Session) (failed : Bool) → total (complete_wait s failed) ≡ total s
  unfolding complete_wait
  total-complete_wait s true = refl
  total-complete_wait s false = total-accept_session s

  -- The calls of events keep all sessions.
  total-call_each :
      (es : List EngineEvent) (s t : Server Session)
      → call_each run_event es tt s ≡ returns t
      → total t ≡ total s
  unfolding run_event start_listening
  total-call_each [] s t e = cc
  total-call_each (start_server ∷ es) s t e =
      total-call_each es (accept_session (record s { is_listening = true })) t e
      ∙ total-accept_session (record s { is_listening = true })
  total-call_each (stop_context ∷ es) s t e =
      total-call_each es (record s { is_stopped = true }) t e
  total-call_each (stop_server ∷ es) s t e =
      total-call_each es (record s { is_listening = false }) t e

  total-start :
      (build : Build) (s t : Server Session) → start build s ≡ returns t → total t ≡ total s
  unfolding start NetEngine.start invoke
  total-start build s t e =
      let (u, started, e₁) =
        bind_inverse (NetEngine.start build s.engine)
          (λ u. invoke run_event u.start_delegator tt (record s { engine = u })) e in
      total-call_each u.start_delegator.callbacks (record s { engine = u }) t e₁
      ∙ ap (λ l. count_if p l + count_if p s.accepting + count_if p s.lost)
          (start_pool build s.engine u started)

  total-stop : (s : Server Session) → total (stop s) ≡ total s
  unfolding stop NetEngine.stop
  total-stop s = ground arith

  total-finish_stop : (s t : Server Session) → finish_stop s ≡ returns t → total t ≡ total s
  unfolding finish_stop invoke
  total-finish_stop s t e =
      let (v, called, e₁) =
        bind_inverse (invoke run_event s.engine.stop_delegator tt s)
          (λ v. returns (record v { engine = join_threads v.engine; is_stopping = false })) e in
      ap (λ x. total x) (sym (returns_injective e₁))
      ∙ total-call_each s.engine.stop_delegator.callbacks s v called

  total-step :
      (build : Build) (s t : Server Session) (e : Event Session)
      → Allowed s e
      → step build s e ≡ returns t
      → total t ≡ total s
  unfolding step
  total-step build s t starts a e = total-start build s t e
  total-step build s t stops a e = ap (λ u. total u) (sym (returns_injective e)) ∙ total-stop s
  total-step build s t finishes a e = total-finish_stop s t e
  total-step build s t (accepts before x after code) a e =
      ap (λ u. total u) (sym (returns_injective e))
      ∙ total-complete_acception (record s { accepting = before ++ after }) x code
      ∙ omega (
        arith,
        count_if-append before after,
        count_if-append before (x ∷ after),
        ap (count_if p) (a.0),
      )
  total-step build s t (waits failed) a e =
      ap (λ u. total u) (sym (returns_injective e))
      ∙ total-complete_wait (record s { waiting = s.waiting - 1 }) failed

  -- In every history from a server at rest, for every test on sessions: of the sessions that were in the pool of the server at rest, as
  -- many
  -- that it holds for are still in the pool, wait for a connection or are lost. No session is doubled,
  -- and none disappears in another way.
  pub sessions_conserved :
      {build : Build} {initial : List Session} {s : Server Session}
      → Reach build initial s
      → total s ≡ count_if p initial
  sessions_conserved (begin io_thread_count) = omega arith
  sessions_conserved {build} (later {s} {t} e r a eq) =
      total-step build s t e a eq ∙ sessions_conserved r
