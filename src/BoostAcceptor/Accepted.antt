-- ===== src/BoostAcceptor/Accepted.antt =====
-- The connections that a server accepts, against the sessions that it has.
use tux_base_mmo.Common.{
  ℕ, suc, ◌-◌, ◌+◌, ◌≤◌, ◌≡◌, refl, sym, ap, ◌∙◌, Bool, true, false, not, if◌then◌else◌, List, [],
  ◌∷◌, ◌++◌, arith, length,
}
use tux_base_mmo.Verify.{Build, bind_inverse, returns_injective, returns}
use tux_base_mmo.LockStack.Dynamic.{try_pop}
use tux_base_mmo.Delegate.{invoke, call_each}
use tux_base_mmo.NetEngine
use tux_base_mmo.NetEngine.{NetEngine, join_threads, take_session}
use tux_base_mmo.BoostAcceptor.{
  Server, EngineEvent, start_server, stop_context, stop_server, success, operation_aborted,
  other_error, accept_with, accept_session, give_back, complete_acception, complete_wait,
  start_listening, run_event, start, stop, finish_stop,
}
use tux_base_mmo.BoostAcceptor.Steps.{
  Event, starts, stops, finishes, accepts, waits, step, tally, count_if, Reach, begin, later,
}
use tux_base_mmo.BoostAcceptor.Sessions.{sessions_conserved}

none_more : {n m : ℕ} → n ≡ m → n ≡ 0 + m
none_more e = omega (arith, e)

one_more : (n : ℕ) → suc n ≡ 1 + n
one_more n = omega arith

module _ {ℓ} {Session : Type ℓ} where
  -- Whether an event accepts a connection: an accept that succeeds while the engine runs.
  abbrev pub connects : Server Session → Event Session → ℕ
  connects s (accepts before session after success) = tally s.engine.is_run
  connects s _ = 0

  -- The connections that are accepted in a history
  abbrev pub connections :
      {build : Build} {initial : List Session} {s : Server Session} → Reach build initial s → ℕ
  connections (begin io_thread_count) = 0
  connections (later {s} e r a eq) = connects s e + connections r

  lost-accept_with :
      (l : List Session) (s : Server Session)
      → s.engine.session_pool.stack ≡ l
      → (accept_with s (take_session s.engine)).lost ≡ s.lost
  unfolding take_session try_pop
  lost-accept_with [] s e = rw e refl
  lost-accept_with (x ∷ xs) s e = rw e refl

  lost_if :
      (b : Bool) (s t : Server Session) {l : List Session}
      → s.lost ≡ l
      → t.lost ≡ l
      → (if b then s else t).lost ≡ l
  lost_if true s t e f = e
  lost_if false s t e f = f

  lost-accept_session : (s : Server Session) → (accept_session s).lost ≡ s.lost
  unfolding accept_session
  lost-accept_session s =
      lost_if (not s.engine.is_run) s _ refl (lost-accept_with s.engine.session_pool.stack s refl)

  lost-call_each :
      (es : List EngineEvent) (s t : Server Session)
      → call_each run_event es tt s ≡ returns t
      → t.lost ≡ s.lost
  unfolding run_event start_listening
  lost-call_each [] s t e = ap (λ x. x.lost) (sym (returns_injective e))
  lost-call_each (start_server ∷ es) s t e =
      lost-call_each es (accept_session (record s { is_listening = true })) t e
      ∙ lost-accept_session (record s { is_listening = true })
  lost-call_each (stop_context ∷ es) s t e = lost-call_each es (record s { is_stopped = true }) t e
  lost-call_each (stop_server ∷ es) s t e =
      lost-call_each es (record s { is_listening = false }) t e

  lost-start : (build : Build) (s t : Server Session) → start build s ≡ returns t → t.lost ≡ s.lost
  unfolding start invoke
  lost-start build s t e =
      let (u, _, e₁) =
        bind_inverse (NetEngine.start build s.engine)
          (λ u. invoke run_event u.start_delegator tt (record s { engine = u })) e in
      lost-call_each u.start_delegator.callbacks (record s { engine = u }) t e₁

  lost-stop : (s : Server Session) → (stop s).lost ≡ s.lost
  unfolding stop NetEngine.stop
  lost-stop s = ground arith

  lost-finish_stop : (s t : Server Session) → finish_stop s ≡ returns t → t.lost ≡ s.lost
  unfolding finish_stop invoke
  lost-finish_stop s t e =
      let (v, called, e₁) =
        bind_inverse (invoke run_event s.engine.stop_delegator tt s)
          (λ v. returns (record v { engine = join_threads v.engine; is_stopping = false })) e in
      ap (λ x. x.lost) (sym (returns_injective e₁))
      ∙ lost-call_each s.engine.stop_delegator.callbacks s v called

  lost-complete_wait : (s : Server Session) (failed : Bool) → (complete_wait s failed).lost ≡ s.lost
  unfolding complete_wait
  lost-complete_wait s true = refl
  lost-complete_wait s false = lost-accept_session s

  -- A success while the engine runs loses its session.
  lost_success :
      (b : Bool) (s : Server Session) (x : Session)
      → length
          (if not b then give_back s x else accept_session (record s { lost = x ∷ s.lost })).lost
        ≡ tally b + length s.lost
  lost_success true s x =
      ap length (lost-accept_session (record s { lost = x ∷ s.lost })) ∙ one_more (length s.lost)
  lost_success false s x = none_more refl

  lost-step :
      (build : Build) (s t : Server Session) (e : Event Session)
      → step build s e ≡ returns t
      → length t.lost ≡ connects s e + length s.lost
  unfolding step complete_acception
  lost-step build s t starts eq = none_more (ap length (lost-start build s t eq))
  lost-step build s t stops eq =
      none_more (ap (λ u. length u.lost) (sym (returns_injective eq)) ∙ ap length (lost-stop s))
  lost-step build s t finishes eq = none_more (ap length (lost-finish_stop s t eq))
  lost-step build s t (accepts before x after success) eq =
      ap (λ u. length u.lost) (sym (returns_injective eq))
      ∙ lost_success s.engine.is_run (record s { accepting = before ++ after }) x
  lost-step build s t (accepts before x after operation_aborted) eq =
      none_more (ap (λ u. length u.lost) (sym (returns_injective eq)))
  lost-step build s t (accepts before x after other_error) eq =
      let u = record s { accepting = before ++ after } in
      none_more (
        ap (λ u. length u.lost) (sym (returns_injective eq))
        ∙ ap length (
            lost_if (not s.engine.is_run) (give_back u x) (accept_session (give_back u x)) refl
              (lost-accept_session (give_back u x))))
  lost-step build s t (waits failed) eq = none_more (
      ap (λ u. length u.lost) (sym (returns_injective eq))
      ∙ ap length (lost-complete_wait (record s { waiting = s.waiting - 1 }) failed))

  connections-lost :
      {build : Build} {initial : List Session} {s : Server Session} (r : Reach build initial s)
      → length s.lost ≡ connections r
  connections-lost (begin io_thread_count) = refl
  connections-lost {build} (later {s} {t} e r a eq) =
      omega (arith, lost-step build s t e eq, connections-lost r)

  count_if_all : (l : List Session) → count_if (λ x. true) l ≡ length l
  count_if_all [] = refl
  count_if_all (x ∷ xs) = omega (arith, count_if_all xs)

  -- In every history from a server at rest the connections that it has accepted, over its whole life and through any
  -- number of Stops and Starts, and the sessions that are left in its pool or wait for a connection are
  -- together as many as the sessions that were in its pool at first: each accepted connection costs a
  -- session for good, and no more connections are accepted than there were sessions.
  pub accepts_bounded :
      {build : Build} {initial : List Session} {s : Server Session} (r : Reach build initial s)
      → (connections r + length s.engine.session_pool.stack + length s.accepting ≡ length initial)
        × (connections r ≤ length initial)
  accepts_bounded {initial = initial} {s} r =
      let all : connections r + length s.engine.session_pool.stack + length s.accepting
          ≡ length initial =
        omega (
          arith,
          sessions_conserved (λ x. true) r,
          connections-lost r,
          count_if_all s.engine.session_pool.stack,
          count_if_all s.accepting,
          count_if_all s.lost,
          count_if_all initial,
        ) in
      (all, omega (arith, all))
