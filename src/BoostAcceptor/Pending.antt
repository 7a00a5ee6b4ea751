-- ===== src/BoostAcceptor/Pending.antt =====
-- How many operations of the acceptor are pending.
use tux_base_mmo.Common.{
  ℕ, suc, ◌+◌, ◌-◌, ◌≤◌, ◌≡◌, ◌≢◌, refl, sym, ap, subst, ◌∙◌, inl, inr, Bool, Bool-cases, true,
  false, not, if◌then◌else◌, List, ◌∷◌, ◌++◌, arith, length, length-append,
}
use tux_base_mmo.Verify.{debug, returns, aborts, bind_inverse, returns_injective, ◌>>=◌}
use tux_base_mmo.Delegate.{invoke, call_each}
use tux_base_mmo.NetEngine
use tux_base_mmo.NetEngine.{
  NetEngine, take_session, release_session, join_threads, start_threads, new_net_engine,
  fill_engine,
}
use tux_base_mmo.BoostAcceptor.{
  Server, ErrorCode, success, operation_aborted, other_error, give_back, complete_acception,
  complete_wait, start_listening, run_event, start, stop, finish_stop,
}
use tux_base_mmo.BoostAcceptor.Stop.{stop_at_rest}
use tux_base_mmo.BoostAcceptor.Steps.{
  Event, starts, stops, finishes, accepts, waits, Allowed, step, Reach, begin, later,
}
use tux_base_mmo.BoostAcceptor.Engine.{engine-Started, bool_conflict}
use tux_base_mmo.BoostAcceptor.Frame.{pending, Single, accept-Single}

module _ {ℓ} {Session : Type ℓ} where
  not_running :
      (s : Server Session)
      → Single s
      → start_threads debug s.engine.threads ≢ aborts
      → (s.engine.is_run ≡ false) × (s.is_stopping ≡ false)
  not_running s v first = (
    elim (Bool-cases s.engine.is_run) [ inl run ↦ absurd (first (v.started run)) | inr off ↦ off ],
    elim (Bool-cases s.is_stopping) [ inl halt ↦ absurd (first (v.halted halt)) | inr rest ↦ rest ],
  )

  start-Single : (s t : Server Session) → Single s → start debug s ≡ returns t → Single t
  unfolding start NetEngine.start invoke run_event start_listening
  start-Single s t v e =
      let (u, passed, e₁) =
        bind_inverse (NetEngine.start debug s.engine)
          (λ u. call_each run_event u.start_delegator.callbacks tt (record s { engine = u })) e in
      let b = engine-Started s.engine u passed in
      let (off, rest) = not_running s v b.first in
      let w = record s { engine = u; is_listening = true } in
      subst Single
        (returns_injective (
          subst (λ l. call_each run_event l tt (record s { engine = u }) ≡ returns t)
            (ap (λ d. d.callbacks) b.on_start ∙ v.on_start) e₁))
        (accept-Single w
          (record {
            on_start = ap (λ d. d.callbacks) b.on_start ∙ v.on_start;
            on_stop = ap (λ d. d.callbacks) b.on_stop ∙ v.on_stop;
            few = λ open_. v.few open_;
            idle = λ open_ none _. absurd (bool_conflict u.is_run b.is_run none);
            started = λ run. b.no_more;
            halted = λ halt. b.no_more;
            off = λ halt. absurd (bool_conflict s.is_stopping halt rest);
          })
          (λ open_. v.idle open_ off rest))

  -- The server once Stop has made its exchange
  halting : Server Session → Server Session
  halting s = record s { engine = record s.engine { is_run = false }; is_stopping = true }

  stop_lem : (s : Server Session) → s.engine.is_run ≡ true → stop s ≡ halting s
  unfolding stop NetEngine.stop halting
  stop_lem s run = rw run refl

  halting-Single : (s : Server Session) → Single s → s.engine.is_run ≡ true → Single (halting s)
  unfolding halting
  halting-Single s v run = record {
    on_start = v.on_start;
    on_stop = v.on_stop;
    few = v.few;
    idle = λ _ _ rest. absurd (bool_conflict true refl rest);
    started = λ again. absurd (bool_conflict false again refl);
    halted = λ _. v.started run;
    off = λ _. refl;
  }

  stop-Single : (s : Server Session) → Single s → Single (stop s)
  stop-Single s v = elim (Bool-cases s.engine.is_run) [
    | inl run ↦ subst Single (sym (stop_lem s run)) (halting-Single s v run)
    | inr off ↦ subst Single (sym (stop_at_rest s off)) v
  ]

  stopped : Server Session → Server Session
  stopped s = record s {
    engine = join_threads s.engine;
    is_stopped = true;
    is_listening = false;
    is_stopping = false;
  }

  finish_stop_lem : (s : Server Session) → Single s → finish_stop s ≡ returns (stopped s)
  unfolding finish_stop invoke run_event stopped
  finish_stop_lem s v =
      ap
        (λ l. call_each run_event l tt s >>= λ t.
          returns (record t { engine = join_threads t.engine; is_stopping = false }))
        v.on_stop

  stopped-Single : (s : Server Session) → Single s → s.engine.is_run ≡ false → Single (stopped s)
  unfolding stopped
  stopped-Single s v off = record {
    on_start = v.on_start;
    on_stop = v.on_stop;
    few = λ open_. absurd (bool_conflict true refl open_);
    idle = λ open_. absurd (bool_conflict true refl open_);
    started = λ run. absurd (bool_conflict s.engine.is_run run off);
    halted = λ halt. absurd (bool_conflict false halt refl);
    off = λ halt. absurd (bool_conflict false halt refl);
  }

  -- The same server with other sessions in the pool or lost.
  give_back-Single : (s : Server Session) (x : Session) → Single s → Single (give_back s x)
  unfolding release_session
  give_back-Single s x v = record {
    on_start = v.on_start;
    on_stop = v.on_stop;
    few = v.few;
    idle = v.idle;
    started = v.started;
    halted = v.halted;
    off = v.off;
  }

  lose-Single : (s : Server Session) (l : List Session) → Single s → Single (record s { lost = l })
  lose-Single s l v = record {
    on_start = v.on_start;
    on_stop = v.on_stop;
    few = v.few;
    idle = v.idle;
    started = v.started;
    halted = v.halted;
    off = v.off;
  }

  Single-if : (b : Bool) (s t : Server Session) → Single s → Single t → Single (if b then s else t)
  Single-if true s t v w = v
  Single-if false s t v w = w

  handled-Single :
      (s : Server Session) (x : Session) (code : ErrorCode)
      → Single s
      → (s.is_stopped ≡ false → pending s ≡ 0)
      → Single (complete_acception s x code)
  unfolding complete_acception release_session
  handled-Single s x success v none_pending =
      Single-if (not s.engine.is_run) (give_back s x) _ (give_back-Single s x v)
        (accept-Single (record s { lost = x ∷ s.lost }) (lose-Single s (x ∷ s.lost) v) none_pending)
  handled-Single s x operation_aborted v none_pending = give_back-Single s x v
  handled-Single s x other_error v none_pending =
      Single-if (not s.engine.is_run) (give_back s x) _ (give_back-Single s x v)
        (accept-Single (give_back s x) (give_back-Single s x v) none_pending)

  waited-Single :
      (s : Server Session) (failed : Bool)
      → Single s
      → (s.is_stopped ≡ false → pending s ≡ 0)
      → Single (complete_wait s failed)
  unfolding complete_wait
  waited-Single s true v none_pending = v
  waited-Single s false v none_pending = accept-Single s v none_pending

  -- With one operation fewer, nothing is pending.
  fewer-Single :
      (s : Server Session) (l : List Session) (n : ℕ)
      → Single s
      → s.is_stopped ≡ false
      → pending s ≡ suc (length l + n)
      → Single (record s { accepting = l; waiting = n }) × (length l + n ≡ 0)
  fewer-Single s l n v open_ e =
      let none_left : length l + n ≡ 0 = omega (arith, v.few open_, e) in
      (
        record {
          on_start = v.on_start;
          on_stop = v.on_stop;
          few = λ _. omega (arith, none_left);
          idle = λ _ _ _. none_left;
          started = v.started;
          halted = v.halted;
          off = v.off;
        },
        none_left,
      )

  step-Single :
      (s t : Server Session) (e : Event Session)
      → Allowed s e
      → Single s
      → step debug s e ≡ returns t
      → Single t
  unfolding step
  step-Single s t starts a v e = start-Single s t v e
  step-Single s t stops a v e = subst Single (returns_injective e) (stop-Single s v)
  step-Single s t finishes a v e =
      subst Single (returns_injective (sym (finish_stop_lem s v) ∙ e))
        (stopped-Single s v (v.off (a.0)))
  step-Single s t (accepts before x after code) a v e =
      let (w, none_left) = fewer-Single s (before ++ after) s.waiting v (a.1) (
        omega
          (arith, ap length (a.0), length-append before (x ∷ after), length-append before after)) in
      subst Single (returns_injective e) (handled-Single _ x code w (λ _. none_left))
  step-Single s t (waits failed) a v e =
      let (w, none_left) =
        fewer-Single s s.accepting (s.waiting - 1) v (a.1) (omega (arith, a.0)) in
      subst Single (returns_injective e) (waited-Single _ failed w (λ _. none_left))

  Reach-Single : {initial : List Session} {s : Server Session} → Reach debug initial s → Single s
  Reach-Single (begin io_thread_count) = record {
    on_start = refl;
    on_stop = refl;
    few = λ _. omega arith;
    idle = λ _ _ _. refl;
    started = λ run. absurd (cc run);
    halted = λ halt. absurd (cc halt);
    off = λ halt. absurd (cc halt);
  }
  Reach-Single (later {s} {t} e r a eq) = step-Single s t e a (Reach-Single r) eq

-- In every history from a server at rest, in a debug build, until the io_context is stopped at most one accept or wait of the
-- acceptor is pending: AcceptSession never runs twice at a time, and takes one session at a time.
pub one_pending {ℓ} :
    {Session : Type ℓ} {initial : List Session} {s : Server Session}
    → Reach debug initial s
    → s.is_stopped ≡ false
    → pending s ≤ 1
one_pending r open_ = (Reach-Single r).few open_
