-- ===== src/BoostAcceptor/Frame.antt =====
-- AcceptSession against the operations that are pending, and what is true of them between steps.
use tux_base_mmo.Common.{
  ℕ, suc, ◌+◌, ◌≤◌, ◌≡◌, refl, sym, ap, ◌∙◌, Bool, true, false, not, if◌then◌else◌, List, [], ◌∷◌,
  arith, length, length-append,
}
use tux_base_mmo.Verify.{debug, aborts}
use tux_base_mmo.LockStack.Dynamic.{try_pop}
use tux_base_mmo.NetEngine.{take_session, start_threads}
use tux_base_mmo.BoostAcceptor.{
  Server, start_server, stop_context, stop_server, accept_with, accept_session,
}

module _ {ℓ} {Session : Type ℓ} where
  -- The accepts and the waits that have not completed.
  abbrev pub pending : Server Session → ℕ
  pending s = length s.accepting + s.waiting

  -- What AcceptSession does to the rest of the server.
  pub record Frame (s t : Server Session) : Type ℓ where
    pub is_run : t.engine.is_run ≡ s.engine.is_run
    pub is_stopped : t.is_stopped ≡ s.is_stopped
    pub is_stopping : t.is_stopping ≡ s.is_stopping
    pub threads : t.engine.threads ≡ s.engine.threads
    pub on_start : t.engine.start_delegator ≡ s.engine.start_delegator
    pub on_stop : t.engine.stop_delegator ≡ s.engine.stop_delegator

  pub accept_with-Frame :
      (l : List Session) (s : Server Session)
      → s.engine.session_pool.stack ≡ l
      → Frame s (accept_with s (take_session s.engine))
        × (pending (accept_with s (take_session s.engine)) ≡ suc (pending s))
  unfolding take_session try_pop
  accept_with-Frame [] s e = rw e (
    record {
      is_run = refl;
      is_stopped = refl;
      is_stopping = refl;
      threads = refl;
      on_start = refl;
      on_stop = refl;
    },
    omega arith,
  )
  accept_with-Frame (x ∷ xs) s e = rw e (
    record {
      is_run = refl;
      is_stopped = refl;
      is_stopping = refl;
      threads = refl;
      on_start = refl;
      on_stop = refl;
    },
    omega (arith, length-append s.accepting (x ∷ [])),
  )

  pub accept_session-Frame :
      (s : Server Session)
      → Frame s (accept_session s) × (pending (accept_session s) ≤ suc (pending s))
  unfolding accept_session
  accept_session-Frame s = either (not s.engine.is_run)
    where
      either :
          (b : Bool)
          → Frame s (if b then s else accept_with s (take_session s.engine))
            × (pending (if b then s else accept_with s (take_session s.engine)) ≤ suc (pending s))
      either true = (
        record {
          is_run = refl;
          is_stopped = refl;
          is_stopping = refl;
          threads = refl;
          on_start = refl;
          on_stop = refl;
        },
        omega arith,
      )
      either false =
          let (f, e) = accept_with-Frame s.engine.session_pool.stack s refl in (f, omega (arith, e))

  pub accept_session_rest : (s : Server Session) → s.engine.is_run ≡ false → accept_session s ≡ s
  unfolding accept_session
  accept_session_rest s off = rw off refl

  -- Until the context is stopped one operation at most is pending, and before Start none; after it, another
  -- Start would abort, also while a Stop has begun.
  pub record Single (s : Server Session) : Type ℓ where
    pub on_start : s.engine.start_delegator.callbacks ≡ start_server ∷ []
    pub on_stop : s.engine.stop_delegator.callbacks ≡ stop_context ∷ stop_server ∷ []
    pub few : s.is_stopped ≡ false → pending s ≤ 1
    pub idle :
        s.is_stopped ≡ false → s.engine.is_run ≡ false → s.is_stopping ≡ false → pending s ≡ 0
    pub started : s.engine.is_run ≡ true → start_threads debug s.engine.threads ≡ aborts
    pub halted : s.is_stopping ≡ true → start_threads debug s.engine.threads ≡ aborts
    pub off : s.is_stopping ≡ true → s.engine.is_run ≡ false

  -- A server with nothing pending calls AcceptSession.
  pub accept-Single :
      (s : Server Session)
      → Single s
      → (s.is_stopped ≡ false → pending s ≡ 0)
      → Single (accept_session s)
  accept-Single s v none_pending =
      let (f, e) = accept_session-Frame s in
      record {
        on_start = ap (λ d. d.callbacks) f.on_start ∙ v.on_start;
        on_stop = ap (λ d. d.callbacks) f.on_stop ∙ v.on_stop;
        few = λ open_. omega (arith, e, none_pending (sym f.is_stopped ∙ open_));
        idle = λ open_ off rest.
            ap pending (accept_session_rest s (sym f.is_run ∙ off))
            ∙ none_pending (sym f.is_stopped ∙ open_);
        started = λ run. ap (start_threads debug) f.threads ∙ v.started (sym f.is_run ∙ run);
        halted = λ halt. ap (start_threads debug) f.threads ∙ v.halted (sym f.is_stopping ∙ halt);
        off = λ halt. f.is_run ∙ v.off (sym f.is_stopping ∙ halt);
      }
