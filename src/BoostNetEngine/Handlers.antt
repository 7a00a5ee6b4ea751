-- ===== src/BoostNetEngine/Handlers.antt =====
-- What a handler of the acceptor leaves as it is.
use tux_base_mmo.Common.{
  ℕ, ◌-◌, ◌≡◌, refl, subst, ◌∙◌, Bool, true, false, not, if◌then◌else◌, List, ◌∷◌, ◌++◌,
}
use tux_base_mmo.Verify.{Build, returns, returns_injective}
use tux_base_mmo.NetEngine.{release_session}
use tux_base_mmo.BoostAcceptor.{
  Server, ErrorCode, success, operation_aborted, other_error, give_back, accept_session,
  complete_acception, complete_wait,
}
use tux_base_mmo.BoostAcceptor.Frame.{Frame, accept_session-Frame}
use tux_base_mmo.BoostAcceptor.Steps
use tux_base_mmo.BoostAcceptor.Steps.{accepts, waits}

module _ {ℓ} {Session : Type ℓ} where
  Frame-same : (s : Server Session) → Frame s s
  Frame-same s = record {
    is_run = refl;
    is_stopped = refl;
    is_stopping = refl;
    threads = refl;
    on_start = refl;
    on_stop = refl;
  }

  if-Frame :
      (b : Bool) (s t u : Server Session) → Frame s t → Frame s u → Frame s (if b then t else u)
  if-Frame true s t u f g = f
  if-Frame false s t u f g = g

  again-Frame : (s t : Server Session) → Frame s t → Frame s (accept_session t)
  again-Frame s t f =
      let g = (accept_session-Frame t).0 in
      record {
        is_run = g.is_run ∙ f.is_run;
        is_stopped = g.is_stopped ∙ f.is_stopped;
        is_stopping = g.is_stopping ∙ f.is_stopping;
        threads = g.threads ∙ f.threads;
        on_start = g.on_start ∙ f.on_start;
        on_stop = g.on_stop ∙ f.on_stop;
      }

  give_back-Frame : (s : Server Session) (x : Session) → Frame s (give_back s x)
  unfolding release_session
  give_back-Frame s x = record {
    is_run = refl;
    is_stopped = refl;
    is_stopping = refl;
    threads = refl;
    on_start = refl;
    on_stop = refl;
  }

  complete_acception-Frame :
      (s : Server Session) (x : Session) (code : ErrorCode) → Frame s (complete_acception s x code)
  unfolding complete_acception
  complete_acception-Frame s x success =
      if-Frame (not s.engine.is_run) s _ _ (give_back-Frame s x) (
        again-Frame s (record s { lost = x ∷ s.lost })
          (record {
            is_run = refl;
            is_stopped = refl;
            is_stopping = refl;
            threads = refl;
            on_start = refl;
            on_stop = refl;
          }))
  complete_acception-Frame s x operation_aborted = give_back-Frame s x
  complete_acception-Frame s x other_error =
      if-Frame (not s.engine.is_run) s _ _ (give_back-Frame s x)
        (again-Frame s (give_back s x) (give_back-Frame s x))

  complete_wait-Frame : (s : Server Session) (failed : Bool) → Frame s (complete_wait s failed)
  unfolding complete_wait
  complete_wait-Frame s true = Frame-same s
  complete_wait-Frame s false = again-Frame s s (Frame-same s)

  shift-Frame :
      (s t : Server Session) (l : List Session) (n : ℕ)
      → Frame (record s { accepting = l; waiting = n }) t
      → Frame s t
  shift-Frame s t l n f = record {
    is_run = f.is_run;
    is_stopped = f.is_stopped;
    is_stopping = f.is_stopping;
    threads = f.threads;
    on_start = f.on_start;
    on_stop = f.on_stop;
  }

  pub accepts-Frame :
      (build : Build) (s t : Server Session) (before : List Session) (x : Session)
      (after : List Session) (code : ErrorCode)
      → Steps.step build s (accepts before x after code) ≡ returns t
      → Frame s t
  unfolding Steps.step
  accepts-Frame build s t before x after code e = subst (Frame s) (returns_injective e) (
      shift-Frame s _ (before ++ after) s.waiting
        (complete_acception-Frame (record s { accepting = before ++ after }) x code))

  pub waits-Frame :
      (build : Build) (s t : Server Session) (failed : Bool)
      → Steps.step build s (waits failed) ≡ returns t
      → Frame s t
  unfolding Steps.step
  waits-Frame build s t failed e = subst (Frame s) (returns_injective e) (
      shift-Frame s _ s.accepting (s.waiting - 1)
        (complete_wait-Frame (record s { waiting = s.waiting - 1 }) failed))
