-- ===== src/BoostNetEngine/Steps.antt =====
-- The histories of a runtime: what a server does and Asio completes, the threads that come back from
-- `run`, and the end of Stop.
use tux_base_mmo.Common.{ℕ, zero, suc, ◌<◌, ◌≡◌, ◌⊎◌, true, false, List}
use tux_base_mmo.Verify.{Build, Outcome, returns, ◌>>=◌}
use tux_base_mmo.BoostAcceptor.Frame.{pending}
use tux_base_mmo.BoostAcceptor.Steps
use tux_base_mmo.BoostAcceptor.Steps.{starts, stops, finishes, accepts, waits}
use tux_base_mmo.BoostNetEngine.{
  Runtime, idle_runtime, start, begin_stop, run_stop_events, end_stop, leave,
}

pub data Event {ℓ} (Session : Type ℓ) : Type ℓ where
  calls : Steps.Event Session → Event Session
  leaves joins : Event Session

module _ {ℓ} {Session : Type ℓ} where
  -- `run` returns when the context is stopped, or out of work.
  abbrev pub CanLeave : Runtime Session → Type 0
  CanLeave r = (r.server.is_stopped ≡ true) ⊎ ((pending r.server ≡ 0) × (r.has_guard ≡ false))

  -- A handler runs in a thread that is in `run`; Stop calls its events after its exchange, and joins when
  -- no thread is in `run`.
  abbrev pub Allowed : Runtime Session → Event Session → Type ℓ
  Allowed r (calls starts) = Unit {ℓ}
  Allowed r (calls stops) = Unit {ℓ}
  Allowed r (calls finishes) = (r.server.is_stopping ≡ true) × Unit {ℓ}
  Allowed r (calls (accepts before session after code)) =
      Steps.Allowed r.server (accepts before session after code) × (0 < r.inside)
  Allowed r (calls (waits failed)) = Steps.Allowed r.server (waits failed) × (0 < r.inside)
  Allowed r leaves = (0 < r.inside) × CanLeave r × Unit {ℓ}
  Allowed r joins = (r.joining ≡ true) × (r.inside ≡ 0) × Unit {ℓ}

  -- A handler of the acceptor
  abbrev pub handle : Build → Runtime Session → Steps.Event Session → Outcome (Runtime Session)
  handle build r e = do s ← Steps.step build r.server e; returns (record r { server = s })

  unfoldable pub step : Build → Runtime Session → Event Session → Outcome (Runtime Session)
  step build r (calls starts) = start build r
  step build r (calls stops) = returns (begin_stop r)
  step build r (calls finishes) = run_stop_events r
  step build r (calls (accepts before session after code)) =
      handle build r (accepts before session after code)
  step build r (calls (waits failed)) = handle build r (waits failed)
  step build r leaves = returns (leave r)
  step build r joins = returns (end_stop r)

-- The runtimes that a history leads to, from one at rest with at least one thread and with the sessions
-- `initial` in its pool.
pub data Reach {ℓ} {Session : Type ℓ} (build : Build) (initial : List Session)
    : Runtime Session → Type ℓ where
  begin :
      (io_thread_count : ℕ)
      → 0 < io_thread_count
      → Reach build initial (idle_runtime io_thread_count initial)
  later :
      {r t : Runtime Session} (e : Event Session)
      → Reach build initial r
      → Allowed r e
      → step build r e ≡ returns t
      → Reach build initial t

-- What one runtime becomes in a number of steps.
pub data Later {ℓ} {Session : Type ℓ} (build : Build) (r : Runtime Session)
    : ℕ → Runtime Session → Type ℓ where
  here : Later build r zero r
  next :
      {n : ℕ} {t u : Runtime Session} (e : Event Session)
      → Later build r n t
      → Allowed t e
      → step build t e ≡ returns u
      → Later build r (suc n) u

pub Later-Reach {ℓ} :
    {Session : Type ℓ} {build : Build} {initial : List Session} {r t : Runtime Session} {n : ℕ}
    → Reach build initial r
    → Later build r n t
    → Reach build initial t
Later-Reach h here = h
Later-Reach h (next e l a eq) = later e (Later-Reach h l) a eq
