-- ===== src/BoostAcceptor/Steps.antt =====
-- The histories of a server: Start, Stop, and what Asio completes.
use tux_base_mmo.Common.{ℕ, ◌+◌, ◌-◌, ◌<◌, ◌≡◌, Bool, true, false, List, [], ◌∷◌, ◌++◌}
use tux_base_mmo.Verify.{Build, Outcome, returns}
use tux_base_mmo.BoostAcceptor.{
  Server, ErrorCode, idle_server, start, stop, finish_stop, complete_acception, complete_wait,
}

pub data Event {ℓ} (Session : Type ℓ) : Type ℓ where
  starts stops finishes : Event Session
  accepts :
      (before : List Session) (session : Session) (after : List Session) → ErrorCode → Event Session
  waits : Bool → Event Session

abbrev pub tally : Bool → ℕ
tally true = 1
tally false = 0

module _ {ℓ} {Session : Type ℓ} where
  -- A handler runs only while the io_context is not stopped; a Stop goes on only if it has begun.
  abbrev pub Allowed : Server Session → Event Session → Type ℓ
  Allowed s starts = Unit {ℓ}
  Allowed s stops = Unit {ℓ}
  Allowed s finishes = (s.is_stopping ≡ true) × Unit {ℓ}
  Allowed s (accepts before session after code) =
      (s.accepting ≡ before ++ session ∷ after) × (s.is_stopped ≡ false)
  Allowed s (waits failed) = (0 < s.waiting) × (s.is_stopped ≡ false) × Unit {ℓ}

  unfoldable pub step : Build → Server Session → Event Session → Outcome (Server Session)
  step build s starts = start build s
  step build s stops = returns (stop s)
  step build s finishes = finish_stop s
  step build s (accepts before session after code) =
      returns (complete_acception (record s { accepting = before ++ after }) session code)
  step build s (waits failed) =
      returns (complete_wait (record s { waiting = s.waiting - 1 }) failed)

  -- How many sessions of a list a test holds for.
  abbrev pub count_if : (Session → Bool) → List Session → ℕ
  count_if p [] = 0
  count_if p (x ∷ xs) = tally (p x) + count_if p xs

-- The servers that a history leads to, from one at rest with the sessions `initial` in its pool.
pub data Reach {ℓ} {Session : Type ℓ} (build : Build) (initial : List Session)
    : Server Session → Type ℓ where
  begin : (io_thread_count : ℕ) → Reach build initial (idle_server io_thread_count initial)
  later :
      {s t : Server Session} (e : Event Session)
      → Reach build initial s
      → Allowed s e
      → step build s e ≡ returns t
      → Reach build initial t
