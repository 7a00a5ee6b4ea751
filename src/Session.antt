-- ===== src/Session.antt =====
-- 01_Server/Src/02_ServerEngine/Include/EngineCommon/Session.h: what an engine and the game know of a
-- session, and how BoostSession fills it.
use tux_base_mmo.Common.{ℕ, ◌≡◌, sym, ap, Bool}
use tux_base_mmo.Verify.{Build, Outcome, returns, ◌>>=◌, returns_injective, bind_inverse}
use tux_base_mmo.BoostSession
use tux_base_mmo.BoostSession.{BoostSession, BufferPtr}

-- `ISession`, over the state of an object of a derived class
pub record ISession (State : Type 0) : Type 0 where
  pub get_session_id : State → ℕ
  pub send : State → BufferPtr → Outcome (State × Bool)

-- `Session`
pub record Session : Type 0 where
  pub session_id : ℕ

-- `Session::Session`
abbrev pub session_of : ℕ → Session
session_of session_id = record { session_id = session_id }

-- `Session::GetSessionID`
abbrev pub get_session_id : Session → ℕ
get_session_id s = s.session_id

-- A `BoostSession` with its base class
pub record WithBase : Type 0 where
  pub base : Session
  pub members : BoostSession

-- `BoostSession::BoostSession`, its base class included
unfoldable pub new_with_base : Build → Bool → ℕ → Outcome WithBase
new_with_base build has_engine session_id = do
  members ← BoostSession.new_session build has_engine
  returns (record { base = session_of session_id; members = members })

-- `BoostSession` as an `ISession`
abbrev pub as_session : Build → ISession WithBase
as_session build = record {
  get_session_id = λ s. get_session_id s.base;
  send = λ s b. do
    (members, sent) ← BoostSession.send build s.members b
    returns (record { base = s.base; members = members }, sent);
}

-- A Send through the interface, in either build, does not change the identifier.
get_session_id-send :
    (build : Build) (s : WithBase) {t : WithBase} (b : BufferPtr) {sent : Bool}
    → (as_session build).send s b ≡ returns (t, sent)
    → (as_session build).get_session_id t ≡ (as_session build).get_session_id s
get_session_id-send build s b e =
    let (_, _, same) = bind_inverse (BoostSession.send build s.members b) _ e in
    sym (ap (λ p. p.0.base.session_id) (returns_injective same))
