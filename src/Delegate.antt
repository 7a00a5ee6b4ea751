-- ===== src/Delegate.antt =====
-- 01_Server/Src/01_ServerBase/Include/DataStruct/Delegate.h: callbacks that are called in turn. A
-- `std::function` is a name for its code, and `call` is what calling it does to the state.
pub mod Order
mod Tests
use tux_base_mmo.Common.{ℕ, ◌%◌, List, [], ◌∷◌, ◌++◌, length, u32_mod}
use tux_base_mmo.Verify.{Outcome, returns, ◌>>=◌}

-- `m_callbacks`
pub record Delegate {ℓ} (Callback : Type ℓ) : Type ℓ where
  pub callbacks : List Callback

module _ {ℓ} {Callback : Type ℓ} where
  -- `Delegate::Delegate`
  abbrev pub new_delegate : Delegate Callback
  new_delegate = record { callbacks = [] }

  -- `Delegate::Subscribe`
  unfoldable pub subscribe : Delegate Callback → Callback → Delegate Callback × ℕ
  subscribe d callback =
      (record { callbacks = d.callbacks ++ (callback ∷ []) }, length d.callbacks % u32_mod)

  module _ {κ μ} {Args : Type κ} {State : Type μ}
      (call : Callback → Args → State → Outcome State) where
    abbrev pub call_each : List Callback → Args → State → Outcome State
    call_each [] args s = returns s
    call_each (callback ∷ rest) args s = call callback args s >>= call_each rest args

    -- `Delegate::Invoke`
    unfoldable pub invoke : Delegate Callback → Args → State → Outcome State
    invoke d args s = call_each d.callbacks args s

  -- `Delegate::Count`
  unfoldable pub count : Delegate Callback → ℕ
  count d = length d.callbacks % u32_mod

  -- `Delegate::Clear`
  abbrev pub clear : Delegate Callback → Delegate Callback
  clear d = record d { callbacks = [] }
