-- ===== src/Factory.antt =====
-- 01_Server/Src/01_ServerBase/Include/DataStruct/Factory.h: a factory keeps the arguments of a constructor.
pub mod Pool
mod Tests
use tux_base_mmo.Common.{ℕ, Option, some}

-- `IFactory`: what each call of Create returns, a null pointer included
pub record IFactory {ℓ} (Base : Type ℓ) : Type ℓ where
  pub create : ℕ → Option Base

-- `Factory`, with `m_args`
pub record Factory {ℓ} (Args : Type ℓ) : Type ℓ where
  pub args : Args

module _ {ℓ κ} {Args : Type ℓ} {Base : Type κ} where
  -- `Factory::Create`; `make_shared` is the constructor of `Derived`, as a `Base`.
  unfoldable pub create : (make_shared : Args → Base) → Factory Args → Base
  create make_shared f = make_shared f.args

  -- A factory as what it implements
  abbrev pub factory_of : (make_shared : Args → Base) → Factory Args → IFactory Base
  factory_of make_shared f = record { create = λ call. some (create make_shared f) }
