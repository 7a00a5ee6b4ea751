-- ===== src/LockStack/Dynamic.antt =====
-- `LockStack<T, 0>`: a stack in a vector that grows.
pub mod Laws
pub mod Threads
mod Tests
use tux_base_mmo.Common.{
  ℕ, ◌%◌, Bool, true, false, not, Option, none, some, List, [], ◌∷◌, length, replicate, u32_mod,
}
use tux_base_mmo.Verify.{Build, Outcome, returns, undefined, ◌>>=◌, ◌>>◌, assert}

-- `m_stack`; the head of the list is the back of the vector.
pub record LockStack {ℓ} (A : Type ℓ) : Type ℓ where
  pub stack : List A

module _ {ℓ} {A : Type ℓ} where
  -- `LockStack()`
  abbrev pub new_stack : LockStack A
  new_stack = record { stack = [] }

  -- `LockStack(UINT32 initSize, const Args&... args)`
  abbrev pub filled_stack : ℕ → A → LockStack A
  filled_stack size a = record { stack = replicate size a }

  -- `Reserve`: memory only.
  abbrev pub reserve : LockStack A → ℕ → LockStack A
  reserve s size = s

  -- `Push` of an lvalue or an rvalue, and `Emplace` of what is constructed
  unfoldable pub push : LockStack A → A → LockStack A
  push s a = record { stack = a ∷ s.stack }

  abbrev pub is_empty_list : List A → Bool
  is_empty_list [] = true
  is_empty_list (a ∷ rest) = false

  -- `m_stack.back()` and `m_stack.pop_back()`, undefined on an empty vector
  abbrev pub take_back : List A → Outcome (LockStack A × A)
  take_back [] = undefined
  take_back (a ∷ rest) = returns (record { stack = rest }, a)

  -- `Pop`
  unfoldable pub pop : Build → LockStack A → Outcome (LockStack A × A)
  pop build s = do assert build (not (is_empty_list s.stack)); take_back s.stack

  abbrev pub try_take : List A → LockStack A × Option A
  try_take [] = (new_stack, none)
  try_take (a ∷ rest) = (record { stack = rest }, some a)

  -- `TryPop`: `none` is the result `false`.
  unfoldable pub try_pop : LockStack A → LockStack A × Option A
  try_pop s = try_take s.stack

  -- `GetSize`, with its cast to UINT32
  unfoldable pub get_size : LockStack A → ℕ
  get_size s = length s.stack % u32_mod

  -- `IsEmpty`
  unfoldable pub is_empty : LockStack A → Bool
  is_empty s = is_empty_list s.stack
