-- ===== src/LockQueue/Dynamic.antt =====
-- `LockQueue<T, 0>`: a `std::queue` that grows.
pub mod Laws
pub mod Threads
mod Tests
use tux_base_mmo.Common.{
  ℕ, ◌%◌, Bool, true, false, not, Option, none, some, List, [], ◌∷◌, ◌++◌, length, u32_mod,
}
use tux_base_mmo.Verify.{Build, Outcome, returns, undefined, ◌>>=◌, ◌>>◌, assert}

-- `m_queue`, front first
pub record LockQueue {ℓ} (A : Type ℓ) : Type ℓ where
  pub queue : List A

module _ {ℓ} {A : Type ℓ} where
  -- `LockQueue()`
  abbrev pub new_queue : LockQueue A
  new_queue = record { queue = [] }

  -- `Push` of an lvalue or an rvalue, and `Emplace` of what is constructed
  unfoldable pub push : LockQueue A → A → LockQueue A
  push q a = record { queue = q.queue ++ (a ∷ []) }

  abbrev pub is_empty_list : List A → Bool
  is_empty_list [] = true
  is_empty_list (a ∷ rest) = false

  -- `m_queue.front()` and `m_queue.pop()`, undefined on an empty queue
  abbrev pub take_front : List A → Outcome (LockQueue A × A)
  take_front [] = undefined
  take_front (a ∷ rest) = returns (record { queue = rest }, a)

  -- `Pop`
  unfoldable pub pop : Build → LockQueue A → Outcome (LockQueue A × A)
  pop build q = do assert build (not (is_empty_list q.queue)); take_front q.queue

  abbrev pub try_take : List A → LockQueue A × Option A
  try_take [] = (new_queue, none)
  try_take (a ∷ rest) = (record { queue = rest }, some a)

  -- `TryPop`: `none` is the result `false`.
  unfoldable pub try_pop : LockQueue A → LockQueue A × Option A
  try_pop q = try_take q.queue

  -- `GetSize`, with its cast to UINT32
  unfoldable pub get_size : LockQueue A → ℕ
  get_size q = length q.queue % u32_mod

  -- `IsEmpty`
  unfoldable pub is_empty : LockQueue A → Bool
  is_empty q = is_empty_list q.queue
