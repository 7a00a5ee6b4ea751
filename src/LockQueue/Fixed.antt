-- ===== src/LockQueue/Fixed.antt =====
-- `LockQueue<T, Size>`: a ring of `Size` cells, for `0 < Size` (`Size == 0` is the other queue).
pub mod Laws
mod Tests
use tux_base_mmo.Common.{
  ℕ, ◌%◌, Bool, true, false, Option, none, some, List, [], ◌∷◌, ltb, ◌==◌, if◌then◌else◌, add32,
  sub32,
}
use tux_base_mmo.Verify.{Build, Outcome, returns, undefined, ◌>>=◌, ◌>>◌, assert, crash}

-- `m_queue` is the function from an index to its cell.
pub record LockQueue {ℓ} (A : Type ℓ) : Type ℓ where
  pub head_index : ℕ
  pub tail_index : ℕ
  pub count : ℕ
  pub queue : ℕ → A

module _ {ℓ} {A : Type ℓ} where
  -- One cell of the array written.
  abbrev pub set_cell : (ℕ → A) → ℕ → A → ℕ → A
  set_cell cells i a j = if j == i then a else cells j

  -- `LockQueue()`
  abbrev pub new_queue : (ℕ → A) → LockQueue A
  new_queue cells = record { head_index = 0; tail_index = 0; count = 0; queue = cells }

  -- `Push` of an lvalue or an rvalue, and `Emplace` of what is constructed. CRASH is not under DEBUG.
  -- `std::array::operator[]` past the end is undefined.
  unfoldable pub push : ℕ → LockQueue A → A → Outcome (LockQueue A)
  push size q a =
      if ltb q.count size
      then crash
      else if ltb q.tail_index size
      then returns (record q {
        queue = set_cell q.queue q.tail_index a;
        tail_index = add32 q.tail_index 1 % size;
        count = add32 q.count 1;
      })
      else undefined

  -- What `Pop` and `TryPop` do once the queue is known not to be empty.
  abbrev pub take_head : ℕ → LockQueue A → Outcome (LockQueue A × A)
  take_head size q =
      if ltb q.head_index size
      then returns (
        record q { head_index = add32 q.head_index 1 % size; count = sub32 q.count 1 },
        q.queue q.head_index,
      )
      else undefined

  -- `Pop`
  unfoldable pub pop : Build → ℕ → LockQueue A → Outcome (LockQueue A × A)
  pop build size q = do assert build (ltb 0 q.count); take_head size q

  -- `TryPop`: `none` is the result `false`.
  unfoldable pub try_pop : ℕ → LockQueue A → Outcome (LockQueue A × Option A)
  try_pop size q =
      if 0 == q.count
      then returns (q, none)
      else take_head size q >>= λ (q', a). returns (q', some a)

  -- `GetSize`
  unfoldable pub get_size : LockQueue A → ℕ
  get_size q = q.count

  -- `IsEmpty`
  unfoldable pub is_empty : LockQueue A → Bool
  is_empty q = 0 == q.count
