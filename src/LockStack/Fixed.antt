-- ===== src/LockStack/Fixed.antt =====
-- `LockStack<T, Size>`: a stack in an array of `Size` cells.
pub mod Laws
pub mod Runs
pub mod Threads
mod Tests
use tux_base_mmo.Common.{
  ℕ, ◌+◌, ◌%◌, Bool, true, false, Option, none, some, ltb, ◌==◌, if◌then◌else◌, add32, sub32,
}
use tux_base_mmo.Verify.{Build, Outcome, returns, undefined, ◌>>=◌, ◌>>◌, assert}

-- `m_stack` is the function from an index to its cell.
pub record LockStack {ℓ} (A : Type ℓ) : Type ℓ where
  pub top_index : ℕ
  pub stack : ℕ → A

module _ {ℓ} {A : Type ℓ} where
  -- One cell of the array written.
  abbrev pub set_cell : (ℕ → A) → ℕ → A → ℕ → A
  set_cell cells i a j = if j == i then a else cells j

  -- `LockStack()`
  abbrev pub new_stack : (ℕ → A) → LockStack A
  new_stack cells = record { top_index = 0; stack = cells }

  -- `LockStack(const Args&... args)`: every cell holds `T(args...)`.
  abbrev pub filled_stack : ℕ → A → LockStack A
  filled_stack size a = record { top_index = size; stack = λ i. a }

  module _ (build : Build) (size : ℕ) where
    -- `Push` of an lvalue or an rvalue, and `Emplace` of what is constructed. `std::array::operator[]`
    -- past the end is undefined.
    unfoldable pub push : LockStack A → A → Outcome (LockStack A)
    push s a = do
      assert build (ltb s.top_index size)
      if ltb s.top_index size
          then returns
              (record { top_index = add32 s.top_index 1; stack = set_cell s.stack s.top_index a })
          else undefined

    -- `Pop`
    unfoldable pub pop : LockStack A → Outcome (LockStack A × A)
    pop s = do
      assert build (ltb 0 s.top_index)
      let top = sub32 s.top_index 1
      if ltb top size then returns (record s { top_index = top }, s.stack top) else undefined

    -- `TryPop`: `none` is the result `false`.
    unfoldable pub try_pop : LockStack A → Outcome (LockStack A × Option A)
    try_pop s =
        let top = sub32 s.top_index 1 in
        if 0 == s.top_index
        then returns (s, none)
        else if ltb top size
        then returns (record s { top_index = top }, some (s.stack top))
        else undefined

  -- `GetSize`
  unfoldable pub get_size : LockStack A → ℕ
  get_size s = s.top_index

  -- `IsEmpty`
  unfoldable pub is_empty : LockStack A → Bool
  is_empty s = 0 == s.top_index
