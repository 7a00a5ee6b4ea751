-- ===== src/LockQueue/Fixed/Laws.antt =====
-- The array queue: TryPop and Pop take the front, and Push refuses every queue that has room.
use native.Mathlib.Nat.{mod-add-mod, mod-eq_of_lt, mod-eq-sub-mod}
use tux_base_mmo.Common.{
  ℕ, zero, suc, ◌+◌, ◌-◌, ◌%◌, ◌≤◌, ◌<◌, ◌≡◌, refl, sym, ap, ◌∙◌, Option, none, some, List, [], ◌∷◌,
  arith, u32_mod, add32, sub32, add32_exact, sub32_exact,
}
use tux_base_mmo.Verify.{Build, debug, release, returns, aborts}
use tux_base_mmo.LockQueue.Fixed.{LockQueue, set_cell, new_queue, push, pop, try_pop}

module _ {ℓ} {A : Type ℓ} where
  -- The `n` elements from index `h` on, going round at `size`.
  abbrev pub window : (ℕ → A) → ℕ → ℕ → ℕ → List A
  window cells size h zero = []
  window cells size h (suc n) = cells h ∷ window cells size ((h + 1) % size) n

  -- The elements, front first.
  abbrev pub contents : ℕ → LockQueue A → List A
  contents size q = window q.queue size q.head_index q.count

  window_pred :
      (cells : ℕ → A) (size h n : ℕ)
      → 0 < n
      → window cells size h n ≡ cells h ∷ window cells size ((h + 1) % size) (n - 1)
  window_pred cells size h zero pos = absurd (omega arith)
  window_pred cells size h (suc n) pos =
      ap (λ k. cells h ∷ window cells size ((h + 1) % size) k) {x = n} {y = suc n - 1} (omega arith)

  -- What is true of a queue whose indices and count are in range.
  pub record IsValid (size : ℕ) (q : LockQueue A) : Type 0 where
    pub small : size + 1 < u32_mod
    pub head_in : q.head_index < size
    pub tail_in : q.tail_index < size
    pub count_in : q.count ≤ size
    pub tail_at : q.tail_index ≡ (q.head_index + q.count) % size

  module _ {size : ℕ} {q : LockQueue A} (v : IsValid size q) where
    abbrev taken : LockQueue A
    taken = record q { head_index = (q.head_index + 1) % size; count = q.count - 1 }

    taken-IsValid : 0 < q.count → IsValid size taken
    taken-IsValid pos = record {
      small = v.small;
      head_in = omega arith;
      tail_in = v.tail_in;
      count_in = omega arith;
      tail_at =
          v.tail_at
          ∙ ap (λ k. k % size) {y = q.head_index + 1 + (q.count - 1)} (omega arith)
          ∙ sym (mod-add-mod (q.head_index + 1) size (q.count - 1));
    }

    -- Pop and TryPop of a valid queue that is not empty return in either build, take the front, and
    -- leave the rest and a valid queue.
    pub pop_front :
        (build : Build)
        → 0 < q.count
        → (t : LockQueue A) × (a : A) × (pop build size q ≡ returns (t, a))
          × (try_pop size q ≡ returns (t, some a))
          × (contents size q ≡ a ∷ contents size t)
          × IsValid size t
    pop_front build pos = (
      taken,
      q.queue q.head_index,
      popped build,
      unfold try_pop in ground (arith, v, exact, less),
      window_pred q.queue size q.head_index q.count pos,
      taken-IsValid pos,
    )
      where
        open q use {head_index}

        exact : add32 q.head_index 1 ≡ q.head_index + 1
        exact = add32_exact q.head_index 1 (omega arith)

        less : sub32 q.count 1 ≡ q.count - 1
        less = sub32_exact q.count 1 (omega arith) (omega arith)

        popped : (b : Build) → pop b size q ≡ returns (taken, q.queue q.head_index)
        popped debug = unfold pop in ground (arith, v, exact, less)
        popped release = unfold pop in ground (arith, v, exact, less)

  -- A Push of a queue with room ends the program, in either build.
  pub push_room : (size : ℕ) (q : LockQueue A) (a : A) → q.count < size → push size q a ≡ aborts
  unfolding push
  push_room size q a room = ground arith

  -- A Push of a valid queue that is full returns, puts its element where the front was, and leaves
  -- a count above the size.
  pub push_inverted :
      (size : ℕ) (q : LockQueue A) (a : A)
      → IsValid size q
      → q.count ≡ size
      → (t : LockQueue A) × (push size q a ≡ returns t)
        × (t.queue q.head_index ≡ a)
        × (t.count ≡ size + 1)
  push_inverted size q a v full = (
    record q {
      queue = set_cell q.queue q.tail_index a;
      tail_index = add32 q.tail_index 1 % size;
      count = add32 q.count 1;
    },
    unfold push in ground (arith, v),
    ground (arith, wraps),
    add32_exact q.count 1 (omega arith) ∙ ap (λ n. n + 1) full,
  )
    where
      wraps : q.tail_index ≡ q.head_index
      wraps =
          v.tail_at
          ∙ ap (λ n. (q.head_index + n) % size) full
          ∙ mod-eq-sub-mod {n = q.head_index + size} {m = size} (omega arith)
          ∙ ap (λ n. n % size) {x = q.head_index + size - size} {y = q.head_index} (omega arith)
          ∙ mod-eq_of_lt (v.head_in)

-- The queues that a history of calls leads to from the constructor, in a debug build: with a call
-- that aborts the history ends.
pub data Reach {ℓ} {A : Type ℓ} (size : ℕ) : LockQueue A → Type ℓ where
  begin : (cells : ℕ → A) → Reach size (new_queue cells)
  pushed : {q t : LockQueue A} (a : A) → Reach size q → push size q a ≡ returns t → Reach size t
  popped :
      {q t : LockQueue A} {a : A} → Reach size q → pop debug size q ≡ returns (t, a) → Reach size t
  tried :
      {q t : LockQueue A} {o : Option A}
      → Reach size q
      → try_pop size q ≡ returns (t, o)
      → Reach size t

module _ {ℓ} {A : Type ℓ} where
  pop-none : (size : ℕ) (q : LockQueue A) → q.count ≡ 0 → pop debug size q ≡ aborts
  unfolding pop
  pop-none size q e = ground arith

  try_pop-none : (size : ℕ) (q : LockQueue A) → q.count ≡ 0 → try_pop size q ≡ returns (q, none)
  unfolding try_pop
  try_pop-none size q e = ground arith

  stays_empty : {size : ℕ} {q : LockQueue A} → 0 < size → Reach size q → q.count ≡ 0
  stays_empty pos (begin cells) = refl
  stays_empty {size} pos (pushed {q} a r e) =
      let empty = stays_empty pos r in cc (push_room size q a (omega arith))
  stays_empty {size} pos (popped {q} r e) = cc (pop-none size q (stays_empty pos r))
  stays_empty {size} pos (tried {q} r e) =
      let empty = stays_empty pos r in ground (arith, try_pop-none size q empty)

  -- In a debug build no history of calls from the constructor puts an element into a queue of at least
  -- one cell: the queue is always empty, and every Push aborts.
  pub never_holds :
      {size : ℕ} {q : LockQueue A} (a : A)
      → 0 < size
      → Reach size q
      → (q.count ≡ 0) × (push size q a ≡ aborts)
  never_holds {size} {q} a pos r =
      let empty = stays_empty pos r in (empty, push_room size q a (omega arith))
