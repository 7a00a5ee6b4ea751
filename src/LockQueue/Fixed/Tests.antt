-- ===== src/LockQueue/Fixed/Tests.antt =====
-- Runs of the array queue on small inputs.
use tux_base_mmo.Common.{ℕ, ◌≡◌, refl, add32, sub32, [], ◌∷◌, arith}
use tux_base_mmo.Verify.{debug, returns, aborts}
use tux_base_mmo.LockQueue.Fixed.{LockQueue, new_queue, push, pop, try_pop}
use tux_base_mmo.LockQueue.Fixed.Laws.{contents, begin, tried, push_room, never_holds}

abbrev empty_queue : LockQueue ℕ
empty_queue = new_queue (λ i. 0)

-- Three elements, the front at index 2 and the others behind it, going round.
abbrev full_queue : LockQueue ℕ
full_queue = record { head_index = 2; tail_index = 2; count = 3; queue = λ i. i }

front_of_full :
    (t : LockQueue ℕ) × (pop debug 3 full_queue ≡ returns (t, 2)) × (contents 3 t ≡ 0 ∷ 1 ∷ [])
unfolding pop add32 sub32
front_of_full = (_, refl, refl)

push_aborts : push 3 empty_queue 5 ≡ aborts
push_aborts = push_room 3 empty_queue 5 (omega arith)

never_holds_example : (empty_queue.count ≡ 0) × (push 3 empty_queue 5 ≡ aborts)
unfolding try_pop
never_holds_example = never_holds 5 (omega arith) (tried (begin (λ i. 0)) refl)
