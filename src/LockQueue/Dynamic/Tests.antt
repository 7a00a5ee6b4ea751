-- ===== src/LockQueue/Dynamic/Tests.antt =====
-- Runs of the growing queue on small inputs.
use tux_base_mmo.Common.{ℕ, ◌≡◌, refl, Option, some, none, [], ◌∷◌, ◌++◌, arith}
use tux_base_mmo.Mutex.{System, outside, locks, accesses, unlocks, Reach, begin, later}
use tux_base_mmo.LockQueue.Dynamic.{LockQueue, new_queue, push}
use tux_base_mmo.LockQueue.Dynamic.Laws.{Call, pushes, tries, pushed}
use tux_base_mmo.LockQueue.Dynamic.Threads.{body, handed, threads_fifo}

-- Thread 0 pushes; then thread 1 takes what it pushed.
shared_by_two : (s : System (LockQueue ℕ) (Option ℕ) (Call ℕ)) × Reach body new_queue s
unfolding body push
shared_by_two = (
  _,
  later
      (later
        (later
          (later
            (later
              (later
                (later (later begin (locks 0 (pushes 5) refl refl))
                  (accesses 0 (pushes 5) _ _ refl))
                (unlocks 0 (pushes 5) none refl))
              (locks 1 tries refl refl))
            (accesses 1 tries _ _ refl))
          (accesses 1 tries _ _ refl))
        (accesses 1 tries _ _ refl))
      (unlocks 1 tries (some 5) refl),
)

shared_by_two_outside : (i : ℕ) → shared_by_two.0.threads i ≡ outside
unfolding shared_by_two
shared_by_two_outside i = ground arith

threads_fifo_example :
    handed {A = ℕ} (none ∷ some 5 ∷ []) ++ [] ≡ ◌++◌ {A = ℕ} [] (pushed (pushes 5 ∷ tries ∷ []))
unfolding shared_by_two
threads_fifo_example = threads_fifo shared_by_two.1 shared_by_two_outside
