-- ===== src/LockStack/Dynamic/Tests.antt =====
-- Runs of the growing stack on small inputs.
use mathlib.Core.List.{Perm}
use tux_base_mmo.Common.{ℕ, ◌≡◌, refl, Option, some, none, [], ◌∷◌, ◌++◌, arith}
use tux_base_mmo.Mutex.{System, outside, locks, accesses, unlocks, Reach, begin, later}
use tux_base_mmo.LockStack.Dynamic.{LockStack, filled_stack, push}
use tux_base_mmo.LockStack.Dynamic.Laws.{Call, pushes, tries, pushed}
use tux_base_mmo.LockStack.Dynamic.Threads.{body, handed, threads-perm}

abbrev two_sevens : LockStack ℕ
two_sevens = filled_stack 2 7

-- Thread 0 pushes; then thread 1 takes what it pushed.
shared_by_two : (s : System (LockStack ℕ) (Option ℕ) (Call ℕ)) × Reach body two_sevens s
unfolding body push
shared_by_two = (
  _,
  later
      (later
        (later
          (later
            (later
              (later
                (later (later begin (locks 0 (pushes 5) refl refl))
                  (accesses 0 (pushes 5) _ _ refl))
                (unlocks 0 (pushes 5) none refl))
              (locks 1 tries refl refl))
            (accesses 1 tries _ _ refl))
          (accesses 1 tries _ _ refl))
        (accesses 1 tries _ _ refl))
      (unlocks 1 tries (some 5) refl),
)

shared_by_two_outside : (i : ℕ) → shared_by_two.0.threads i ≡ outside
unfolding shared_by_two
shared_by_two_outside i = ground arith

threads-perm_example :
    Perm
      (handed (none ∷ some 5 ∷ []) ++ two_sevens.stack)
      (two_sevens.stack ++ pushed (pushes 5 ∷ tries ∷ []))
unfolding shared_by_two push
threads-perm_example = threads-perm shared_by_two.1 shared_by_two_outside
