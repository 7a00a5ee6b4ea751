-- ===== src/LockStack/Fixed/Tests.antt =====
-- Runs of the array stack on small inputs.
use tux_base_mmo.Common.{ℕ, ◌≡◌, refl, Option, some, none, [], ◌∷◌, arith, add32, sub32}
use tux_base_mmo.Verify.{debug, release, returns, aborts}
use tux_base_mmo.LockStack.Fixed.{LockStack, new_stack, filled_stack}
use tux_base_mmo.Mutex.{System, outside, locks, accesses, unlocks, Reach, begin, later}
use tux_base_mmo.LockStack.Fixed.Threads.{body, threads-list_run}
use tux_base_mmo.LockStack.Fixed.Runs.{Call, pushes, pops, tries, list_run}

abbrev empty_stack : LockStack ℕ
empty_stack = new_stack (λ i. 0)

abbrev full_stack : LockStack ℕ
full_stack = filled_stack 3 7

-- A pop of nothing stops a debug build.
list_run_pops : list_run {A = ℕ} debug 3 [] (pushes 5 ∷ tries ∷ pops ∷ []) ≡ aborts
unfolding list_run
list_run_pops = refl

-- Thread 0 pushes; then thread 1 pops.
shared_by_two :
    (s : System (LockStack ℕ) (Option ℕ) (Call ℕ)) × Reach (body release 3) empty_stack s
unfolding body add32 sub32
shared_by_two = (
  _,
  later
      (later
        (later
          (later
            (later
              (later
                (later (later begin (locks 0 (pushes 5) refl refl))
                  (accesses 0 (pushes 5) _ _ refl))
                (accesses 0 (pushes 5) _ _ refl))
              (unlocks 0 (pushes 5) none refl))
            (locks 1 pops refl refl))
          (accesses 1 pops _ _ refl))
        (accesses 1 pops _ _ refl))
      (unlocks 1 pops (some 5) refl),
)

shared_by_two_outside : (i : ℕ) → shared_by_two.0.threads i ≡ outside
unfolding shared_by_two
shared_by_two_outside i = ground arith

threads-list_run_example :
    list_run {A = ℕ} release 3 [] (pushes 5 ∷ pops ∷ []) ≡ returns ([], none ∷ some 5 ∷ [])
unfolding shared_by_two add32 sub32
threads-list_run_example =
    threads-list_run release 3 (omega arith) (omega arith) shared_by_two.1 shared_by_two_outside
