-- ===== src/LockStack/Fixed/Threads.antt =====
-- The methods of the array stack statement by statement, in threads that share it.
use tux_base_mmo.Common.{
  ℕ, ◌<◌, ◌≤◌, ◌≡◌, refl, sym, ap, ◌∙◌, Option, none, some, List, [], ◌∷◌, ◌++◌, ltb, ◌==◌,
  if◌then◌else◌, add32, sub32, u32_mod, Bool, true, false,
}
use tux_base_mmo.Verify.{Build, Outcome, returns, aborts, undefined, assert, bind_ext, ◌>>=◌, ◌>>◌}
use tux_base_mmo.Mutex.{
  Code, gives, crashes, misuses, access, read, assert_code, exec, outside, inside, System, Reach,
  run_calls,
}
use tux_base_mmo.Mutex.Bodies.{exec-if, exec-assert_code, >>-after}
use tux_base_mmo.Mutex.Linear.{calls_of, results_of, as_one_by_one, as_the_last}
use tux_base_mmo.LockStack.Fixed.{LockStack, set_cell, push, pop, try_pop}
use tux_base_mmo.LockStack.Fixed.Laws.{contents}
use tux_base_mmo.LockStack.Fixed.Runs.{
  Call, pushes, pops, tries, step, run, list_run, seen, with_none, with_some, run-list_run,
}

module _ {ℓ} {A : Type ℓ} (build : Build) (size : ℕ) where
  -- `m_stack[m_topIndex++] = data`, of which the index is evaluated first
  unfoldable pub push_body : A → Code (LockStack A) (Option A)
  push_body a =
      assert_code build (λ s. ltb s.top_index size)
        (access (λ s. record s { top_index = add32 s.top_index 1 })
          (λ s.
            if ltb s.top_index size
            then access (λ t. record t { stack = set_cell t.stack s.top_index a }) (λ t. gives none)
            else misuses))

  -- `std::move(m_stack[--m_topIndex])`
  unfoldable pub take_top : Code (LockStack A) (Option A)
  take_top =
      access (λ s. record s { top_index = sub32 s.top_index 1 })
        (λ s.
          if ltb (sub32 s.top_index 1) size
          then read (λ t. gives (some (t.stack (sub32 s.top_index 1))))
          else misuses)

  -- The body of each method, under the `lock_guard`
  unfoldable pub body : Call A → Code (LockStack A) (Option A)
  unfolding push_body take_top
  body (pushes a) = push_body a
  body pops = assert_code build (λ s. ltb 0 s.top_index) take_top
  body tries = read (λ s. if 0 == s.top_index then gives none else take_top)

module _ {ℓ} {A : Type ℓ} (build : Build) (size : ℕ) (s : LockStack A) where
  -- With no other thread in between, a body does what the method does.
  exec-push_body :
      (a : A) → exec (push_body build size a) s ≡ with_none build size (push build size s a)
  unfolding push_body push exec
  exec-push_body a =
      exec-assert_code build (λ s. ltb s.top_index size) _ s
      ∙ ap (λ o. assert build (ltb s.top_index size) >> o) (written (ltb s.top_index size))
      ∙ >>-after (assert build (ltb s.top_index size)) _ (λ t. returns (t, none))
    where
      written :
          (b : Bool)
          → exec
              (if b
                then access
                    (λ t. record t { stack = set_cell t.stack s.top_index a })
                    (λ t. gives none)
                else misuses)
              (record s { top_index = add32 s.top_index 1 })
            ≡ with_none build size (
                if b
                then returns (record {
                  top_index = add32 s.top_index 1;
                  stack = set_cell s.stack s.top_index a;
                })
                else undefined)
      written true = refl
      written false = refl

  abbrev top : ℕ
  top = sub32 s.top_index 1

  exec-take_top : exec (take_top build size) s ≡ (
      if ltb top size
      then returns (record s { top_index = top }, some (s.stack top))
      else undefined)
  unfolding take_top exec
  exec-take_top =
      exec-if (ltb top size) (read (λ t. gives (some (t.stack top)))) misuses
        (record s { top_index = top })

  exec-pops :
      exec (assert_code build (λ s. ltb 0 s.top_index) (take_top build size)) s
      ≡ with_some build size (pop build size s)
  unfolding pop
  exec-pops =
      exec-assert_code build (λ s. ltb 0 s.top_index) (take_top build size) s
      ∙ ap (λ o. assert build (ltb 0 s.top_index) >> o) (exec-take_top ∙ with_top (ltb top size))
      ∙ >>-after (assert build (ltb 0 s.top_index)) _ (λ (t, a). returns (t, some a))
    where
      with_top :
          (b : Bool)
          → (if b then returns (record s { top_index = top }, some (s.stack top)) else undefined)
            ≡ with_some build size
                (if b then returns (record s { top_index = top }, s.stack top) else undefined)
      with_top true = refl
      with_top false = refl

  exec-tries :
      exec (read (λ s. if 0 == s.top_index then gives none else take_top build size)) s
      ≡ try_pop build size s
  unfolding exec try_pop
  exec-tries =
      exec-if (0 == s.top_index) (gives none) (take_top build size) s
      ∙ ap (λ o. if 0 == s.top_index then returns (s, none) else o) exec-take_top

  exec-body : (call : Call A) → exec (body build size call) s ≡ step build size s call
  unfolding body step
  exec-body (pushes a) = exec-push_body a
  exec-body pops = exec-pops
  exec-body tries = exec-tries

module _ {ℓ} {A : Type ℓ} (build : Build) (size : ℕ) where
  run_calls-run :
      (s : LockStack A) (calls : List (Call A))
      → run_calls (body build size) s calls ≡ run build size s calls
  unfolding run_calls run
  run_calls-run s [] = refl
  run_calls-run s (call ∷ calls) =
      bind_ext (exec (body build size call) s) _
        (λ (t, r). run build size t calls >>= λ (u, rs). returns (u, r ∷ rs))
        (λ (t, r).
          ap (λ (o : Outcome (LockStack A × List (Option A))). o >>= λ (u, rs). returns (u, r ∷ rs))
            (run_calls-run t calls))
      ∙ ap
          (λ (o : Outcome (LockStack A × Option A)).
            o >>= λ (t, r). run build size t calls >>= λ (u, rs). returns (u, r ∷ rs))
          (exec-body build size s call)

  module _ (small : size < u32_mod) {initial : LockStack A} (valid : initial.top_index ≤ size)
      {s : System (LockStack A) (Option A) (Call A)} (h : Reach (body build size) initial s) where
    -- For an array stack of less than 2^32 cells with its index in range, in either build: however the
    -- statements of any number of threads interleave that call Push, Pop and TryPop, whenever no thread
    -- is inside a method the calls have given, in the order in which they unlocked the mutex, what they
    -- give one after another on a list of at most `size` elements, and have left the elements of that
    -- list.
    pub threads-list_run :
        ((i : ℕ) → s.threads i ≡ outside)
        → list_run build size (contents initial) (calls_of s.returned)
          ≡ returns (contents s.shared, results_of s.returned)
    threads-list_run none_in =
        sym (run-list_run size small build initial (calls_of s.returned) valid)
        ∙ ap (seen build size) (
            sym (run_calls-run initial (calls_of s.returned))
            ∙ as_one_by_one (body build size) h none_in)

    -- A thread whose assertion fails inside a method fails where the list does: its call, behind those
    -- that have returned, is one that a list of at most `size` elements refuses.
    pub thread_crash :
        (i : ℕ) (call : Call A)
        → s.threads i ≡ inside call crashes
        → list_run build size (contents initial) (calls_of s.returned ++ (call ∷ [])) ≡ aborts
    unfolding exec
    thread_crash i call at =
        sym (run-list_run size small build initial (calls_of s.returned ++ (call ∷ [])) valid)
        ∙ ap (seen build size) (
            sym (run_calls-run initial (calls_of s.returned ++ (call ∷ [])))
            ∙ as_the_last (body build size) i call crashes h at)
