-- ===== src/LockStack/Dynamic/Threads.antt =====
-- The methods of the growing stack statement by statement, in threads that share it.
use mathlib.Core.List.{Perm, perm_middle}
use mathlib.Core.List.Perm
use tux_base_mmo.Common.{
  ℕ, ◌≡◌, refl, sym, subst, Option, none, some, List, [], ◌∷◌, ◌++◌, append-nil, ◌∙◌, if◌then◌else◌,
}
use tux_base_mmo.Verify.{returns, returns_injective}
use tux_base_mmo.Mutex.{Code, gives, misuses, access, read, exec, outside, System, Reach, run_calls}
use tux_base_mmo.Mutex.Linear.{calls_of, results_of, as_one_by_one, run_calls_ind}
use tux_base_mmo.LockStack.Dynamic.{LockStack, push, try_pop, is_empty_list}
use tux_base_mmo.LockStack.Dynamic.Laws.{Call, pushes, tries, pushed, got}

module _ {ℓ} {A : Type ℓ} where
  -- `m_stack.pop_back()`
  abbrev pub drop_back : List A → List A
  drop_back [] = []
  drop_back (a ∷ rest) = rest

  -- `data = std::move(m_stack.back()); m_stack.pop_back(); return true;`
  abbrev pub take_back_body : List A → Code (LockStack A) (Option A)
  take_back_body [] = misuses
  take_back_body (a ∷ rest) =
      access (λ s. record { stack = drop_back s.stack }) (λ s. gives (some a))

  -- The body of each method, under the `lock_guard`
  unfoldable pub body : Call A → Code (LockStack A) (Option A)
  body (pushes a) = access (λ s. push s a) (λ s. gives none)
  body tries =
      read (λ s. if is_empty_list s.stack then gives none else read (λ t. take_back_body t.stack))

  -- What the calls that gave an element gave
  abbrev pub handed : List (Option A) → List A
  handed [] = []
  handed (out ∷ rest) = got out (handed rest)

  -- With no other thread in between, the body of TryPop does what the method does.
  exec-tries :
      (l : List A)
      → exec (body tries) (record { stack = l }) ≡ returns (try_pop (record { stack = l }))
  unfolding body exec try_pop
  exec-tries [] = refl
  exec-tries (a ∷ rest) = refl

  tries_first :
      (stack : List A) (l pushed_later : List A)
      → Perm l ((try_pop (record { stack = stack })).0.stack ++ pushed_later)
      → Perm (got (try_pop (record { stack = stack })).1 l) (stack ++ pushed_later)
  unfolding try_pop
  tries_first [] l pushed_later p = p
  tries_first (a ∷ rest) l pushed_later p = Perm.cons a p

  -- One call: what it hands out and what is left make what was there and what it pushes.
  first_call :
      (call : Call A) (s t : LockStack A) (out : Option A) (calls : List (Call A)) (l : List A)
      → exec (body call) s ≡ returns (t, out)
      → Perm l (t.stack ++ pushed calls)
      → Perm (got out l) (s.stack ++ pushed (call ∷ calls))
  unfolding body exec push
  first_call (pushes a) s t out calls l one p =
      subst
        (λ (z : LockStack A × Option A).
          Perm l (z.0.stack ++ pushed calls) → Perm (got z.1 l) (s.stack ++ a ∷ pushed calls))
        (returns_injective one) (λ q. Perm.trans q (Perm.symm (perm_middle s.stack (pushed calls))))
        p
  first_call tries s t out calls l one p =
      subst
        (λ (z : LockStack A × Option A).
          Perm l (z.0.stack ++ pushed calls) → Perm (got z.1 l) (s.stack ++ pushed calls))
        (returns_injective (sym (exec-tries s.stack) ∙ one)) (tries_first s.stack l (pushed calls))
        p

  got-append : (out : Option A) (l k : List A) → got out l ++ k ≡ got out (l ++ k)
  got-append none l k = refl
  got-append (some a) l k = refl

  run_calls-perm :
      (s t : LockStack A) (calls : List (Call A)) (outs : List (Option A))
      → run_calls body s calls ≡ returns (t, outs)
      → Perm (handed outs ++ t.stack) (s.stack ++ pushed calls)
  run_calls-perm =
      run_calls_ind body (λ s calls t outs. Perm (handed outs ++ t.stack) (s.stack ++ pushed calls))
        (λ s. subst (Perm s.stack) (sym (append-nil s.stack)) (Perm.refl s.stack))
        (λ s x t call calls out outs one rest.
          subst (λ l. Perm l (s.stack ++ pushed (call ∷ calls)))
            (sym (got-append out (handed outs) t.stack))
            (first_call call s x out calls (handed outs ++ t.stack) one rest))

  -- However the statements of any number of threads interleave that call Push and TryPop of the growing
  -- stack: whenever no thread is inside a method, the elements that the calls handed out and those in the
  -- stack are, up to order, those that were there and those that the calls pushed: no element is lost or
  -- handed out twice.
  pub threads-perm :
      {initial : LockStack A} {s : System (LockStack A) (Option A) (Call A)}
      → Reach body initial s
      → ((i : ℕ) → s.threads i ≡ outside)
      → Perm
          (handed (results_of s.returned) ++ s.shared.stack)
          (initial.stack ++ pushed (calls_of s.returned))
  threads-perm {initial} {s} h none_in =
      run_calls-perm initial s.shared (calls_of s.returned) (results_of s.returned)
        (as_one_by_one body h none_in)
