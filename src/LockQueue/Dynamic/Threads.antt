-- ===== src/LockQueue/Dynamic/Threads.antt =====
-- The methods of the growing queue statement by statement, in threads that share it.
use tux_base_mmo.Common.{
  ℕ, ◌≡◌, refl, sym, ap, ◌∙◌, Option, none, some, List, [], ◌∷◌, ◌++◌, append_assoc, append-nil,
  if◌then◌else◌,
}
use tux_base_mmo.Verify.{returns, returns_injective}
use tux_base_mmo.Mutex.{Code, gives, misuses, access, read, exec, outside, System, Reach, run_calls}
use tux_base_mmo.Mutex.Linear.{calls_of, results_of, as_one_by_one, run_calls_ind}
use tux_base_mmo.LockQueue.Dynamic.{LockQueue, push, is_empty_list}
use tux_base_mmo.LockQueue.Dynamic.Laws.{Call, pushes, tries, pushed}

module _ {ℓ} {A : Type ℓ} where
  -- `m_queue.pop()`
  abbrev pub drop_front : List A → List A
  drop_front [] = []
  drop_front (a ∷ rest) = rest

  -- `data = std::move(m_queue.front()); m_queue.pop(); return true;`
  abbrev pub take_front_body : List A → Code (LockQueue A) (Option A)
  take_front_body [] = misuses
  take_front_body (a ∷ rest) =
      access (λ q. record { queue = drop_front q.queue }) (λ q. gives (some a))

  -- The body of each method, under the `lock_guard`
  unfoldable pub body : Call A → Code (LockQueue A) (Option A)
  body (pushes a) = access (λ q. push q a) (λ q. gives none)
  body tries =
      read (λ q. if is_empty_list q.queue then gives none else read (λ t. take_front_body t.queue))

  -- What the calls that gave an element gave, first to last
  abbrev pub handed : List (Option A) → List A
  handed [] = []
  handed (none ∷ rest) = handed rest
  handed (some a ∷ rest) = a ∷ handed rest

  -- One call: what it hands out, with what waits behind it, is what waited and what it pushes.
  exec-tries :
      (l : List A) (q : LockQueue A) (out : Option A)
      → exec (body tries) (record { queue = l }) ≡ returns (q, out)
      → handed (out ∷ []) ++ q.queue ≡ l
  unfolding body exec
  exec-tries [] q out e =
      sym
        (ap (λ (x : LockQueue A × Option A). handed (x.1 ∷ []) ++ x.0.queue) (returns_injective e))
  exec-tries (a ∷ rest) q out e =
      sym
        (ap (λ (x : LockQueue A × Option A). handed (x.1 ∷ []) ++ x.0.queue) (returns_injective e))

  exec-pushes :
      (a : A) (q t : LockQueue A) (out : Option A)
      → exec (body (pushes a)) q ≡ returns (t, out)
      → handed (out ∷ []) ++ t.queue ≡ q.queue ++ (a ∷ [])
  unfolding body exec push
  exec-pushes a q t out e =
      sym
        (ap (λ (x : LockQueue A × Option A). handed (x.1 ∷ []) ++ x.0.queue) (returns_injective e))

  handed_first :
      (out : Option A) (rest : List (Option A)) (l : List A)
      → handed (out ∷ rest) ++ l ≡ handed (out ∷ []) ++ (handed rest ++ l)
  handed_first none rest l = refl
  handed_first (some a) rest l = refl

  first_call :
      (call : Call A) (q t : LockQueue A) (out : Option A) (calls : List (Call A))
      → exec (body call) q ≡ returns (t, out)
      → (handed (out ∷ []) ++ t.queue) ++ pushed calls ≡ q.queue ++ pushed (call ∷ calls)
  first_call (pushes a) q t out calls one =
      ap (λ l. l ++ pushed calls) (exec-pushes a q t out one)
      ∙ append_assoc q.queue (a ∷ []) (pushed calls)
  first_call tries q t out calls one = ap (λ l. l ++ pushed calls) (exec-tries q.queue t out one)

  run_calls_fifo :
      (q t : LockQueue A) (calls : List (Call A)) (outs : List (Option A))
      → run_calls body q calls ≡ returns (t, outs)
      → handed outs ++ t.queue ≡ q.queue ++ pushed calls
  run_calls_fifo =
      run_calls_ind body (λ q calls t outs. handed outs ++ t.queue ≡ q.queue ++ pushed calls)
        (λ q. sym (append-nil q.queue))
        (λ q x t call calls out outs one rest.
          handed_first out outs t.queue
          ∙ ap (λ l. handed (out ∷ []) ++ l) rest
          ∙ sym (append_assoc (handed (out ∷ [])) x.queue (pushed calls))
          ∙ first_call call q x out calls one)

  -- However the statements of any number of threads interleave that call Push and TryPop of the growing
  -- queue: whenever no thread is inside a method, the elements that the calls handed out, in the order
  -- in which they unlocked the mutex, with those that wait behind them, are those that were there and then
  -- those that the calls pushed, in that order.
  pub threads_fifo :
      {initial : LockQueue A} {s : System (LockQueue A) (Option A) (Call A)}
      → Reach body initial s
      → ((i : ℕ) → s.threads i ≡ outside)
      → handed (results_of s.returned) ++ s.shared.queue
        ≡ initial.queue ++ pushed (calls_of s.returned)
  threads_fifo {initial} {s} h none_in =
      run_calls_fifo initial s.shared (calls_of s.returned) (results_of s.returned)
        (as_one_by_one body h none_in)
