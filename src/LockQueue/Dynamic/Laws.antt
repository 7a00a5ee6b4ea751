-- ===== src/LockQueue/Dynamic/Laws.antt =====
-- The growing queue is first in, first out under any interleaving of calls.
use tux_base_mmo.Common.{
  ◌≡◌, refl, sym, ap, ◌∙◌, Option, none, some, List, [], ◌∷◌, ◌++◌, append-nil, append_assoc,
}
use tux_base_mmo.LockQueue.Dynamic.{LockQueue, push, try_pop}

-- What a thread may call, with the elements that it pushes.
pub data Call {ℓ} (A : Type ℓ) : Type ℓ where
  pushes : A → Call A
  tries : Call A

-- The queue, and what TryPop has handed out, first to last.
pub record History {ℓ} (A : Type ℓ) : Type ℓ where
  pub queue : LockQueue A
  pub popped : List A

module _ {ℓ} {A : Type ℓ} where
  abbrev pub with_got : List A → Option A → List A
  with_got l none = l
  with_got l (some a) = l ++ (a ∷ [])

  abbrev pub after_try : History A → History A
  after_try h =
      let (q, out) = try_pop h.queue in record { queue = q; popped = with_got h.popped out }

  -- The calls of all threads, in the order in which they got the mutex.
  unfoldable pub run : History A → List (Call A) → History A
  run h [] = h
  run h (pushes a ∷ calls) = run (record h { queue = push h.queue a }) calls
  run h (tries ∷ calls) = run (after_try h) calls

  abbrev pub pushed : List (Call A) → List A
  pushed [] = []
  pushed (pushes a ∷ calls) = a ∷ pushed calls
  pushed (tries ∷ calls) = pushed calls

  -- Handed out, and then waiting.
  abbrev pub passed : History A → List A
  passed h = h.popped ++ h.queue.queue

  try-passed :
      (xs out : List A)
      → passed (after_try (record { queue = record { queue = xs }; popped = out })) ≡ out ++ xs
  unfolding try_pop
  try-passed [] out = refl
  try-passed (x ∷ xs) out = append_assoc out (x ∷ []) xs

  -- Whatever the order of the calls, elements are handed out in the order in which they were pushed:
  -- what was handed out, with what waits behind it, is what was there and then what was pushed.
  pub run_fifo :
      (h : History A) (calls : List (Call A)) → passed (run h calls) ≡ passed h ++ pushed calls
  unfolding run push
  run_fifo h [] = sym (append-nil (passed h))
  run_fifo h (pushes a ∷ calls) =
      run_fifo (record h { queue = push h.queue a }) calls ∙ simp append_assoc
  run_fifo h (tries ∷ calls) =
      run_fifo (after_try h) calls
      ∙ ap (λ l. l ++ pushed calls) (try-passed (h.queue.queue) (h.popped))
