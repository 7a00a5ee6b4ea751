-- ===== src/LockStack/Dynamic/Laws.antt =====
-- The growing stack against a list, top first; and what any interleaving of calls keeps.
use mathlib.Core.List.{Perm, perm_middle}
use mathlib.Core.List.Perm
use tux_base_mmo.Common.{◌≡◌, refl, Option, none, some, List, [], ◌∷◌, ◌++◌}
use tux_base_mmo.Verify.{Build, debug, release, returns}
use tux_base_mmo.LockStack.Dynamic.{LockStack, push, pop, try_pop}

-- What a thread may call, with the elements that it pushes.
pub data Call {ℓ} (A : Type ℓ) : Type ℓ where
  pushes : A → Call A
  tries : Call A

-- The stack, and what TryPop has handed out, latest first.
pub record History {ℓ} (A : Type ℓ) : Type ℓ where
  pub stack : LockStack A
  pub popped : List A

module _ {ℓ} {A : Type ℓ} where
  -- Pop and TryPop after Push give back the element and the stack as it was.
  pub pop-push :
      (build : Build) (s : LockStack A) (a : A)
      → (pop build (push s a) ≡ returns (s, a)) × (try_pop (push s a) ≡ (s, some a))
  unfolding pop push try_pop
  pop-push debug s a = (refl, refl)
  pop-push release s a = (refl, refl)

  abbrev pub got : Option A → List A → List A
  got none l = l
  got (some a) l = a ∷ l

  -- The calls of all threads, in the order in which they got the mutex.
  unfoldable pub run : History A → List (Call A) → History A
  run h [] = h
  run h (pushes a ∷ calls) = run (record h { stack = push h.stack a }) calls
  run h (tries ∷ calls) =
      let (s, out) = try_pop h.stack in run (record { stack = s; popped = got out h.popped }) calls

  abbrev pub pushed : List (Call A) → List A
  pushed [] = []
  pushed (pushes a ∷ calls) = a ∷ pushed calls
  pushed (tries ∷ calls) = pushed calls

  abbrev pub held : History A → List A
  held h = h.stack.stack ++ h.popped

  tries-held :
      (xs out : List A)
      → Perm
          (held (
            let (s, o) = try_pop (record { stack = xs }) in
            record { stack = s; popped = got o out }))
          (xs ++ out)
  unfolding try_pop
  tries-held [] out = Perm.refl out
  tries-held (x ∷ xs) out = perm_middle xs out

  -- Whatever the order of the calls, what is in the stack or was handed out is what was there and
  -- what was pushed: no element is lost or handed out twice.
  pub run-perm :
      (h : History A) (calls : List (Call A)) → Perm (held (run h calls)) (pushed calls ++ held h)
  unfolding run push
  run-perm h [] = Perm.refl (held h)
  run-perm h (pushes a ∷ calls) =
      Perm.trans (run-perm (record h { stack = push h.stack a }) calls)
        (perm_middle (pushed calls) (held h))
  run-perm h (tries ∷ calls) =
      Perm.trans
        (run-perm
          (record { stack = (try_pop h.stack).0; popped = got (try_pop h.stack).1 h.popped }) calls)
        (Perm.append (Perm.refl (pushed calls)) (tries-held (h.stack.stack) (h.popped)))
