-- ===== src/LockStack/Fixed/Runs.antt =====
-- Whole runs of the array stack against a list of at most `Size` elements.
use tux_base_mmo.Common.{
  ℕ, zero, suc, ◌≤◌, ◌<◌, ◌≡◌, refl, sym, ap, Option, none, some, List, [], ◌∷◌, ltb, if◌then◌else◌,
  arith, dec_lt, length, u32_mod,
}
use tux_base_mmo.Verify.{Build, debug, release, Outcome, returns, aborts, undefined, ◌>>=◌}
use tux_base_mmo.LockStack.Fixed.{LockStack, push, pop, try_pop}
use tux_base_mmo.LockStack.Fixed.Laws.{below, contents, push_top, push_full, pop_top, pop_empty}

pub data Call {ℓ} (A : Type ℓ) : Type ℓ where
  pushes : A → Call A
  pops tries : Call A

-- What a call that the stack does not allow comes to.
abbrev pub misuse {ℓ} : {A : Type ℓ} → Build → Outcome A
misuse debug = aborts
misuse release = undefined

module _ {ℓ} {A : Type ℓ} (build : Build) (size : ℕ) where
  abbrev pub with_none : Outcome (LockStack A) → Outcome (LockStack A × Option A)
  with_none o = o >>= λ s. returns (s, none)

  abbrev pub with_some : Outcome (LockStack A × A) → Outcome (LockStack A × Option A)
  with_some o = o >>= λ (s, a). returns (s, some a)

  -- One call, and what it gives.
  unfoldable pub step : LockStack A → Call A → Outcome (LockStack A × Option A)
  step s (pushes a) = with_none (push build size s a)
  step s pops = with_some (pop build size s)
  step s tries = try_pop build size s

  -- The calls of all threads, in the order in which they got the mutex.
  unfoldable pub run : LockStack A → List (Call A) → Outcome (LockStack A × List (Option A))
  run s [] = returns (s, [])
  run s (call ∷ calls) =
      step s call >>= λ (t, out). run t calls >>= λ (u, outs). returns (u, out ∷ outs)

  -- The same calls on a list that holds the top first.
  abbrev pub list_step : List A → Call A → Outcome (List A × Option A)
  list_step l (pushes a) = if ltb (length l) size then returns (a ∷ l, none) else misuse build
  list_step [] pops = misuse build
  list_step (x ∷ l) pops = returns (l, some x)
  list_step [] tries = returns ([], none)
  list_step (x ∷ l) tries = returns (l, some x)

  unfoldable pub list_run : List A → List (Call A) → Outcome (List A × List (Option A))
  list_run l [] = returns (l, [])
  list_run l (call ∷ calls) =
      list_step l call >>= λ (m, out). list_run m calls >>= λ (n, outs). returns (n, out ∷ outs)

  -- What is seen of an outcome: the elements, and what the calls gave.
  abbrev pub seen {κ} : {B : Type κ} → Outcome (LockStack A × B) → Outcome (List A × B)
  seen o = o >>= λ (s, b). returns (contents s, b)

  -- Both come to the same, and the stack's index stays in range.
  data Agrees {κ} {B : Type κ} (o : Outcome (LockStack A × B)) (l : Outcome (List A × B))
      : Type (ℓ ⊔ κ) where
    both_return :
        (s : LockStack A) (b : B)
        → s.top_index ≤ size
        → o ≡ returns (s, b)
        → l ≡ returns (contents s, b)
        → Agrees o l
    both_abort : o ≡ aborts → l ≡ aborts → Agrees o l
    both_undefined : o ≡ undefined → l ≡ undefined → Agrees o l

module _ {ℓ} {A : Type ℓ} where
  length-below : (cells : ℕ → A) (n : ℕ) → length (below cells n) ≡ n
  length-below cells zero = refl
  length-below cells (suc n) = ap suc (length-below cells n)

  below_empty : (s : LockStack A) → s.top_index ≡ 0 → contents s ≡ []
  below_empty s e = ap (below s.stack) e

  seen_later :
      (build : Build) (size : ℕ) (out : Option A) (o : Outcome (LockStack A × List (Option A)))
      → seen build size (o >>= λ (u, outs). returns (u, out ∷ outs))
        ≡ seen build size o >>= λ (n, outs). returns (n, out ∷ outs)
  seen_later build size out (returns a) = refl
  seen_later build size out aborts = refl
  seen_later build size out undefined = refl

module _ {ℓ} {A : Type ℓ} (size : ℕ) (small : size < u32_mod) where
  module _ (s : LockStack A) (valid : s.top_index ≤ size) where
    push-Agrees :
        (build : Build) (a : A)
        → Agrees build size
            (with_none build size (push build size s a))
            (list_step build size (contents s) (pushes a))
    push-Agrees build a = elim (dec_lt s.top_index size) [
      | yes room ↦ returned room
      | no full ↦ refused build (omega arith)
    ]
      where
        returned :
            s.top_index < size
            → Agrees build size
                (with_none build size (push build size s a))
                (list_step build size (contents s) (pushes a))
        returned room =
            let pushed = push_top size s small valid build a room in
            both_return pushed.0 none pushed.3 (rw (pushed.1) refl)
              (rw (pushed.2) (ground (arith, length-below s.stack s.top_index)))

        refused :
            (b : Build)
            → s.top_index ≡ size
            → Agrees b size
                (with_none b size (push b size s a))
                (list_step b size (contents s) (pushes a))
        refused debug full =
            both_abort (rw ((push_full size s small valid a full).0) refl)
              (ground (arith, length-below s.stack s.top_index))
        refused release full =
            both_undefined (rw ((push_full size s small valid a full).1) refl)
              (ground (arith, length-below s.stack s.top_index))

    pop-Agrees :
        (build : Build)
        → Agrees build size
            (with_some build size (pop build size s))
            (list_step build size (contents s) pops)
          × Agrees build size (try_pop build size s) (list_step build size (contents s) tries)
    pop-Agrees build = elim (dec_lt 0 s.top_index) [
      | yes full ↦ returned full
      | no empty ↦ refused build (omega arith)
    ]
      where
        returned :
            0 < s.top_index
            → Agrees build size
                (with_some build size (pop build size s))
                (list_step build size (contents s) pops)
              × Agrees build size (try_pop build size s) (list_step build size (contents s) tries)
        returned full =
            let popped = pop_top size s small valid build full in
            let t = popped.0 in
            let a = popped.1 in
            (
              both_return t (some a) popped.5 (rw (popped.2) refl) (rw (popped.4) refl),
              both_return t (some a) popped.5 (popped.3) (rw (popped.4) refl),
            )

        refused :
            (b : Build)
            → s.top_index ≡ 0
            → Agrees b size (with_some b size (pop b size s)) (list_step b size (contents s) pops)
              × Agrees b size (try_pop b size s) (list_step b size (contents s) tries)
        refused debug empty =
            let stays = pop_empty size s small valid empty in
            (
              both_abort (rw (stays.0) refl) (rw (below_empty s empty) refl),
              both_return s none valid (stays.2) (rw (below_empty s empty) refl),
            )
        refused release empty =
            let stays = pop_empty size s small valid empty in
            (
              both_undefined (rw (stays.1) refl) (rw (below_empty s empty) refl),
              both_return s none valid (stays.3) (rw (below_empty s empty) refl),
            )

    step-Agrees :
        (build : Build) (call : Call A)
        → Agrees build size (step build size s call) (list_step build size (contents s) call)
    unfolding step
    step-Agrees build (pushes a) = push-Agrees build a
    step-Agrees build pops = (pop-Agrees build).0
    step-Agrees build tries = (pop-Agrees build).1

  -- With an index in range, every sequence of calls on the array stack comes to what it comes to on the
  -- list of its elements: the calls give the same and leave the same elements, and where the list stops
  -- the stack stops, in either build.
  pub run-list_run :
      (build : Build) (s : LockStack A) (calls : List (Call A))
      → s.top_index ≤ size
      → seen build size (run build size s calls) ≡ list_run build size (contents s) calls
  unfolding run list_run
  run-list_run build s [] valid = refl
  run-list_run build s (call ∷ calls) valid = elim (step-Agrees s valid build call) [
    | both_return t b bound e e' ↦
        rw (e, e', sym (run-list_run build t calls bound))
          (seen_later build size b (run build size t calls))
    | both_abort e e' ↦ rw (e, e') refl
    | both_undefined e e' ↦ rw (e, e') refl
  ]
