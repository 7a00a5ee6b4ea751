-- ===== src/LockStack/Fixed/Laws.antt =====
-- The array stack refines a stack of at most `Size` elements.
use tux_base_mmo.Common.{
  ℕ, zero, suc, ◌-◌, ◌≤◌, ◌<◌, ◌≡◌, refl, ap, ap₂, none, some, List, [], ◌∷◌, arith, u32_mod,
  add32_exact, sub32_exact, sub32_wraps,
}
use tux_base_mmo.Verify.{Build, debug, release, returns, aborts, undefined}
use tux_base_mmo.LockStack.Fixed.{LockStack, set_cell, push, pop, try_pop}

module _ {ℓ} {A : Type ℓ} where
  -- The elements, top first.
  abbrev pub below : (ℕ → A) → ℕ → List A
  below cells zero = []
  below cells (suc n) = cells n ∷ below cells n

  abbrev pub contents : LockStack A → List A
  contents s = below s.stack s.top_index

  below-set_cell :
      (cells : ℕ → A) (i n : ℕ) (a : A) → n ≤ i → below (set_cell cells i a) n ≡ below cells n
  below-set_cell cells i zero a h = refl
  below-set_cell cells i (suc n) a h =
      ap₂ ◌∷◌ (ground arith) (below-set_cell cells i n a (omega arith))

  set_cell_same : (cells : ℕ → A) (i : ℕ) (a : A) → set_cell cells i a i ≡ a
  set_cell_same cells i a = ground arith

  below_pred : (cells : ℕ → A) (n : ℕ) → 0 < n → below cells n ≡ cells (n - 1) ∷ below cells (n - 1)
  below_pred cells zero h = absurd (omega arith)
  below_pred cells (suc n) h =
      ap (λ k. cells k ∷ below cells k) {x = n} {y = suc n - 1} (omega arith)

  module _ (size : ℕ) (s : LockStack A) (small : size < u32_mod) (valid : s.top_index ≤ size) where
    -- With an index in range, Push below the limit returns in either build, and makes the element
    -- the new top.
    pub push_top :
        (build : Build) (a : A)
        → s.top_index < size
        → (t : LockStack A) × (push build size s a ≡ returns t)
          × (contents t ≡ a ∷ contents s)
          × (t.top_index ≤ size)
    push_top build a room = (
      record { top_index = suc s.top_index; stack = set_cell s.stack s.top_index a },
      pushed build,
      ap₂ ◌∷◌ (set_cell_same s.stack s.top_index a)
          (below-set_cell s.stack s.top_index s.top_index a (omega arith)),
      room,
    )
      where
        pushed :
            (b : Build)
            → push b size s a
              ≡ returns
                  (record { top_index = suc s.top_index; stack = set_cell s.stack s.top_index a })
        pushed debug = unfold push in ground (arith, add32_exact s.top_index 1)
        pushed release = unfold push in ground (arith, add32_exact s.top_index 1)

    -- Push at the limit stops a debug build and is undefined in a release build.
    pub push_full :
        (a : A)
        → s.top_index ≡ size
        → (push debug size s a ≡ aborts) × (push release size s a ≡ undefined)
    unfolding push
    push_full a full = ground arith

    -- With an index in range and at least one element, Pop and TryPop return in either build, take the
    -- top, and leave the rest.
    pub pop_top :
        (build : Build)
        → 0 < s.top_index
        → (t : LockStack A) × (a : A) × (pop build size s ≡ returns (t, a))
          × (try_pop build size s ≡ returns (t, some a))
          × (contents s ≡ a ∷ contents t)
          × (t.top_index ≤ size)
    pop_top build full = (
      record s { top_index = s.top_index - 1 },
      s.stack (s.top_index - 1),
      popped build,
      unfold try_pop in ground (arith, sub32_exact s.top_index 1),
      below_pred s.stack s.top_index full,
      omega arith,
    )
      where
        popped :
            (b : Build)
            → pop b size s
              ≡ returns (record s { top_index = s.top_index - 1 }, s.stack (s.top_index - 1))
        popped debug = unfold pop in ground (arith, sub32_exact s.top_index 1)
        popped release = unfold pop in ground (arith, sub32_exact s.top_index 1)

    -- On an empty stack TryPop changes nothing; Pop stops a debug build and is undefined in a release
    -- build.
    pub pop_empty :
        s.top_index ≡ 0
        → (pop debug size s ≡ aborts)
          × (pop release size s ≡ undefined)
          × (try_pop debug size s ≡ returns (s, none))
          × (try_pop release size s ≡ returns (s, none))
    unfolding pop try_pop
    pop_empty e = ground (arith, sub32_wraps s.top_index 1)
