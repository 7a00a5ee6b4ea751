-- ===== src/Mutex/Linear.antt =====
-- What threads that lock a mutex see of one another.
use mathlib.Core.List.{map-append}
use tux_base_mmo.Common.{
  ℕ, ◌≡◌, ◌≢◌, refl, sym, ap, subst, ◌∙◌, true, false, List, [], ◌∷◌, ◌++◌, map, ==_refl,
  ℕ_discrete, arith,
}
use tux_base_mmo.Verify.{
  Outcome, returns, aborts, undefined, ◌>>=◌, bind_inverse, returns_injective,
}
use tux_base_mmo.Mutex.{
  Code, exec, Pc, outside, inside, System, set_thread, Step, locks, accesses, unlocks, Reach, begin,
  later, run_calls,
}

set_thread_self {ℓ} : {P : Type ℓ} (threads : ℕ → P) (i : ℕ) (p : P) → set_thread threads i p i ≡ p
set_thread_self threads i p = rw (==_refl i) refl

set_thread_other {ℓ} :
    {P : Type ℓ} (threads : ℕ → P) (i j : ℕ) (p : P) → j ≢ i → set_thread threads i p j ≡ threads j
set_thread_other threads i j p ne = ground arith

module _ {ℓ} {Call R : Type ℓ} where
  abbrev pub calls_of : List (Call × R) → List Call
  calls_of l = map (λ p. p.0) l

  abbrev pub results_of : List (Call × R) → List R
  results_of l = map (λ p. p.1) l

module _ {ℓ} {S R : Type ℓ} where
  -- What a last call gives, behind what was given before; and what a first one gives, before the rest
  abbrev pub add_last : List R → Outcome (S × R) → Outcome (S × List R)
  add_last rs o = o >>= λ (u, x). returns (u, rs ++ (x ∷ []))

  abbrev add_first : R → Outcome (S × List R) → Outcome (S × List R)
  add_first r o = o >>= λ (u, xs). returns (u, r ∷ xs)

  add_first-add_last :
      (o : Outcome (S × R)) (r : R) (rs : List R)
      → add_first r (add_last rs o) ≡ add_last (r ∷ rs) o
  add_first-add_last (returns a) r rs = refl
  add_first-add_last aborts r rs = refl
  add_first-add_last undefined r rs = refl

  module _ {Call : Type ℓ} where
    outside_not :
        (p : Pc S R Call) {call : Call} {code : Code S R} → p ≡ outside → ¬ (p ≡ inside call code)
    outside_not p e f = cc (e, f)

    inside_injective :
        (p : Pc S R Call) {c d : Call} {x y : Code S R}
        → p ≡ inside c x
        → p ≡ inside d y
        → (c ≡ d) × (x ≡ y)
    inside_injective p e f = (cc (e, f), cc (e, f))

module _ {ℓ} {S R Call : Type ℓ} (body : Call → Code S R) where
  -- One call more
  pub run_calls_then :
      (s t : S) (rs : List R) (calls : List Call) (call : Call)
      → run_calls body s calls ≡ returns (t, rs)
      → run_calls body s (calls ++ (call ∷ [])) ≡ add_last rs (exec (body call) t)
  unfolding run_calls
  run_calls_then s t rs [] call e =
      subst
        (λ (p : S × List R). add_last [] (exec (body call) s) ≡ add_last p.1 (exec (body call) p.0))
        (returns_injective e) refl
  run_calls_then s t rs (c ∷ calls) call e =
      let (p, one, e₁) = bind_inverse (exec (body c) s) _ e in
      let (q, ran, e₂) =
        bind_inverse (run_calls body p.0 calls) (λ q. returns (q.0, p.1 ∷ q.1)) e₁ in
      ap (λ o. o >>= λ (v : S × R). add_first v.1 (run_calls body v.0 (calls ++ (call ∷ [])))) one
      ∙ ap (add_first p.1) (run_calls_then p.0 q.0 q.1 calls call ran)
      ∙ add_first-add_last (exec (body call) q.0) p.1 q.1
      ∙ ap (λ (z : S × List R). add_last z.1 (exec (body call) z.0)) (returns_injective e₂)

  -- Induction on calls that return
  pub run_calls_ind {κ} :
      (P : S → List Call → S → List R → Type κ)
      → ((s : S) → P s [] s [])
      → ((s t u : S) (call : Call) (calls : List Call) (r : R) (rs : List R)
          → exec (body call) s ≡ returns (t, r)
          → P t calls u rs
          → P s (call ∷ calls) u (r ∷ rs))
      → (s u : S) (calls : List Call) (rs : List R) → run_calls body s calls ≡ returns (u, rs)
      → P s calls u rs
  unfolding run_calls
  run_calls_ind P none_left one_more s u [] rs e =
      subst (λ (p : S × List R). P s [] p.0 p.1) (returns_injective e) (none_left s)
  run_calls_ind P none_left one_more s u (c ∷ calls) rs e =
      let (p, one, e₁) = bind_inverse (exec (body c) s) _ e in
      let (q, ran, e₂) =
        bind_inverse (run_calls body p.0 calls) (λ q. returns (q.0, p.1 ∷ q.1)) e₁ in
      subst (λ (z : S × List R). P s (c ∷ calls) z.0 z.1) (returns_injective e₂)
        (one_more s p.0 q.0 c calls p.1 q.1 one
          (run_calls_ind P none_left one_more p.0 q.0 calls q.1 ran))

  -- Either nobody holds the mutex, or one thread is inside a call, and the rest of its body will do what
  -- the whole body does to the object as it was at its lock.
  pub data Linear (initial : S) (s : System S R Call) : Type ℓ where
    free :
        s.is_locked ≡ false
        → ((i : ℕ) → s.threads i ≡ outside)
        → run_calls body initial (calls_of s.returned) ≡ returns (s.shared, results_of s.returned)
        → Linear initial s
    held :
        (i : ℕ) (call : Call) (code : Code S R) (t : S)
        → s.is_locked ≡ true
        → s.threads i ≡ inside call code
        → ((j : ℕ) → j ≢ i → s.threads j ≡ outside)
        → run_calls body initial (calls_of s.returned) ≡ returns (t, results_of s.returned)
        → exec (body call) t ≡ exec code s.shared
        → Linear initial s

  same_thread :
      (s : System S R Call) (i j : ℕ) {call : Call} {code : Code S R}
      → s.threads j ≡ inside call code
      → ((k : ℕ) → k ≢ i → s.threads k ≡ outside)
      → j ≡ i
  same_thread s i j e others = elim (ℕ_discrete j i) [
    | yes same ↦ same
    | no differ ↦ absurd (outside_not (s.threads j) (others j differ) e)
  ]

  at_thread :
      (s : System S R Call) (k i : ℕ) {c call : Call} {code rest : Code S R}
      → i ≡ k
      → s.threads k ≡ inside c code
      → s.threads i ≡ inside call rest
      → (c ≡ call) × (code ≡ rest)
  at_thread s k i same at e =
      inside_injective (s.threads k) at (ap (λ j. s.threads j) (sym same) ∙ e)

  alone :
      (s : System S R Call) (i : ℕ)
      → ((j : ℕ) → j ≢ i → s.threads j ≡ outside)
      → (j : ℕ) → set_thread s.threads i outside j ≡ outside
  alone s i others j = elim (ℕ_discrete j i) [
    | yes same ↦ ap (set_thread s.threads i outside) same ∙ set_thread_self s.threads i outside
    | no differ ↦ set_thread_other s.threads i j outside differ ∙ others j differ
  ]

  Step-Linear :
      (initial : S) {s t : System S R Call} → Step body s t → Linear initial s → Linear initial t
  unfolding exec
  Step-Linear initial {s} (locks i call out unlocked) (free _ none_in ran) =
      held i call (body call) s.shared refl (set_thread_self s.threads i _)
        (λ j ne. set_thread_other s.threads i j _ ne ∙ none_in j) ran refl
  Step-Linear initial (locks i call out unlocked) (held k c code t locked at others ran rest) =
      absurd (cc (locked, unlocked))
  Step-Linear initial {s} (accesses i call f next e) (free _ none_in ran) =
      absurd (outside_not (s.threads i) (none_in i) e)
  Step-Linear initial {s} (accesses i call f next e) (held k c code t locked at others ran rest) =
      let same = same_thread s k i e others in
      let (call_same, code_same) = at_thread s k i same at e in
      held i call (next s.shared) t locked (set_thread_self s.threads i _)
        (λ j ne. set_thread_other s.threads i j _ ne ∙ others j (λ at_k. ne (at_k ∙ sym same))) ran
        (ap (λ x. exec (body x) t) (sym call_same) ∙ rest ∙ ap (λ x. exec x s.shared) code_same)
  Step-Linear initial {s} (unlocks i call r e) (free _ none_in ran) =
      absurd (outside_not (s.threads i) (none_in i) e)
  Step-Linear initial {s} (unlocks i call r e) (held k c code t locked at others ran rest) =
      let same = same_thread s k i e others in
      let (call_same, code_same) = at_thread s k i same at e in
      free refl (alone s i (λ j ne. others j (λ at_k. ne (at_k ∙ sym same)))) (
        ap (run_calls body initial) (map-append (λ p. p.0) s.returned ((call, r) ∷ []))
        ∙ run_calls_then initial t (results_of s.returned) (calls_of s.returned) call ran
        ∙ ap (add_last (results_of s.returned))
            (ap (λ x. exec (body x) t) (sym call_same) ∙ rest ∙ ap (λ x. exec x s.shared) code_same)
        ∙ ap (λ l. returns (s.shared, l)) (sym (map-append (λ p. p.1) s.returned ((call, r) ∷ []))))

  pub Reach-Linear : {initial : S} {s : System S R Call} → Reach body initial s → Linear initial s
  unfolding run_calls
  Reach-Linear begin = free refl (λ i. refl) refl
  Reach-Linear {initial} (later h st) = Step-Linear initial st (Reach-Linear h)

  -- Of threads that take the mutex for each call, in every interleaving of their accesses: two are never
  -- inside a call at a time.
  pub one_inside :
      {initial : S} {s : System S R Call} (i j : ℕ) {c d : Call} {x y : Code S R}
      → Reach body initial s
      → s.threads i ≡ inside c x
      → s.threads j ≡ inside d y
      → i ≡ j
  one_inside {initial} {s} i j h at_i at_j = apart (Reach-Linear h)
    where
      apart : Linear initial s → i ≡ j
      apart (free _ none_in ran) = absurd (outside_not (s.threads i) (none_in i) at_i)
      apart (held k c code t locked at others ran rest) =
          same_thread s k i at_i others ∙ sym (same_thread s k j at_j others)

  -- While nobody is inside, the object and what the calls gave are as if the calls had been made one after
  -- another, in the order in which they unlocked.
  pub as_one_by_one :
      {initial : S} {s : System S R Call}
      → Reach body initial s
      → ((i : ℕ) → s.threads i ≡ outside)
      → run_calls body initial (calls_of s.returned) ≡ returns (s.shared, results_of s.returned)
  as_one_by_one {initial} {s} h none_in = in_turn (Reach-Linear h)
    where
      in_turn :
          Linear initial s
          → run_calls body initial (calls_of s.returned) ≡ returns (s.shared, results_of s.returned)
      in_turn (free _ _ ran) = ran
      in_turn (held k c code t locked at others ran rest) =
          absurd (outside_not (s.threads k) (none_in k) at)

  -- What a thread inside a call comes to is what the calls come to that have returned, with its own last.
  pub as_the_last :
      {initial : S} {s : System S R Call} (i : ℕ) (call : Call) (code : Code S R)
      → Reach body initial s
      → s.threads i ≡ inside call code
      → run_calls body initial (calls_of s.returned ++ (call ∷ []))
        ≡ add_last (results_of s.returned) (exec code s.shared)
  as_the_last {initial} {s} i call code h at_i = last (Reach-Linear h)
    where
      last :
          Linear initial s
          → run_calls body initial (calls_of s.returned ++ (call ∷ []))
            ≡ add_last (results_of s.returned) (exec code s.shared)
      last (free _ none_in ran) = absurd (outside_not (s.threads i) (none_in i) at_i)
      last (held k c x t locked at others ran rest) =
          let (call_same, code_same) = at_thread s k i (same_thread s k i at_i others) at at_i in
          run_calls_then initial t (results_of s.returned) (calls_of s.returned) call ran
          ∙ ap (add_last (results_of s.returned)) (
              ap (λ z. exec (body z) t) (sym call_same)
              ∙ rest
              ∙ ap (λ z. exec z s.shared) code_same)
