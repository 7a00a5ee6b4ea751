-- ===== src/Mutex.antt =====
-- `std::mutex` with `std::lock_guard`, as the methods of 01_ServerBase/Include/DataStruct use them:
-- threads whose statements interleave, one access to the shared object at a time.
pub mod Bodies
pub mod Linear
use tux_base_mmo.Common.{ℕ, Bool, true, false, ◌≡◌, List, [], ◌∷◌, ◌++◌, ◌==◌, if◌then◌else◌}
use tux_base_mmo.Verify.{Build, debug, release, Outcome, returns, aborts, undefined, ◌>>=◌}

-- What is left of a method's body: to return, to abort, to do what is undefined, or one access, which
-- changes the shared object and goes on with what it found there.
pub data Code {ℓ} (S R : Type ℓ) : Type ℓ where
  gives : R → Code S R
  crashes misuses : Code S R
  access : (S → S) → (S → Code S R) → Code S R

module _ {ℓ} {S R : Type ℓ} where
  -- A statement that only reads
  abbrev pub read : (S → Code S R) → Code S R
  read next = access (λ s. s) next

  -- `ASSERT` of what is read
  abbrev pub assert_code : Build → (S → Bool) → Code S R → Code S R
  assert_code debug test rest = read (λ s. if test s then rest else crashes)
  assert_code release test rest = rest

  -- The body with no other thread in between
  unfoldable pub exec : Code S R → S → Outcome (S × R)
  exec (gives r) s = returns (s, r)
  exec crashes s = aborts
  exec misuses s = undefined
  exec (access f next) s = exec (next s) (f s)

-- A thread is outside the methods, or inside a call with the rest of its body.
pub data Pc {ℓ} (S R Call : Type ℓ) : Type ℓ where
  outside : Pc S R Call
  inside : Call → Code S R → Pc S R Call

-- The object, whether its mutex is locked, the threads, and the calls that have returned, in the order
-- in which they unlocked the mutex.
pub record System {ℓ} (S R Call : Type ℓ) : Type ℓ where
  pub shared : S
  pub is_locked : Bool
  pub threads : ℕ → Pc S R Call
  pub returned : List (Call × R)

abbrev pub set_thread {ℓ} : {P : Type ℓ} → (ℕ → P) → ℕ → P → ℕ → P
set_thread threads i p j = if j == i then p else threads j

module _ {ℓ} {S R Call : Type ℓ} (body : Call → Code S R) where
  -- The thread waits at `lock` while the mutex is locked; nothing else stops it.
  pub data Step (s : System S R Call) : System S R Call → Type ℓ where
    locks :
        (i : ℕ) (call : Call)
        → s.threads i ≡ outside
        → s.is_locked ≡ false
        → Step s (record s {
          is_locked = true;
          threads = set_thread s.threads i (inside call (body call));
        })
    accesses :
        (i : ℕ) (call : Call) (f : S → S) (next : S → Code S R)
        → s.threads i ≡ inside call (access f next)
        → Step s (record s {
          shared = f s.shared;
          threads = set_thread s.threads i (inside call (next s.shared));
        })
    unlocks :
        (i : ℕ) (call : Call) (r : R)
        → s.threads i ≡ inside call (gives r)
        → Step s (record s {
          is_locked = false;
          threads = set_thread s.threads i outside;
          returned = s.returned ++ ((call, r) ∷ []);
        })

  abbrev pub begins : S → System S R Call
  begins s = record { shared = s; is_locked = false; threads = λ i. outside; returned = [] }

  pub data Reach (initial : S) : System S R Call → Type ℓ where
    begin : Reach initial (begins initial)
    later : {s t : System S R Call} → Reach initial s → Step s t → Reach initial t

  -- The calls one after another, with what each gives.
  unfoldable pub run_calls : S → List Call → Outcome (S × List R)
  run_calls s [] = returns (s, [])
  run_calls s (call ∷ calls) =
      exec (body call) s >>= λ (t, r). run_calls t calls >>= λ (u, rs). returns (u, r ∷ rs)
