-- ===== src/Mutex/Bodies.antt =====
-- A body with no other thread in between.
use tux_base_mmo.Common.{◌≡◌, refl, Bool, true, false, if◌then◌else◌}
use tux_base_mmo.Verify.{
  Build, debug, release, Outcome, returns, aborts, undefined, assert, assert_true, ◌>>=◌, ◌>>◌,
}
use tux_base_mmo.Mutex.{Code, crashes, assert_code, exec}

module _ {ℓ} {S R : Type ℓ} where
  pub exec-if :
      (b : Bool) (x y : Code S R) (s : S)
      → exec (if b then x else y) s ≡ (if b then exec x s else exec y s)
  exec-if true x y s = refl
  exec-if false x y s = refl

  pub exec-assert_code :
      (build : Build) (test : S → Bool) (rest : Code S R) (s : S)
      → exec (assert_code build test rest) s ≡ assert build (test s) >> exec rest s
  unfolding exec
  exec-assert_code release test rest s = refl
  exec-assert_code debug test rest s = split (test s)
    where
      split : (b : Bool) → exec (if b then rest else crashes) s ≡ assert_true b >> exec rest s
      split true = refl
      split false = refl

-- What follows an assertion is what follows it, whatever is made of its result.
pub >>-after {ℓ κ} :
    {A : Type ℓ} {B : Type κ} (m : Outcome (Unit {0})) (o : Outcome A) (f : A → Outcome B)
    → (m >> (o >>= f)) ≡ (m >> o) >>= f
>>-after (returns u) o f = refl
>>-after aborts o f = refl
>>-after undefined o f = refl
