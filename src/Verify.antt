-- ===== src/Verify.antt =====
-- 01_Server/Src/01_ServerBase/{Include,Source}/Verify/Assert: ASSERT, CRASH and what a call comes to.
use tux_base_mmo.Common.{◌≡◌, refl, sym, subst, Bool, true, false}

-- `DEBUG` is defined, or not.
pub data Build : Type 0 where
  debug release : Build

-- A call returns, ends in `std::abort`, or does what the C++ standard leaves undefined.
pub data Outcome {ℓ} (A : Type ℓ) : Type ℓ where
  returns : A → Outcome A
  aborts : Outcome A
  undefined : Outcome A

infixl 5 ◌>>=◌ ◌>>◌
abbrev pub ◌>>=◌ {ℓ κ} : {A : Type ℓ} {B : Type κ} → Outcome A → (A → Outcome B) → Outcome B
returns a >>= f = f a
aborts >>= f = aborts
undefined >>= f = undefined

abbrev pub ◌>>◌ {ℓ} : {B : Type ℓ} → Outcome (Unit {0}) → Outcome B → Outcome B
m >> k = m >>= λ _. k

-- `void Crash(message, fileName, lineNumber)`; the text that it prints is left out.
abbrev pub crash {ℓ} : {A : Type ℓ} → Outcome A
crash = aborts

-- `void Assert(condition, message, fileName, lineNumber)`
abbrev pub assert_true : Bool → Outcome (Unit {0})
assert_true true = returns tt
assert_true false = crash

-- The macro `ASSERT(condition, message, ...)`: a call of `Assert` under DEBUG, else nothing.
abbrev pub assert : Build → Bool → Outcome (Unit {0})
assert debug condition = assert_true condition
assert release condition = returns tt

-- The call returns, and what it returns satisfies `P`.
abbrev pub Returns {ℓ} : {A : Type ℓ} → Outcome A → (A → Type 0) → Type 0
Returns (returns a) P = P a
Returns aborts P = ⊥
Returns undefined P = ⊥

-- Where no assertion fires, the two builds agree, and what holds of one holds of both.
pub either_build {ℓ} :
    {A : Type ℓ} (P : A → Type 0) (f : Build → Outcome A)
    → f debug ≡ f release
    → Returns (f release) P
    → (build : Build) → Returns (f build) P
either_build P f same h debug = subst (λ o. Returns o P) (sym same) h
either_build P f same h release = h

pub Returns-map {ℓ} :
    {A : Type ℓ} (P Q : A → Type 0)
    → ((a : A) → P a → Q a)
    → (o : Outcome A) → Returns o P
    → Returns o Q
Returns-map P Q f (returns a) h = f a h
Returns-map P Q f aborts h = h
Returns-map P Q f undefined h = h

pub Returns-bind {ℓ κ} :
    {A : Type ℓ} {B : Type κ} (P : A → Type 0) (Q : B → Type 0) (f : A → Outcome B)
    → ((a : A) → P a → Returns (f a) Q)
    → (o : Outcome A) → Returns o P
    → Returns (o >>= f) Q
Returns-bind P Q f k (returns a) h = k a h
Returns-bind P Q f k aborts h = h
Returns-bind P Q f k undefined h = h

-- A call that returns has a result.
pub Returns-result {ℓ} :
    {A : Type ℓ} (P : A → Type 0) (o : Outcome A) → Returns o P → (a : A) × (o ≡ returns a) × P a
Returns-result P (returns a) h = (a, refl, h)
Returns-result P aborts h = absurd h
Returns-result P undefined h = absurd h

-- A result that is named satisfies what every result satisfies.
pub Returns-at {ℓ} :
    {A : Type ℓ} (P : A → Type 0) {o : Outcome A} {a : A} → o ≡ returns a → Returns o P → P a
Returns-at P e h = subst (λ o. Returns o P) e h

-- What returns in two parts returns from each.
pub bind_inverse {ℓ κ} :
    {A : Type ℓ} {B : Type κ} (o : Outcome A) (f : A → Outcome B) {b : B}
    → o >>= f ≡ returns b
    → (a : A) × (o ≡ returns a) × (f a ≡ returns b)
bind_inverse (returns a) f e = (a, refl, e)
bind_inverse aborts f e = absurd (cc e)
bind_inverse undefined f e = absurd (cc e)

pub returns_injective {ℓ} : {A : Type ℓ} {a b : A} → returns a ≡ returns b → a ≡ b
returns_injective e = cc

pub bind_ext {ℓ κ} :
    {A : Type ℓ} {B : Type κ} (o : Outcome A) (f g : A → Outcome B)
    → ((a : A) → f a ≡ g a)
    → o >>= f ≡ o >>= g
bind_ext (returns a) f g h = h a
bind_ext aborts f g h = refl
bind_ext undefined f g h = refl
