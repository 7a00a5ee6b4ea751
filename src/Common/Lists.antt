-- ===== src/Common/Lists.antt =====
-- Lists measured and cut by native numbers, under the library's names, and the cells of an array
-- that is a function from indices.
use Prim.Native.Nat.{ℕ, zero, suc, ◌+◌, ◌-◌, ◌≤◌, ◌<◌}
use mathlib.Core.Path.{◌≡◌, refl, ap, ap₂, ◌∙◌}
use mathlib.Core.Bool.{◌&&◌}
use mathlib.Core.Logic.{◌⊎◌}
use mathlib.Core.Option.{Option, none, some}
use mathlib.Core.List.{List, [], ◌∷◌, ◌++◌}
use native.Mathlib.Omega.{arith}
use tux_base_mmo.Common.Tests.{ltb, leb, if◌then◌else◌}

module _ {ℓ} {A : Type ℓ} where
  abbrev pub length : List A → ℕ
  length [] = 0
  length (x ∷ xs) = suc (length xs)

  abbrev pub get_elem? : List A → ℕ → Option A
  get_elem? [] i = none
  get_elem? (x ∷ xs) zero = some x
  get_elem? (x ∷ xs) (suc i) = get_elem? xs i

  abbrev pub get_or : List A → ℕ → A → A
  get_or [] i d = d
  get_or (x ∷ xs) zero d = x
  get_or (x ∷ xs) (suc i) d = get_or xs i d

  abbrev pub take : ℕ → List A → List A
  take zero xs = []
  take (suc n) [] = []
  take (suc n) (x ∷ xs) = x ∷ take n xs

  abbrev pub drop : ℕ → List A → List A
  drop zero xs = xs
  drop (suc n) [] = []
  drop (suc n) (x ∷ xs) = drop n xs

  abbrev pub replicate : ℕ → A → List A
  replicate zero a = []
  replicate (suc n) a = a ∷ replicate n a

  pub length-append : (xs ys : List A) → length (xs ++ ys) ≡ length xs + length ys
  length-append [] ys = omega arith
  length-append (x ∷ xs) ys = omega (arith, length-append xs ys)

  pub take-append-drop : (n : ℕ) (xs : List A) → take n xs ++ drop n xs ≡ xs
  take-append-drop zero xs = refl
  take-append-drop (suc n) [] = refl
  take-append-drop (suc n) (x ∷ xs) = ap (◌∷◌ x) (take-append-drop n xs)

  pub take-append : (xs ys : List A) → take (length xs) (xs ++ ys) ≡ xs
  take-append [] ys = refl
  take-append (x ∷ xs) ys = ap (◌∷◌ x) (take-append xs ys)

  pub drop-append : (xs ys : List A) → drop (length xs) (xs ++ ys) ≡ ys
  drop-append [] ys = refl
  drop-append (x ∷ xs) ys = drop-append xs ys

  pub length-replicate : (n : ℕ) (a : A) → length (replicate n a) ≡ n
  length-replicate zero a = refl
  length-replicate (suc n) a = ap suc (length-replicate n a)

-- The `n` cells of an array from index `i` on.
abbrev pub slice {ℓ} : {A : Type ℓ} → (ℕ → A) → ℕ → ℕ → List A
slice m i zero = []
slice m i (suc n) = m i ∷ slice m (suc i) n

-- The array after `memcpy` of a list to the cells from index `p` on.
abbrev pub store {ℓ} : {A : Type ℓ} → (ℕ → A) → ℕ → List A → ℕ → A
store m p xs i = if leb p i && ltb i (p + length xs) then get_or xs (i - p) (m i) else m i

module _ {ℓ} {A : Type ℓ} where
  pub length-slice : (m : ℕ → A) (i n : ℕ) → length (slice m i n) ≡ n
  length-slice m i zero = refl
  length-slice m i (suc n) = ap suc (length-slice m (suc i) n)

  pub get_or-slice : (m : ℕ → A) (i n j : ℕ) (d : A) → j < n → get_or (slice m i n) j d ≡ m (i + j)
  get_or-slice m i zero j d h = absurd (omega arith)
  get_or-slice m i (suc n) zero d h = ap m {x = i} {y = i + 0} (omega arith)
  get_or-slice m i (suc n) (suc j) d h =
      get_or-slice m (suc i) n j d (omega arith)
      ∙ ap m {x = suc i + j} {y = i + suc j} (omega arith)

  pub slice_add : (m : ℕ → A) (i a b : ℕ) → slice m i (a + b) ≡ slice m i a ++ slice m (i + a) b
  slice_add m i zero b = ap₂ (slice m) {x = i} (omega arith) (omega arith)
  slice_add m i (suc a) b =
      ap (slice m i) {x = suc a + b} {y = suc (a + b)} (omega arith)
      ∙ ap (◌∷◌ (m i)) (
          slice_add m (suc i) a b
          ∙ ap (λ j. slice m (suc i) a ++ slice m j b) {x = suc i + a} {y = i + suc a}
              (omega arith))

  -- Two arrays that agree on a range have the same slice there.
  pub slice_congr :
      (m k : ℕ → A) (i n : ℕ)
      → ((j : ℕ) → i ≤ j → j < i + n → m j ≡ k j)
      → slice m i n ≡ slice k i n
  slice_congr m k i zero h = refl
  slice_congr m k i (suc n) h =
      ap₂ ◌∷◌ (h i (omega arith) (omega arith))
        (slice_congr m k (suc i) n (λ j p q. h j (omega arith) (omega arith)))

  -- The same of two ranges that begin at different indices.
  pub slice_shift :
      (m k : ℕ → A) (i j n : ℕ)
      → ((l : ℕ) → l < n → m (i + l) ≡ k (j + l))
      → slice m i n ≡ slice k j n
  slice_shift m k i j zero h = refl
  slice_shift m k i j (suc n) h =
      ap₂ ◌∷◌
        (ap m {x = i} {y = i + 0} (omega arith)
          ∙ h 0 (omega arith)
          ∙ ap k {x = j + 0} (omega arith))
        (slice_shift m k (suc i) (suc j) n (λ l lt.
          ap m {x = suc i + l} {y = i + suc l} (omega arith)
          ∙ h (suc l) (omega arith)
          ∙ ap k {x = j + suc l} (omega arith)))

  pub slice-store_apart :
      (m : ℕ → A) (p : ℕ) (xs : List A) (i n : ℕ)
      → (i + n ≤ p) ⊎ (p + length xs ≤ i)
      → slice (store m p xs) i n ≡ slice m i n
  slice-store_apart m p xs i n apart = slice_congr (store m p xs) m i n (λ j a b. ground arith)

  -- A slice of cells that hold a list in order is that list.
  slice_of_list :
      (m : ℕ → A) (d : A) (i : ℕ) (xs : List A)
      → ((j : ℕ) → j < length xs → m (i + j) ≡ get_or xs j d)
      → slice m i (length xs) ≡ xs
  slice_of_list m d i [] h = refl
  slice_of_list m d i (x ∷ xs) h =
      ap₂ ◌∷◌ (ap m {x = i} {y = i + 0} (omega arith) ∙ h 0 (omega arith)) (
        slice_of_list m d (suc i) xs
          (λ j lt. ap m {x = suc i + j} {y = i + suc j} (omega arith) ∙ h (suc j) (omega arith)))

  get_or_default : (xs : List A) (j : ℕ) (d e : A) → j < length xs → get_or xs j d ≡ get_or xs j e
  get_or_default [] j d e h = absurd (omega arith)
  get_or_default (x ∷ xs) zero d e h = refl
  get_or_default (x ∷ xs) (suc j) d e h = get_or_default xs j d e (omega arith)

  pub slice-store_self : (m : ℕ → A) (p : ℕ) (xs : List A) → slice (store m p xs) p (length xs) ≡ xs
  slice-store_self m p xs =
      slice_of_list (store m p xs) (m p) p xs
        (λ j lt. ground (arith, get_or_default xs j (m (p + j)) (m p), get_at j))
    where
      get_at : (j : ℕ) → get_or xs (p + j - p) (m (p + j)) ≡ get_or xs j (m (p + j))
      get_at j = ap (λ k. get_or xs k (m (p + j))) {x = p + j - p} {y = j} (omega arith)
