-- ===== src/Thread/Names.antt =====
-- The names that Linux shows for the threads of an engine.
use tux_base_mmo.Common.{
  ℕ, zero, suc, ◌+◌, ◌/◌, ◌%◌, ◌≤◌, ◌<◌, ◌≡◌, refl, sym, ap, ◌∙◌, Bool, true, false, [], ◌∷◌, ◌++◌,
  take, get_or, Text, ascii, digit, digits, decimal, strncpy, NoNul, c_string-take, ltb, ◌==◌,
  if◌then◌else◌, arith,
}
use tux_base_mmo.Thread.{set_name, thread_name}

-- The name that is shown is cut to 15 bytes.
set_name-take : (memory : ℕ → ℕ) (name : Text) → NoNul name → set_name memory name ≡ take 15 name
unfolding set_name
set_name-take memory name plain =
    c_string-take (λ i. if i == 15 then 0 else strncpy memory name 15 i) 0 15 15 name (omega arith)
      plain (λ j lt. ground (arith, same j)) refl
  where
    same : (j : ℕ) → get_or name (0 + j) 0 ≡ get_or name j 0
    same j = ap (λ k. get_or name k 0) (omega arith)

NoNul-append : (xs ys : Text) → NoNul xs → NoNul ys → NoNul (xs ++ ys)
NoNul-append [] ys h k = k
NoNul-append (x ∷ xs) ys h k = (h.0, NoNul-append xs ys (h.1) k)

digits-NoNul : (fuel n : ℕ) → NoNul (digits 10 fuel n)
digits-NoNul zero n = tt
digits-NoNul (suc fuel) n =
    one_or_more (ltb n 10) (digits 10 fuel (n / 10)) n (digits-NoNul fuel (n / 10))
  where
    digit_pos : (d : ℕ) → 0 < digit d
    digit_pos d = ground arith

    one_or_more :
        (b : Bool) (rest : Text) (n : ℕ)
        → NoNul rest
        → NoNul (if b then digit n ∷ [] else rest ++ (digit (n % 10) ∷ []))
    one_or_more true rest n h = (digit_pos n, tt)
    one_or_more false rest n h = NoNul-append rest (digit (n % 10) ∷ []) h (digit_pos (n % 10), tt)

digits_one : (fuel n : ℕ) → n < 10 → digits 10 (suc fuel) n ≡ digit n ∷ []
digits_one fuel n h = ground arith

digits_more :
    (fuel n : ℕ)
    → 10 ≤ n
    → digits 10 (suc fuel) n ≡ digits 10 fuel (n / 10) ++ (digit (n % 10) ∷ [])
digits_more fuel n h = ground arith

-- The digits of a number of three digits
abbrev three : ℕ → Text
three n = digit (n / 10 / 10) ∷ digit (n / 10 % 10) ∷ digit (n % 10) ∷ []

digits-three : (fuel n : ℕ) → 100 ≤ n → n < 1000 → digits 10 (suc (suc (suc fuel))) n ≡ three n
digits-three fuel n low high =
    rw
      (
        digits_more (suc (suc fuel)) n (omega arith),
        digits_more (suc fuel) (n / 10) (omega arith),
        digits_one fuel (n / 10 / 10) (omega arith),
      )
      refl

decimal-three : (n : ℕ) → 100 ≤ n → n < 1000 → decimal n ≡ three n
unfolding decimal
decimal-three n low high = digits-three 7 n low high

decimal_thousands :
    (n : ℕ) → 1000 ≤ n → n < 10000 → decimal n ≡ three (n / 10) ++ (digit (n % 10) ∷ [])
unfolding decimal
decimal_thousands n low high =
    digits_more 9 n (omega arith)
    ∙ ap (λ l. l ++ (digit (n % 10) ∷ [])) (digits-three 6 (n / 10) (omega arith) (omega arith))

decimal-NoNul : (n : ℕ) → NoNul (decimal n)
unfolding decimal
decimal-NoNul n = digits-NoNul 10 n

shown-take : (memory : ℕ → ℕ) (i : ℕ) → set_name memory (thread_name i) ≡ take 15 (thread_name i)
shown-take memory i =
    set_name-take memory (thread_name i)
      (NoNul-append (ascii "NetEngineIO_") (decimal i) (ground arith) (decimal-NoNul i))

-- From the thousandth thread of an engine on, Linux shows a name that another thread of the engine has:
-- thread `i` and thread `i / 10` have the same.
names_clash :
    (memory other : ℕ → ℕ) (i : ℕ)
    → 1000 ≤ i
    → i < 10000
    → set_name memory (thread_name i) ≡ set_name other (thread_name (i / 10))
names_clash memory other i low high =
    shown-take memory i
    ∙ ap (λ t. take 15 (ascii "NetEngineIO_" ++ t)) (decimal_thousands i low high)
    ∙ ap (λ t. take 15 (ascii "NetEngineIO_" ++ t))
        (sym (decimal-three (i / 10) (omega arith) (omega arith)))
    ∙ sym (shown-take other (i / 10))
