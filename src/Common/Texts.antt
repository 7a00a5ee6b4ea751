-- ===== src/Common/Texts.antt =====
-- Text as the list of its bytes, and C strings: bytes in memory up to the first 0.
use Prim.Native.Nat.{ℕ, zero, suc, ◌+◌, ◌/◌, ◌%◌, ◌≤◌, ◌<◌}
use Prim.Native.Char.{code}
use Prim.Native.String.{String}
use mathlib.Core.Path.{◌≡◌, ap, ◌∙◌}
use mathlib.Core.List.{List, [], ◌∷◌, ◌++◌}
use native.Mathlib.Omega.{arith}
use tux_base_mmo.Common.Tests.{ltb, ◌==◌, if◌then◌else◌}
use tux_base_mmo.Common.Lists.{get_or, take}

abbrev pub Text : Type 0
Text = List ℕ

-- The bytes of a literal in ASCII
abbrev pub ascii : String → Text
ascii String.[] = []
ascii (String.◌∷◌ c rest) = code c ∷ ascii rest

-- The digits of a number in a base, as many as it has and at most as many as the fuel
abbrev pub digit : ℕ → ℕ
digit d = if ltb d 10 then 48 + d else 87 + d

abbrev pub digits : ℕ → ℕ → ℕ → Text
digits base zero n = []
digits base (suc fuel) n =
    let rest = digits base fuel (n / base) in
    if ltb n base then digit n ∷ [] else rest ++ (digit (n % base) ∷ [])

-- `std::to_string` of a UINT32, or of an `int` that is not negative
unfoldable pub decimal : ℕ → Text
decimal n = digits 10 10 n

-- The memory after `strncpy(memory, source, n)`: what the source does not fill is 0, and there is
-- no 0 if the source has `n` bytes or more.
abbrev pub strncpy : (ℕ → ℕ) → Text → ℕ → ℕ → ℕ
strncpy memory source n i = if ltb i n then get_or source i 0 else memory i

-- The bytes from `i` on up to the first 0, of at most `n`
abbrev pub c_string : (ℕ → ℕ) → ℕ → ℕ → Text
c_string memory i zero = []
c_string memory i (suc n) =
    let rest = c_string memory (suc i) n in if memory i == 0 then [] else memory i ∷ rest

-- No byte is 0.
abbrev pub NoNul : Text → Type 0
NoNul [] = Unit {0}
NoNul (c ∷ rest) = (0 < c) × NoNul rest

c_string_step :
    (memory : ℕ → ℕ) (i n c : ℕ) (rest : Text)
    → memory i ≡ c
    → 0 < c
    → c_string memory (suc i) n ≡ rest
    → c_string memory i (suc n) ≡ c ∷ rest
c_string_step memory i n c rest first pos later = rw later (rw first (ground arith))

-- Memory that holds the first `n` bytes of a text and then a 0 holds that C string.
pub c_string-take :
    (memory : ℕ → ℕ) (i n room : ℕ) (text : Text)
    → n ≤ room
    → NoNul text
    → ((j : ℕ) → j < n → memory (i + j) ≡ get_or text j 0)
    → memory (i + n) ≡ 0
    → c_string memory i (suc room) ≡ take n text
c_string-take memory i zero room text fits h same last =
    ground (arith, ap memory {x = i} {y = i + 0} (omega arith))
c_string-take memory i (suc n) room [] fits h same last =
    ground (arith, ap memory {x = i} {y = i + 0} (omega arith), same 0 (omega arith))
c_string-take memory i (suc n) zero (c ∷ rest) fits h same last = absurd (omega arith)
c_string-take memory i (suc n) (suc room) (c ∷ rest) fits h same last =
    let first = ap memory {x = i} {y = i + 0} (omega arith) ∙ same 0 (omega arith) in
    let later =
      c_string-take memory (suc i) n room rest (omega arith) (h.1)
        (λ j lt.
          ap memory {x = suc i + j} {y = i + suc j} (omega arith) ∙ same (suc j) (omega arith))
        (ap memory {x = suc i + n} {y = i + suc n} (omega arith) ∙ last) in
    c_string_step memory i (suc room) c (take n rest) first (h.0) later
