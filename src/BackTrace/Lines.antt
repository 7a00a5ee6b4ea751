-- ===== src/BackTrace/Lines.antt =====
-- What ResolveAddr reads of its command.
use tux_base_mmo.Common.{
  ℕ, zero, suc, ◌≤◌, ◌≡◌, refl, sym, ap, ◌∙◌, inl, inr, Bool-cases, length-append, Option, none,
  some, [], ◌∷◌, ◌++◌, append-nil, append_assoc, length, arith, Text, ◌==◌, if◌then◌else◌,
}
use tux_base_mmo.BackTrace.{fgets, read_lines, is_found, source_position}

fgets-append : (n : ℕ) (text : Text) → (fgets n text).0 ++ (fgets n text).1 ≡ text
fgets-append zero text = refl
fgets-append (suc n) [] = refl
fgets-append (suc n) (c ∷ rest) = elim (Bool-cases (c == 10)) [
  | inl line_end ↦ rw line_end refl
  | inr within ↦ rw within (ap (◌∷◌ c) (fgets-append n rest))
]

fgets_takes : (n : ℕ) (c : ℕ) (rest : Text) → length (fgets (suc n) (c ∷ rest)).1 ≤ length rest
fgets_takes n c rest = elim (Bool-cases (c == 10)) [
  | inl line_end ↦ rw line_end (omega arith)
  | inr within ↦ rw within (
      omega
        (arith, length-append (fgets n rest).0 (fgets n rest).1, ap length (fgets-append n rest)))
]

-- As much fuel as there are bytes is enough, and all of them are read.
pub read_lines_all :
    (fuel : ℕ) (text out : Text)
    → length text ≤ fuel
    → read_lines fuel text out ≡ some (out ++ text)
unfolding read_lines
read_lines_all zero [] out h = ap some (sym (append-nil out))
read_lines_all zero (c ∷ rest) out h = absurd (omega arith)
read_lines_all (suc fuel) [] out h = ap some (sym (append-nil out))
read_lines_all (suc fuel) (c ∷ rest) out h =
    read_lines_all fuel _ _ (omega (arith, fgets_takes 510 c rest))
    ∙ ap some (append_assoc out _ _ ∙ ap (◌++◌ out) (fgets-append 511 (c ∷ rest)))

-- What a frame is given: what the command prints, unless it begins with two question marks.
abbrev pub shown : Option Text → Option Text
shown none = none
shown (some text) = if is_found text then some text else none

pub source_position-shown : (o : Option Text) → source_position o ≡ shown o
source_position-shown none = refl
source_position-shown (some text) = rw (read_lines_all (length text) text [] (omega arith)) refl
