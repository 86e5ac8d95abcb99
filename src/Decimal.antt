-- ===== src/Decimal.antt =====
-- `%d` of an unsigned number, and the number that a decimal text stands for.
use mathlib.Core.List.{foldl, foldl-append}
use chronos_code.Base.{
  Text, ℕ, zero, suc, ◌+◌, ◌-◌, ◌*◌, ◌/◌, ◌%◌, ◌<◌, ltb, [], ◌∷◌, ◌++◌, if◌then◌else◌, ◌≡◌, refl,
  sym, ◌∙◌, ap, arith, codes, Bool-cases, inl, inr,
}

-- The fuel is spent on one digit each; a number has fewer digits than its value and one more.
digits : ℕ → ℕ → Text
digits zero n = []
digits (suc fuel) n =
    let rest = digits fuel (n / 10) in
    if ltb n 10 then (b'0' + n) ∷ [] else rest ++ (b'0' + n % 10) ∷ []

unfoldable pub format : ℕ → Text
unfolding digits
format n = digits (suc n) n

abbrev add_digit : ℕ → ℕ → ℕ
add_digit n c = n * 10 + (c - b'0')

value : Text → ℕ
value = foldl add_digit 0

value-digits : (fuel n : ℕ) → n < fuel → value (digits fuel n) ≡ n
unfolding digits value
value-digits zero n h = absurd (omega arith)
value-digits (suc fuel) n h = elim (Bool-cases (ltb n 10)) [
  | inl small ↦ rw small (ground arith)
  | inr large ↦ rw large (
      ground (
        arith,
        foldl-append add_digit 0 (digits fuel (n / 10)) ((b'0' + n % 10) ∷ []),
        value-digits fuel (n / 10),
      ))
]

-- Different numbers are printed differently.
pub format-injective : (m n : ℕ) → format m ≡ format n → m ≡ n
unfolding format
format-injective m n e =
    sym (value-digits (suc m) m (omega arith)) ∙ ap value e ∙ value-digits (suc n) n (omega arith)

format_runs : format 18446744073709551615 ≡ codes "18446744073709551615"
unfolding format
format_runs = refl
