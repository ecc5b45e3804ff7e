-- ===== src/Http/Context/Stoi.antt =====
-- `std::stoi` reads what `std::to_string` writes.
use workplace.Common.{Bool, Bool-cases, [], ap, arith, false, inl, inr, ltb, refl, some, suc, true}
use workplace.Common.{zero, ℕ, ◌%◌, ◌+◌, ◌/◌, ◌<◌, ◌∙◌, ◌∷◌, ◌≡◌, ◌≤◌}
use workplace.Common.Int.{negsuc, pos, ℤ}
use workplace.Common.Text.{Text, skip_space}
use workplace.Http.Context.{digits, number, signed, starts_with_digit, stoi, unsigned_part}
use workplace.Http.Cors.{to_string}
use workplace.Http.Response.{decimal, decimal_from}

-- A text that begins with a digit.
StartsWithDigit : Text → Type 0
StartsWithDigit s = (c : ℕ) × (rest : Text) × (s ≡ c ∷ rest) × (b'0' ≤ c) × (c ≤ b'9')

decimal_from-StartsWithDigit :
    (fuel n : ℕ) (acc : Text) → n < fuel → StartsWithDigit (decimal_from fuel n acc)
unfolding StartsWithDigit decimal_from
decimal_from-StartsWithDigit zero n acc h = absurd (omega arith)
decimal_from-StartsWithDigit (suc fuel) n acc h = elim (Bool-cases (ltb n 10)) [
  | inl small ↦ rw small (b'0' + n, acc, refl, omega arith, ground arith)
  | inr large ↦
      rw large (decimal_from-StartsWithDigit fuel (n / 10) ((b'0' + n % 10) ∷ acc) (ground arith))
]

digits-decimal_from :
    (fuel n : ℕ) (acc : Text) → n < fuel → digits 0 (decimal_from fuel n acc) ≡ digits n acc
unfolding digits decimal_from
digits-decimal_from zero n acc h = absurd (omega arith)
digits-decimal_from (suc fuel) n acc h = elim (Bool-cases (ltb n 10)) [
  | inl small ↦ rw small (ground arith)
  | inr large ↦
      rw large
        (digits-decimal_from fuel (n / 10) ((b'0' + n % 10) ∷ acc) (ground arith) ∙ ground arith)
]

number_eq :
    (negative : Bool) (s : Text)
    → StartsWithDigit s
    → number negative s ≡ signed negative (digits 0 s)
unfolding StartsWithDigit number starts_with_digit
number_eq negative s (c, rest, e, low, high) = rw e (ground (arith, low, high))

digits-nil : (n : ℕ) → digits n [] ≡ n
unfolding digits
digits-nil n = refl

digits-decimal : (n : ℕ) → digits 0 (decimal n) ≡ n
unfolding decimal
digits-decimal n = digits-decimal_from (suc n) n [] (omega arith) ∙ digits-nil n

number-decimal : (negative : Bool) (n : ℕ) → number negative (decimal n) ≡ signed negative n
unfolding decimal
number-decimal negative n =
    number_eq negative (decimal n) (decimal_from-StartsWithDigit (suc n) n [] (omega arith))
    ∙ ap (signed negative) (digits-decimal n)

unsigned_part-digit : (s : Text) → StartsWithDigit s → stoi s ≡ number false s
unfolding StartsWithDigit stoi skip_space unsigned_part
unsigned_part-digit s (c, rest, e, low, high) = rw e (ground (arith, low, high))

-- The integers of an `int`.
abbrev pub IsInt : ℤ → Type 0
IsInt (pos n) = n < 2147483648
IsInt (negsuc n) = n < 2147483648

-- `std::stoi` reads every `int` back from the text that `std::to_string` writes for it.
pub stoi-to_string : (i : ℤ) → IsInt i → stoi (to_string i) ≡ some i
unfolding stoi skip_space unsigned_part decimal
stoi-to_string (pos n) h =
    unsigned_part-digit (decimal n) (decimal_from-StartsWithDigit (suc n) n [] (omega arith))
    ∙ number-decimal false n
    ∙ ground arith
stoi-to_string (negsuc n) h = number-decimal true (n + 1) ∙ ground arith
