-- ===== src/Base/Number.antt =====
-- `Number(s)` of a text, and the way back from a printed number.
use mathlib.Core.List.{reverse, reverse_aux, reverse-reverse}
use nest_protocol.Base.{
  ℕ, zero, suc, ◌+◌, ◌*◌, ◌/◌, ◌%◌, ◌-◌, ◌≤◌, ◌<◌, ◌≡◌, refl, ap, ◌∙◌, true, false, ◌&&◌, Option,
  none, some, [], ◌∷◌, All, leb, ltb, if◌then◌else◌, arith, Bool-cases, inl, inr,
}
use nest_protocol.Base.Text.{Text, trim, trim_start, is_space, decimal, decimal_from}

unfoldable pub digits_value : ℕ → Text → Option ℕ
digits_value acc [] = some acc
digits_value acc (c ∷ s) =
    let rest = digits_value (acc * 10 + (c - 48)) s in
    if leb b'0' c && leb c b'9' then rest else none

-- `Number(s)`, `none` for NaN. Of the texts that JavaScript reads as numbers these are the decimal
-- integers and white space; signs, fractions, exponents and prefixes count as NaN here.
unfoldable pub to_number : Text → Option ℕ
to_number s = digits_value 0 (trim s)

abbrev pub IsDigit : ℕ → Type 0
IsDigit c = (48 ≤ c) × (c ≤ 57)

digit-is_space : (c : ℕ) → IsDigit c → is_space c ≡ false
unfolding is_space
digit-is_space c h = ground arith

trim_start-digits : (s : Text) → All IsDigit s → trim_start s ≡ s
unfolding trim_start
trim_start-digits [] h = refl
trim_start-digits (c ∷ s) h = rw (digit-is_space c h.0) refl

reverse_aux-digits :
    (s acc : Text) → All IsDigit s → All IsDigit acc → All IsDigit (reverse_aux s acc)
reverse_aux-digits [] acc h k = k
reverse_aux-digits (c ∷ s) acc h k = reverse_aux-digits s (c ∷ acc) h.1 (h.0, k)

trim-digits : (s : Text) → All IsDigit s → trim s ≡ s
unfolding trim
trim-digits s h =
    rw (trim_start-digits s h)
      (rw (trim_start-digits (reverse s) (reverse_aux-digits s [] h tt)) (reverse-reverse s))

decimal_from-digits :
    (fuel n : ℕ) (acc : Text) → All IsDigit acc → All IsDigit (decimal_from fuel n acc)
unfolding decimal_from
decimal_from-digits zero n acc h = h
decimal_from-digits (suc fuel) n acc h = elim (Bool-cases (ltb n 10)) [
  | inl small ↦ rw small ((omega arith, ground arith), h)
  | inr large ↦
      rw large
        (decimal_from-digits fuel (n / 10) ((n % 10 + 48) ∷ acc) ((omega arith, omega arith), h))
]

digit_tests : (d : ℕ) → d < 10 → (leb 48 (d + 48) && leb (d + 48) 57) ≡ true
digit_tests d h = ground arith

digits_value-cons :
    (acc d : ℕ) (s : Text)
    → d < 10
    → digits_value acc ((d + 48) ∷ s) ≡ digits_value (acc * 10 + d) s
unfolding digits_value
digits_value-cons acc d s h =
    rw (digit_tests d h) (ap (λ e. digits_value (acc * 10 + e) s) (omega arith))

digits_value-decimal_from :
    (fuel n : ℕ) (acc : Text)
    → n < fuel
    → digits_value 0 (decimal_from fuel n acc) ≡ digits_value n acc
unfolding decimal_from
digits_value-decimal_from zero n acc h = ground arith
digits_value-decimal_from (suc fuel) n acc h = elim (Bool-cases (ltb n 10)) [
  | inl small ↦
      rw small
        (digits_value-cons 0 n acc (ground arith) ∙ ap (λ m. digits_value m acc) (omega arith))
  | inr large ↦ rw large (
      digits_value-decimal_from fuel (n / 10) ((n % 10 + 48) ∷ acc) (ground arith)
      ∙ digits_value-cons (n / 10) (n % 10) acc (omega arith)
      ∙ ap (λ m. digits_value m acc) (omega arith))
]

pub decimal-digits : (n : ℕ) → All IsDigit (decimal n)
unfolding decimal
decimal-digits n = decimal_from-digits (suc n) n [] tt

digits_value-decimal : (n : ℕ) → digits_value 0 (decimal n) ≡ some n
unfolding decimal digits_value
digits_value-decimal n = digits_value-decimal_from (suc n) n [] (omega arith)

pub to_number-decimal : (n : ℕ) → to_number (decimal n) ≡ some n
unfolding to_number
to_number-decimal n =
    ap (digits_value 0) (trim-digits (decimal n) (decimal-digits n)) ∙ digits_value-decimal n

pub decimal-inj : (m n : ℕ) → decimal m ≡ decimal n → m ≡ n
decimal-inj m n h = cc (to_number-decimal m, to_number-decimal n, ap to_number h)
