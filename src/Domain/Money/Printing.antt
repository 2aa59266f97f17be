-- ===== src/Domain/Money/Printing.antt =====
-- Decimal digits: printing a number and reading it back.
use native.Mathlib.Nat.{pow-suc}
use auto_camera.Common.{
  ℕ, zero, suc, ◌+◌, ◌-◌, ◌*◌, ◌/◌, ◌%◌, ◌^◌, ◌≤◌, ◌<◌, ◌≡◌, refl, true, false, [], ◌∷◌, ◌++◌, Text,
  ltb, length, length-append, is_empty, all, all-append, arith, Bool-cases, inl, inr,
}
use auto_camera.Js.Date.{is_digit, decimal_from}
use auto_camera.Domain.Money.{digits_fuel, print_decimal, span_digits}

pub decimal_from-append :
    (acc : ℕ) (s t : Text) → decimal_from acc (s ++ t) ≡ decimal_from (decimal_from acc s) t
unfolding decimal_from
decimal_from-append acc [] t = refl
decimal_from-append acc (c ∷ s) t = decimal_from-append (acc * 10 + (c - 48)) s t

-- Reading the digits of `n` gives `n`, whatever the fuel above `n`.
digits_fuel-decimal : (fuel n : ℕ) → n < fuel → decimal_from 0 (digits_fuel fuel n) ≡ n
unfolding digits_fuel
digits_fuel-decimal zero n h = elim h [ ]
digits_fuel-decimal (suc fuel) n h = elim (Bool-cases (ltb n 10)) [
  | inl small ↦ rw small (unfold decimal_from in omega arith)
  | inr large ↦
      rw (large, decimal_from-append, digits_fuel-decimal fuel (n / 10) (ground arith))
        (unfold decimal_from in omega arith)
]

digits_fuel-digits : (fuel n : ℕ) → all is_digit (digits_fuel fuel n) ≡ true
unfolding digits_fuel
digits_fuel-digits zero n = refl
digits_fuel-digits (suc fuel) n = elim (Bool-cases (ltb n 10)) [
  | inl small ↦ rw small (ground arith)
  | inr large ↦ rw (large, all-append, digits_fuel-digits fuel (n / 10)) (ground arith)
]

digits_fuel-nonempty : (fuel n : ℕ) → is_empty (digits_fuel (suc fuel) n) ≡ false
unfolding digits_fuel
digits_fuel-nonempty fuel n = elim (Bool-cases (ltb n 10)) [
  | inl small ↦ rw small
  | inr large ↦
      rw large
        (elim (digits_fuel fuel (n / 10)) as (λ r. is_empty (r ++ (48 + n % 10) ∷ []) ≡ false) [
          | [] ↦ refl
          | _ ∷ _ ↦ refl
        ])
]

length-digits_fuel : (fuel n k : ℕ) → n < 10 ^ suc k → length (digits_fuel fuel n) ≤ suc k
unfolding digits_fuel
length-digits_fuel zero n k h = omega arith
length-digits_fuel (suc fuel) n zero h =
    let small : ltb n 10 ≡ true = ground (arith, pow-suc 10 0) in rw small (omega arith)
length-digits_fuel (suc fuel) n (suc k) h = elim (Bool-cases (ltb n 10)) [
  | inl small ↦ rw small (omega arith)
  | inr large ↦
      let shorter = length-digits_fuel fuel (n / 10) k (omega (arith, pow-suc 10 (suc k))) in
      rw (large, length-append) (omega arith)
]

pub length-print_decimal : (n k : ℕ) → n < 10 ^ suc k → length (print_decimal n) ≤ suc k
unfolding print_decimal
length-print_decimal n k h = length-digits_fuel (suc n) n k h

pub print_decimal-decimal : (n : ℕ) → decimal_from 0 (print_decimal n) ≡ n
unfolding print_decimal
print_decimal-decimal n = digits_fuel-decimal (suc n) n (omega arith)

pub print_decimal-digits : (n : ℕ) → all is_digit (print_decimal n) ≡ true
unfolding print_decimal
print_decimal-digits n = digits_fuel-digits (suc n) n

pub print_decimal-nonempty : (n : ℕ) → is_empty (print_decimal n) ≡ false
unfolding print_decimal
print_decimal-nonempty n = digits_fuel-nonempty n n

-- The digits in front of a text that starts with something else are split off whole.
pub span_digits-append :
    (s rest : Text) (c : ℕ)
    → all is_digit s ≡ true
    → is_digit c ≡ false
    → span_digits (s ++ c ∷ rest) ≡ (s, c ∷ rest)
span_digits-append [] rest c h n = rw n
span_digits-append (d ∷ s) rest c h n = ground (arith, span_digits-append s rest c)

pub span_digits-all : (s : Text) → all is_digit s ≡ true → span_digits s ≡ (s, [])
span_digits-all [] h = refl
span_digits-all (d ∷ s) h = ground (arith, span_digits-all s)
