-- ===== src/Domain/Money/RoundTrip.antt =====
-- `formatMicrousdToUsd` and back by `parseUsdToMicrousd`.
use mathlib.Core.List.{reverse-append, reverse-reverse, reverse-cons}
use auto_camera.Common.{
  ℕ, zero, suc, ◌+◌, ◌-◌, ◌*◌, ◌/◌, ◌%◌, ◌≤◌, ◌<◌, ◌≡◌, refl, sym, ap, ◌∙◌, true, false, not, ◌&&◌,
  some, [], ◌∷◌, ◌++◌, reverse, Text, ◌==◌, ==_iff, length, length-append, length-replicate,
  is_empty, all, all-append, replicate, if◌then◌else◌, arith, Bool-cases, inl, inr, ok, is_white,
  trim_of_black,
}
use auto_camera.Js.Number.{max_safe_integer, int, pos}
use auto_camera.Js.Date.{is_digit, decimal_from}
use auto_camera.Domain.Money.{
  micro_usd_per_usd, pad_start, pad_end, drop_zeros, trim_zeros, print_decimal, match_span,
  match_money, assert_microusd, parse_match, parse_usd_to_microusd, string, format_microusd_to_usd,
}
use auto_camera.Domain.Money.Printing.{
  print_decimal-decimal, print_decimal-digits, print_decimal-nonempty, length-print_decimal,
  span_digits-append, span_digits-all,
}

abbrev zeros : ℕ → Text
zeros k = replicate k b'0'

decimal_from-zeros : (k : ℕ) (s : Text) → decimal_from 0 (zeros k ++ s) ≡ decimal_from 0 s
unfolding decimal_from
decimal_from-zeros zero s = refl
decimal_from-zeros (suc k) s = decimal_from-zeros k s

zeros-snoc : (k : ℕ) → zeros k ++ b'0' ∷ [] ≡ zeros (suc k)
zeros-snoc zero = refl
zeros-snoc (suc k) = ap (λ s. b'0' ∷ s) (zeros-snoc k)

reverse-zeros : (k : ℕ) → reverse (zeros k) ≡ zeros k
reverse-zeros zero = refl
reverse-zeros (suc k) = rw (reverse-cons, reverse-zeros k) (zeros-snoc k)

drop_zeros-split : (s : Text) → (k : ℕ) × (s ≡ zeros k ++ drop_zeros s)
drop_zeros-split [] = (0, refl)
drop_zeros-split (c ∷ s) = elim (Bool-cases (c == b'0')) [
  | inl same ↦ let (k, e) = drop_zeros-split s in (suc k, rw same (cc ((==_iff c b'0').0 same, e)))
  | inr other ↦ (0, rw other)
]

-- What `trimmed` has lost are zeros at the end.
trim_zeros-split : (s : Text) → (k : ℕ) × (s ≡ trim_zeros s ++ zeros k)
unfolding trim_zeros
trim_zeros-split s =
    let (k, e) = drop_zeros-split (reverse s) in
    (
      k,
      sym (reverse-reverse s)
          ∙ ap reverse e
          ∙ reverse-append (zeros k) (drop_zeros (reverse s))
          ∙ ap (λ t. reverse (drop_zeros (reverse s)) ++ t) (reverse-zeros k),
    )

-- Padding gives the zeros back.
pad_end-trim_zeros : (s : Text) → length s ≡ 6 → pad_end 6 (trim_zeros s) ≡ s
unfolding pad_end
pad_end-trim_zeros s six =
    let (k, e) = trim_zeros-split s in
    let total : 6 ≡ length (trim_zeros s) + k =
      sym six
      ∙ ap length e
      ∙ length-append (trim_zeros s) (zeros k)
      ∙ ap (λ n. length (trim_zeros s) + n) (length-replicate k b'0') in
    let gap : 6 - length (trim_zeros s) ≡ k = omega arith in rw gap (sym e)

trim_zeros-digits : (s : Text) → all is_digit s ≡ true → all is_digit (trim_zeros s) ≡ true
trim_zeros-digits s h =
    let (k, e) = trim_zeros-split s in
    ground (arith, all-append is_digit (trim_zeros s) (zeros k), ap (all is_digit) e)

length-trim_zeros : (s : Text) → length (trim_zeros s) ≤ length s
length-trim_zeros s =
    let (k, e) = trim_zeros-split s in
    omega (arith, ap length e, length-append (trim_zeros s) (zeros k))

-- `trimmed || '0'`
abbrev fraction_text : Text → Text
fraction_text t = if is_empty t then b'0' ∷ [] else t

fraction_text-nonempty : (t : Text) → is_empty (fraction_text t) ≡ false
fraction_text-nonempty [] = refl
fraction_text-nonempty (c ∷ t) = refl

fraction_text-digits : (t : Text) → all is_digit t ≡ true → all is_digit (fraction_text t) ≡ true
fraction_text-digits [] h = refl
fraction_text-digits (c ∷ t) h = h

length-fraction_text : (t : Text) → length t ≤ 6 → length (fraction_text t) ≤ 6
length-fraction_text [] h = omega arith
length-fraction_text (c ∷ t) h = h

pad_end-fraction_text :
    (t : Text) → decimal_from 0 (pad_end 6 (fraction_text t)) ≡ decimal_from 0 (pad_end 6 t)
unfolding pad_end decimal_from
pad_end-fraction_text [] = refl
pad_end-fraction_text (c ∷ t) = refl

-- The six digits of the fraction.
abbrev six_digits : ℕ → Text
six_digits micros = pad_start 6 (print_decimal micros)

module _ (micros : ℕ) (small : micros < micro_usd_per_usd) where
  length-six_digits : length (six_digits micros) ≡ 6
  unfolding pad_start
  length-six_digits =
      let bounded = length-print_decimal micros 5 small in
      rw (length-append, length-replicate) (omega arith)

  six_digits-digits : all is_digit (six_digits micros) ≡ true
  unfolding pad_start
  six_digits-digits =
      rw (all-append, print_decimal-digits micros)
        (zeros-digits (6 - length (print_decimal micros)))
    where
      zeros-digits : (k : ℕ) → (all is_digit (zeros k) && true) ≡ true
      zeros-digits zero = refl
      zeros-digits (suc k) = zeros-digits k

  six_digits-decimal : decimal_from 0 (six_digits micros) ≡ micros
  unfolding pad_start
  six_digits-decimal = decimal_from-zeros _ (print_decimal micros) ∙ print_decimal-decimal micros

  -- The fraction as it is printed, read back as the source reads it.
  fraction-decimal :
      decimal_from 0 (pad_end 6 (fraction_text (trim_zeros (six_digits micros)))) ≡ micros
  fraction-decimal =
      pad_end-fraction_text (trim_zeros (six_digits micros))
      ∙ ap (decimal_from 0) (pad_end-trim_zeros (six_digits micros) length-six_digits)
      ∙ six_digits-decimal

  fraction-digits : all is_digit (fraction_text (trim_zeros (six_digits micros))) ≡ true
  fraction-digits =
      fraction_text-digits (trim_zeros (six_digits micros))
        (trim_zeros-digits (six_digits micros) six_digits-digits)

  length-fraction : length (fraction_text (trim_zeros (six_digits micros))) ≤ 6
  length-fraction =
      length-fraction_text _
        (omega (arith, length-trim_zeros (six_digits micros), length-six_digits))

-- A text of digits, a point and at most six digits matches with these groups.
match_money-digits :
    (whole fraction : Text)
    → all is_digit whole ≡ true
    → is_empty whole ≡ false
    → all is_digit fraction ≡ true
    → is_empty fraction ≡ false
    → length fraction ≤ 6
    → match_money (whole ++ b'.' ∷ fraction) ≡ some (whole, fraction)
unfolding match_money
match_money-digits whole fraction dw nw df nf short =
    ap match_span (span_digits-append whole fraction b'.' dw refl)
    ∙ rw (nw, span_digits-all fraction df, nf) (ground arith)

digit-black : (c : ℕ) → is_digit c ≡ true → not (is_white c) ≡ true
digit-black c h = ground arith

digits-black : (s : Text) → all is_digit s ≡ true → all (λ c. not (is_white c)) s ≡ true
digits-black [] h = refl
digits-black (c ∷ s) h = ground (arith, digit-black c, digits-black s)

assert_microusd-pos :
    (value : ℕ) → value ≤ max_safe_integer → assert_microusd (int (pos value)) ≡ ok value
unfolding assert_microusd
assert_microusd-pos value safe = ground arith

black_text :
    (whole fraction : Text)
    → all is_digit whole ≡ true
    → all is_digit fraction ≡ true
    → all (λ c. not (is_white c)) (whole ++ b'.' ∷ fraction) ≡ true
black_text whole fraction dw df = rw (all-append, digits-black whole dw, digits-black fraction df)

-- What `parseUsdToMicrousd` makes of digits, a point and up to six digits.
parse_usd-digits :
    (whole fraction : Text)
    → all is_digit whole ≡ true
    → is_empty whole ≡ false
    → all is_digit fraction ≡ true
    → is_empty fraction ≡ false
    → length fraction ≤ 6
    → (value : ℕ)
    → decimal_from 0 whole * micro_usd_per_usd + decimal_from 0 (pad_end 6 fraction) ≡ value
    → value ≤ max_safe_integer
    → parse_usd_to_microusd (string (whole ++ b'.' ∷ fraction)) ≡ ok value
unfolding parse_usd_to_microusd
parse_usd-digits whole fraction dw nw df nf short value sum safe =
    ap (λ s. parse_match (match_money s))
      (trim_of_black (whole ++ b'.' ∷ fraction) (black_text whole fraction dw df))
    ∙ ap parse_match (match_money-digits whole fraction dw nw df nf short)
    ∙ ground arith

-- Every amount in the safe range is printed, and the text that is printed parses to that amount.
pub parse-format :
    (value : ℕ)
    → value ≤ max_safe_integer
    → (printed : Text) × (format_microusd_to_usd (some value) ≡ ok (some printed))
      × (parse_usd_to_microusd (string printed) ≡ ok value)
unfolding format_microusd_to_usd
parse-format value safe =
    let micros = value % micro_usd_per_usd in
    let small : micros < micro_usd_per_usd = omega arith in
    (
      print_decimal (value / micro_usd_per_usd)
          ++ b'.' ∷ fraction_text (trim_zeros (six_digits micros)),
      rw (assert_microusd-pos value safe),
      parse_usd-digits (print_decimal (value / micro_usd_per_usd))
          (fraction_text (trim_zeros (six_digits micros)))
          (print_decimal-digits (value / micro_usd_per_usd))
          (print_decimal-nonempty (value / micro_usd_per_usd)) (fraction-digits micros small)
          (fraction_text-nonempty (trim_zeros (six_digits micros))) (length-fraction micros small)
          value (rw (print_decimal-decimal, fraction-decimal micros small) (omega arith)) safe,
    )
