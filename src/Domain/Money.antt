-- ===== src/Domain/Money.antt =====
-- The money functions of packages/domain/src/index.ts. An amount of `MicroUsd` is a number of
-- millionths of a dollar: the branded type's values are natural numbers, up to the range that
-- `assertMicrousd` allows. A value of type `number` is a `JsNumber`.
pub mod Printing
pub mod Laws
pub mod RoundTrip
use auto_camera.Common.{
  ℕ, zero, suc, ◌+◌, ◌-◌, ◌*◌, ◌/◌, ◌%◌, ◌^◌, Bool, true, false, not, ◌&&◌, ◌||◌, Option, none,
  some, List, [], ◌∷◌, ◌++◌, reverse, Text, text, leb, ltb, ◌==◌, length, is_empty, all, replicate,
  if◌then◌else◌, trim, ok, err, ◌>>=◌, ◌>>◌, throw_if,
}
use auto_camera.Js.Number.{JsNumber, int, pos, max_safe_integer, is_safe_integer, num_lt}
use auto_camera.Js.Date.{is_digit, decimal_from}
use auto_camera.Domain.Error.{
  Checked, DomainErrorCode, invalid_money, money_overflow, negative_money,
}

abbrev pub MicroUsd : Type 0
MicroUsd = ℕ

abbrev pub micro_usd_per_usd : ℕ
micro_usd_per_usd = 1000000

-- The natural number that a safe integer which is not negative is.
abbrev whole_part : JsNumber → ℕ
whole_part (int (pos n)) = n
whole_part _ = 0

unfoldable pub assert_safe_integer : JsNumber → DomainErrorCode → Checked (Unit {0})
assert_safe_integer value code = throw_if (not (is_safe_integer value)) code

unfoldable pub assert_microusd : JsNumber → Checked MicroUsd
assert_microusd value = do
  throw_if (not (is_safe_integer value) || num_lt value 0) invalid_money
  ok (whole_part value)

-- A sum of amounts. The partial sums are exact as long as the last one is a safe integer: amounts
-- are not negative, and a sum of doubles past the safe range does not come back into it.
abbrev sum : List MicroUsd → ℕ
sum [] = 0
sum (v ∷ vs) = v + sum vs

unfoldable pub add_microusd : List MicroUsd → Checked MicroUsd
unfolding assert_safe_integer assert_microusd
add_microusd values = do
  assert_safe_integer (int (pos (sum values))) money_overflow
  assert_microusd (int (pos (sum values)))

unfoldable pub subtract_microusd : Option MicroUsd → MicroUsd → Checked (Option MicroUsd)
unfolding assert_microusd
subtract_microusd none subtrahend = ok none
subtract_microusd (some minuend) subtrahend = do
  throw_if (ltb minuend subtrahend) negative_money
  difference ← assert_microusd (int (pos (minuend - subtrahend)))
  ok (some difference)

-- The digits at the front of a text, and what follows them: the regular expression `\d+` or
-- `\d{1,6}` in front of a character that is no digit.
abbrev pub span_digits : Text → Text × Text
span_digits [] = ([], [])
span_digits (c ∷ s) =
    let (digits, rest) = span_digits s in if is_digit c then (c ∷ digits, rest) else ([], c ∷ s)

-- The second group, behind the character `c` that follows the first one.
unfoldable pub match_group : Text → ℕ → Text × Text → Option (Text × Text)
match_group whole c (digits, rest) =
    if c == b'.' && is_empty rest && not (is_empty digits) && leb (length digits) 6
    then some (whole, digits)
    else none

unfoldable pub match_fraction : Text → Text → Option (Text × Text)
unfolding match_group
match_fraction whole [] = some (whole, [])
match_fraction whole (c ∷ s) = match_group whole c (span_digits s)

unfoldable pub match_span : Text × Text → Option (Text × Text)
unfolding match_fraction
match_span (whole, rest) = if is_empty whole then none else match_fraction whole rest

-- `/^(\d+)(?:\.(\d{1,6}))?$/`: the two groups, the second one empty where it takes no part.
unfoldable pub match_money : Text → Option (Text × Text)
unfolding match_span
match_money s = match_span (span_digits s)

-- `padEnd(6, '0')`
unfoldable pub pad_end : ℕ → Text → Text
pad_end width s = s ++ replicate (width - length s) b'0'

-- `value` as the source sees it: a string, or a number through its `String(value)`.
pub data UsdInput : Type 0 where
  string : Text → UsdInput
  number : Text → UsdInput

abbrev pub usd_text : UsdInput → Text
usd_text (string value) = trim value
usd_text (number printed) = printed

unfoldable pub parse_match : Option (Text × Text) → Checked MicroUsd
unfolding pad_end decimal_from
parse_match none = err invalid_money
parse_match (some (whole, fraction)) = do
  throw_if (is_empty whole) invalid_money
  let result = decimal_from 0 whole * micro_usd_per_usd + decimal_from 0 (pad_end 6 fraction)
  throw_if (ltb max_safe_integer result) money_overflow
  ok result

unfoldable pub parse_usd_to_microusd : UsdInput → Checked MicroUsd
unfolding parse_match match_money trim
parse_usd_to_microusd value = parse_match (match_money (usd_text value))

-- The decimal digits of a number, with fuel for one digit more than it has.
unfoldable pub digits_fuel : ℕ → ℕ → Text
digits_fuel zero n = []
digits_fuel (suc fuel) n =
    let more = digits_fuel fuel (n / 10) ++ (48 + n % 10) ∷ [] in
    if ltb n 10 then (48 + n) ∷ [] else more

-- `String(n)` of a safe integer; `digits_fuel` needs at most `n + 1` rounds.
unfoldable pub print_decimal : ℕ → Text
unfolding digits_fuel
print_decimal n = digits_fuel (suc n) n

-- `padStart(6, '0')`
unfoldable pub pad_start : ℕ → Text → Text
pad_start width s = replicate (width - length s) b'0' ++ s

-- `replace(/0+$/, '')`
abbrev drop_zeros : Text → Text
drop_zeros [] = []
drop_zeros (c ∷ s) = if c == b'0' then drop_zeros s else c ∷ s

unfoldable pub trim_zeros : Text → Text
trim_zeros s = reverse (drop_zeros (reverse s))

unfoldable pub format_microusd_to_usd : Option MicroUsd → Checked (Option Text)
format_microusd_to_usd none = ok none
format_microusd_to_usd (some value) = do
  assert_microusd (int (pos value))
  let whole = value / micro_usd_per_usd
  let fraction = pad_start 6 (print_decimal (value % micro_usd_per_usd))
  let trimmed = trim_zeros fraction
  ok (some (print_decimal whole ++ b'.' ∷ (if is_empty trimmed then b'0' ∷ [] else trimmed)))
