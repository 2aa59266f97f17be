-- ===== src/Js/Date.antt =====
-- Dates. A `Date` is the text that its `toISOString` gives, or the invalid date. The texts that
-- `new Date(text).toISOString()` gives back unchanged are the canonical ones: YYYY-MM-DDTHH:mm:ss.sssZ
-- for the years 0 to 9999, and a sign with six digits of the year outside of these, up to
-- 8.64e15 milliseconds from 1970.
use Prim.Native.Nat.{◌%◌}
use auto_camera.Common.{
  ℕ, ◌+◌, ◌-◌, ◌*◌, Bool, true, false, not, ◌&&◌, ◌||◌, [], ◌∷◌, Text, leb, ltb, ◌==◌, take, drop,
  if◌then◌else◌, text, ◌≡◌, refl,
}

pub data JsDate : Type 0 where
  invalid_date : JsDate
  at : Text → JsDate

abbrev pub is_digit : ℕ → Bool
is_digit c = leb b'0' c && leb c b'9'

-- A text of digits as a number, with `acc` read before it.
unfoldable pub decimal_from : ℕ → Text → ℕ
decimal_from acc [] = acc
decimal_from acc (c ∷ s) = decimal_from (acc * 10 + (c - 48)) s

abbrev pub decimal : Text → ℕ
decimal s = decimal_from 0 s

-- Whether a text is one of digits and fixed characters, `d` standing for a digit.
unfoldable pub has_shape : Text → Text → Bool
has_shape [] [] = true
has_shape (p ∷ ps) (c ∷ s) = (if p == b'd' then is_digit c else c == p) && has_shape ps s
has_shape _ _ = false

abbrev is_leap : ℕ → Bool
is_leap year = year % 4 == 0 && (not (year % 100 == 0) || year % 400 == 0)

abbrev days_in_month : ℕ → ℕ → ℕ
days_in_month year month =
    if month == 2
    then (if is_leap year then 29 else 28)
    else if month == 4 || month == 6 || month == 9 || month == 11
    then 30
    else 31

-- `-MM-DDTHH:mm:ss.sssZ`
abbrev tail_shape : Text
tail_shape = text "-dd-ddTdd:dd:dd.dddZ"

abbrev tail_valid : ℕ → Text → Bool
tail_valid year rest =
    has_shape tail_shape rest
    && (let month = decimal (take 2 (drop 1 rest)) in
        let day = decimal (take 2 (drop 4 rest)) in
        leb 1 month && leb month 12 && leb 1 day && leb day (days_in_month year month))
    && leb (decimal (take 2 (drop 7 rest))) 23
    && leb (decimal (take 2 (drop 10 rest))) 59
    && leb (decimal (take 2 (drop 13 rest))) 59

-- Month, day and time in one number that orders them.
abbrev packed : Text → ℕ
packed rest =
    (decimal (take 2 (drop 1 rest)) * 100 + decimal (take 2 (drop 4 rest))) * 1000000000
    + (decimal (take 2 (drop 7 rest)) * 10000000
        + decimal (take 2 (drop 10 rest)) * 100000
        + decimal (take 2 (drop 13 rest)) * 1000
        + decimal (take 3 (drop 16 rest)))

-- The proleptic leap rule at the year `-y` is the one at `y`.
abbrev expanded : Text → Bool
expanded (sign ∷ s) =
    let year = decimal (take 6 s) in
    let rest = drop 6 s in
    has_shape (text "dddddd") (take 6 s)
    && tail_valid year rest
    && (if sign == b'+'
        then leb 10000 year
          && (ltb year 275760 || (year == 275760 && leb (packed rest) 913000000000))
        else sign == b'-'
          && leb 1 year
          && (ltb year 271821 || (year == 271821 && leb 420000000000 (packed rest))))
expanded [] = false

-- `new Date(value).toISOString() === value`
unfoldable pub is_canonical_date : Text → Bool
unfolding has_shape decimal_from
is_canonical_date s =
    (has_shape (text "dddd") (take 4 s) && tail_valid (decimal (take 4 s)) (drop 4 s)) || expanded s

is_canonical_date_tests :
    (is_canonical_date (text "2024-02-29T23:59:59.999Z") ≡ true)
    × (is_canonical_date (text "2023-02-29T00:00:00.000Z") ≡ false)
    × (is_canonical_date (text "2024-01-01T24:00:00.000Z") ≡ false)
    × (is_canonical_date (text "2024-01-01T00:00:00Z") ≡ false)
    × (is_canonical_date (text "+275760-09-13T00:00:00.000Z") ≡ true)
    × (is_canonical_date (text "+275760-09-13T00:00:00.001Z") ≡ false)
    × (is_canonical_date (text "-000000-01-01T00:00:00.000Z") ≡ false)
unfolding is_canonical_date
is_canonical_date_tests = (refl, refl, refl, refl, refl, refl, refl)
