-- ===== src/Domain/Money/Laws.antt =====
-- Sums, differences and the range of parsed amounts.
use auto_camera.Common.{
  ℕ, ◌+◌, ◌≤◌, ◌<◌, ◌≡◌, ◌↔◌, Option, some, none, [], ◌∷◌, Text, arith, ok, err,
}
use auto_camera.Js.Number.{max_safe_integer}
use auto_camera.Domain.Error.{negative_money, money_overflow}
use auto_camera.Domain.Money.{
  add_microusd, subtract_microusd, UsdInput, usd_text, match_money, parse_match,
  parse_usd_to_microusd,
}

-- For an amount `total` in the safe range, `addMicrousd` of `a` and `b` returns it exactly when
-- `subtractMicrousd` of `total` and `b` returns `a`.
pub add-subtract_iff :
    (a b total : ℕ)
    → total ≤ max_safe_integer
    → (add_microusd (a ∷ b ∷ []) ≡ ok total) ↔ (subtract_microusd (some total) b ≡ ok (some a))
unfolding add_microusd subtract_microusd
add-subtract_iff a b total safe = (λ h. ground arith, λ h. ground arith)

pub add_microusd-eq-ok : (a b total : ℕ) → add_microusd (a ∷ b ∷ []) ≡ ok total → total ≡ a + b
unfolding add_microusd
add_microusd-eq-ok a b total h = ground arith

-- `addMicrousd` throws MONEY_OVERFLOW for two amounts exactly when their sum is past the safe
-- range, and `subtractMicrousd` throws NEGATIVE_MONEY exactly when it would go below 0.
pub money_errors_iff :
    (a b : ℕ)
    → ((add_microusd (a ∷ b ∷ []) ≡ err money_overflow) ↔ (max_safe_integer < a + b))
      × ((subtract_microusd (some a) b ≡ err negative_money) ↔ (a < b))
unfolding add_microusd subtract_microusd
money_errors_iff a b =
    ((λ h. ground arith, λ h. ground arith), (λ h. ground arith, λ h. ground arith))

parse_match-safe :
    (m : Option (Text × Text)) (value : ℕ) → parse_match m ≡ ok value → value ≤ max_safe_integer
unfolding parse_match
parse_match-safe none value h = cc
parse_match-safe (some (whole, fraction)) value h = ground arith

-- `parseUsdToMicrousd` returns amounts in the safe range only.
pub parse_usd-safe :
    (input : UsdInput) (value : ℕ)
    → parse_usd_to_microusd input ≡ ok value
    → value ≤ max_safe_integer
unfolding parse_usd_to_microusd
parse_usd-safe input value h = parse_match-safe (match_money (usd_text input)) value h
