-- ===== src/Js/Number.antt =====
-- JavaScript numbers, as far as the sources test them: whole values, any other finite value by its
-- floor and the rest, and the three values that are not finite.
use auto_camera.Common.{
  ℕ, ◌^◌, ◌-◌, ◌≤◌, ◌<◌, ◌≡◌, Bool, true, false, ◌&&◌, ◌||◌, ltb, leb, ◌==◌, arith,
}

-- `negsuc n` is -(n + 1).
pub data ℤ : Type 0 where
  pos : ℕ → ℤ
  negsuc : ℕ → ℤ

pub data JsNumber : Type 0 where
  int : ℤ → JsNumber
  -- finite and not whole: the floor, and the rest as a number of units of 2 ^ -1074
  fraction : ℤ → ℕ → JsNumber
  nan infinity minus_infinity : JsNumber

-- `Number.MAX_SAFE_INTEGER`
abbrev pub max_safe_integer : ℕ
max_safe_integer = 2 ^ 53 - 1

-- `Number.isFinite`
abbrev pub is_finite : JsNumber → Bool
is_finite (int _) = true
is_finite (fraction _ _) = true
is_finite _ = false

-- `Number.isInteger`
abbrev pub is_integer : JsNumber → Bool
is_integer (int _) = true
is_integer _ = false

-- `Number.isSafeInteger`
abbrev pub is_safe_integer : JsNumber → Bool
is_safe_integer (int (pos n)) = leb n max_safe_integer
is_safe_integer (int (negsuc n)) = ltb n max_safe_integer
is_safe_integer _ = false

-- `x < k`
abbrev pub num_lt : JsNumber → ℕ → Bool
num_lt (int (pos n)) k = ltb n k
num_lt (int (negsuc n)) k = true
num_lt (fraction (pos n) r) k = ltb n k
num_lt (fraction (negsuc n) r) k = true
num_lt minus_infinity k = true
num_lt _ k = false

-- `x <= k`
abbrev pub num_le : JsNumber → ℕ → Bool
num_le (int (pos n)) k = leb n k
num_le (int (negsuc n)) k = true
num_le (fraction (pos n) r) k = ltb n k
num_le (fraction (negsuc n) r) k = true
num_le minus_infinity k = true
num_le _ k = false

-- `x > k`, which is not the negation of `x <= k` at NaN
abbrev pub num_gt : JsNumber → ℕ → Bool
num_gt (int (pos n)) k = ltb k n
num_gt (fraction (pos n) r) k = leb k n
num_gt infinity k = true
num_gt _ k = false

abbrev int_eq : ℤ → ℤ → Bool
int_eq (pos n) (pos k) = n == k
int_eq (negsuc n) (negsuc k) = n == k
int_eq _ _ = false

-- `x === y`
abbrev pub num_eq : JsNumber → JsNumber → Bool
num_eq (int x) (int y) = int_eq x y
num_eq (fraction x r) (fraction y t) = int_eq x y && r == t
num_eq infinity infinity = true
num_eq minus_infinity minus_infinity = true
num_eq _ _ = false

-- A safe integer that is not below 1 is a positive number.
pub pos-of-safe :
    (x : JsNumber)
    → is_safe_integer x ≡ true
    → num_le x 0 ≡ false
    → (n : ℕ) × (x ≡ int (pos n)) × (0 < n) × (n ≤ max_safe_integer)
pos-of-safe (int (pos n)) s p = (n, ground arith, ground arith, ground arith)
pos-of-safe (int (negsuc n)) s p = cc
pos-of-safe (fraction z r) s p = cc
pos-of-safe nan s p = cc
pos-of-safe infinity s p = cc
pos-of-safe minus_infinity s p = cc

abbrev int_before : ℤ → ℤ → Bool
int_before (pos n) (pos k) = ltb n k
int_before (pos n) (negsuc k) = false
int_before (negsuc n) (pos k) = true
int_before (negsuc n) (negsuc k) = ltb k n

-- `x - y < 0`
abbrev pub num_before : JsNumber → JsNumber → Bool
num_before (int x) (int y) = int_before x y
num_before (int x) (fraction y t) = int_before x y || int_eq x y
num_before (fraction x r) (int y) = int_before x y
num_before (fraction x r) (fraction y t) = int_before x y || (int_eq x y && ltb r t)
num_before nan y = false
num_before infinity y = false
num_before x nan = false
num_before minus_infinity minus_infinity = false
num_before minus_infinity y = true
num_before x infinity = true
num_before x minus_infinity = false
