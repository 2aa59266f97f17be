-- ===== src/Common/Texts.antt =====
-- JavaScript strings, as lists of UTF-16 code units.
use Prim.Native.Nat.{ℕ}
use Prim.Native.Char.{code}
use Prim.Native.String.{String}
use mathlib.Core.Path.{◌≡◌, refl, sym, ◌∙◌}
use mathlib.Core.Logic.{◌↔◌, inl, inr}
use mathlib.Core.Bool.{Bool, true, false, not, ◌&&◌, ◌||◌}
use mathlib.Core.List.{List, [], ◌∷◌, ◌++◌, reverse, reverse-cons, reverse-reverse}
use native.Mathlib.Omega.{arith}
use auto_camera.Common.Tests.{leb, ◌==◌, if◌then◌else◌, Bool-cases}
use auto_camera.Common.Lists.{all, all-append, is_empty}

abbrev pub Text : Type 0
Text = List ℕ

-- An ASCII literal.
abbrev pub text : String → Text
text String.[] = []
text (String.◌∷◌ c s) = code c ∷ text s

-- `===` on strings
abbrev pub text_eq : Text → Text → Bool
text_eq [] [] = true
text_eq (a ∷ s) (b ∷ t) = a == b && text_eq s t
text_eq _ _ = false

pub text_eq_iff : (s t : Text) → (text_eq s t ≡ true) ↔ (s ≡ t)
text_eq_iff [] [] = ground arith
text_eq_iff [] (b ∷ t) = ground arith
text_eq_iff (a ∷ s) [] = ground arith
text_eq_iff (a ∷ s) (b ∷ t) = ground (arith, text_eq_iff s t)

pub text_eq_refl : (s : Text) → text_eq s s ≡ true
text_eq_refl s = (text_eq_iff s s).1 refl

-- The code units that `String.prototype.trim` removes: WhiteSpace and LineTerminator.
abbrev pub is_white : ℕ → Bool
is_white c =
    (leb 9 c && leb c 13)
    || c == 32
    || c == 0xa0
    || c == 0x1680
    || (leb 0x2000 c && leb c 0x200a)
    || c == 0x2028
    || c == 0x2029
    || c == 0x202f
    || c == 0x205f
    || c == 0x3000
    || c == 0xfeff

abbrev pub trim_start : Text → Text
trim_start [] = []
trim_start (c ∷ s) = if is_white c then trim_start s else c ∷ s

unfoldable pub trim : Text → Text
trim s = reverse (trim_start (reverse (trim_start s)))

-- `!s.trim()`
unfoldable pub is_blank : Text → Bool
is_blank s = is_empty (trim s)

is_empty-trim_start : (s : Text) → is_empty (trim_start s) ≡ all is_white s
is_empty-trim_start [] = refl
is_empty-trim_start (c ∷ s) = elim (Bool-cases (is_white c)) [
  | inl white ↦ rw white (is_empty-trim_start s)
  | inr black ↦ rw black
]

all-trim_start : (s : Text) → all is_white (trim_start s) ≡ all is_white s
all-trim_start [] = refl
all-trim_start (c ∷ s) = elim (Bool-cases (is_white c)) [
  | inl white ↦ rw white (all-trim_start s)
  | inr black ↦ rw (black, black)
]

module _ {ℓ} {A : Type ℓ} where
  all-reverse : (p : A → Bool) (s : List A) → all p (reverse s) ≡ all p s
  all-reverse p [] = refl
  all-reverse p (c ∷ s) = rw (reverse-cons, all-append, all-reverse p s) (ground arith)

  is_empty-reverse : (s : List A) → is_empty (reverse s) ≡ is_empty s
  is_empty-reverse [] = refl
  is_empty-reverse (c ∷ s) =
      rw reverse-cons
        (elim (reverse s) as (λ r. is_empty (r ++ c ∷ []) ≡ false) [ [] ↦ refl | _ ∷ _ ↦ refl ])

-- A text is blank exactly when it holds nothing but white space.
pub is_blank-all : (s : Text) → is_blank s ≡ all is_white s
unfolding is_blank trim
is_blank-all s =
    is_empty-reverse (trim_start (reverse (trim_start s)))
    ∙ is_empty-trim_start (reverse (trim_start s))
    ∙ all-reverse is_white (trim_start s)
    ∙ all-trim_start s

-- Trimming does not make a text blank that was not.
pub is_blank-trim : (s : Text) → is_blank (trim s) ≡ is_blank s
unfolding trim
is_blank-trim s =
    is_blank-all (trim s)
    ∙ all-reverse is_white (trim_start (reverse (trim_start s)))
    ∙ all-trim_start (reverse (trim_start s))
    ∙ all-reverse is_white (trim_start s)
    ∙ all-trim_start s
    ∙ sym (is_blank-all s)

trim_start_of_black : (s : Text) → all (λ c. not (is_white c)) s ≡ true → trim_start s ≡ s
trim_start_of_black [] h = refl
trim_start_of_black (c ∷ s) h = elim (Bool-cases (is_white c)) [
  | inl white ↦ ground arith
  | inr black ↦ rw black
]

-- A text without white space is its own trimmed form.
pub trim_of_black : (s : Text) → all (λ c. not (is_white c)) s ≡ true → trim s ≡ s
unfolding trim
trim_of_black s h =
    rw
      (
        trim_start_of_black s h,
        trim_start_of_black (reverse s) (all-reverse (λ c. not (is_white c)) s ∙ h),
      )
      (reverse-reverse s)
