-- ===== src/Js/Map.antt =====
-- A JavaScript `Map` whose keys are strings: the entries in the order of their insertion. Setting a
-- key that is there keeps its place.
use mathlib.Core.List.{Memᴰ}
use auto_camera.Common.{
  ◌≡◌, refl, ap, Bool, true, false, Option, none, some, List, [], ◌∷◌, Text, text_eq, text_eq_iff,
  if◌then◌else◌, ◌∙◌, arith, Bool-cases, any, inl, inr, ◌⊎◌, sym, text_eq_refl,
}

abbrev pub Map : Type 0 → Type 0
Map V = List (Text × V)

module _ {V : Type 0} where
  unfoldable pub get : Text → Map V → Option V
  get key [] = none
  get key ((k, v) ∷ m) = if text_eq k key then some v else get key m

  unfoldable pub set : Text → V → Map V → Map V
  set key value [] = (key, value) ∷ []
  set key value ((k, v) ∷ m) = if text_eq k key then (k, value) ∷ m else (k, v) ∷ set key value m

  abbrev pub values : Map V → List V
  values [] = []
  values ((k, v) ∷ m) = v ∷ values m

  abbrev pub is_some : Option V → Bool
  is_some none = false
  is_some (some v) = true

  -- `map.has(key)`
  abbrev pub has : Text → Map V → Bool
  has key m = is_some (get key m)

  pub get-set :
      (key j : Text) (value : V) (m : Map V)
      → get j (set key value m) ≡ (if text_eq key j then some value else get j m)
  unfolding get set
  get-set key j value [] = refl
  get-set key j value ((k, v) ∷ m) =
      ground (arith, text_eq_iff k key, text_eq_iff k j, text_eq_iff key j, get-set key j value m)

  pub mem-of-get : (k : Text) (v : V) (m : Map V) → get k m ≡ some v → Memᴰ v (values m)
  unfolding get
  mem-of-get k v [] h = cc
  mem-of-get k v ((j, w) ∷ m) h = elim (Bool-cases (text_eq j k)) [
    | inl e ↦ let q : some w ≡ some v = rw e at h in Memᴰ.head cc
    | inr e ↦ Memᴰ.tail (mem-of-get k v m (rw e at h))
  ]

  pub any-get :
      (p : V → Bool) (k : Text) (v : V) (m : Map V)
      → any p (values m) ≡ false
      → get k m ≡ some v
      → p v ≡ false
  unfolding get
  any-get p k v [] h e = cc
  any-get p k v ((j, w) ∷ m) h e = ground (arith, any-get p k v m)

  -- What stands in a map after an entry is set is the new value or was there.
  pub get-set_cases :
      (key j : Text) (new v : V) (m : Map V)
      → get j (set key new m) ≡ some v
      → ((key ≡ j) × (v ≡ new)) ⊎ (get j m ≡ some v)
  get-set_cases key j new v m h = elim (Bool-cases (text_eq key j)) [
    | inl e ↦
        let q : some new ≡ some v = rw e at (sym (get-set key j new m) ∙ h) in
        inl ((text_eq_iff key j).0 e, cc)
    | inr e ↦ inr (rw e at (sym (get-set key j new m) ∙ h))
  ]

  pub get-set_self : (key : Text) (new : V) (m : Map V) → get key (set key new m) ≡ some new
  get-set_self key new m = get-set key key new m ∙ rw (text_eq_refl key) refl

  -- What stands in a map of one entry is its value.
  pub get-one : (k j : Text) (v x : V) → get k ((j, v) ∷ []) ≡ some x → x ≡ v
  unfolding get
  get-one k j v x h = elim (Bool-cases (text_eq j k)) [
    | inl e ↦ let q : some v ≡ some x = rw e at h in cc
    | inr e ↦ let q : none ≡ some x = rw e at h in cc
  ]

  -- A value that passes a test is found after it is set.
  pub any-set :
      (p : V → Bool) (key : Text) (value : V) (m : Map V)
      → p value ≡ true
      → any p (values (set key value m)) ≡ true
  unfolding set
  any-set p key value [] h = ground (arith, h)
  any-set p key value ((k, v) ∷ m) h = elim (Bool-cases (text_eq k key)) [
    | inl e ↦ rw e (ground (arith, h))
    | inr e ↦ rw e (ground (arith, any-set p key value m h))
  ]

-- Maps in which every value stands under its own identifier.
module _ {V : Type 0} (id : V → Text) where
  abbrev pub IsKeyed : Map V → Type 0
  IsKeyed [] = Unit
  IsKeyed ((k, v) ∷ m) = (k ≡ id v) × (get k m ≡ none) × IsKeyed m

  apart :
      (k key : Text) (value : V) (m : Map V)
      → text_eq k key ≡ false
      → get k m ≡ none
      → get k (set key value m) ≡ none
  apart k key value m e fresh =
      ground (arith, get-set key k value m, text_eq_iff k key, text_eq_iff key k)

  pub set-IsKeyed :
      (key : Text) (value : V) (m : Map V) → key ≡ id value → IsKeyed m → IsKeyed (set key value m)
  unfolding set get
  set-IsKeyed key value [] same h = (same, refl, tt)
  set-IsKeyed key value ((k, v) ∷ m) same (own, fresh, h) = elim (Bool-cases (text_eq k key)) [
    | inl e ↦ rw e ((text_eq_iff k key).0 e ∙ same, fresh, h)
    | inr e ↦ rw e (own, apart k key value m e fresh, set-IsKeyed key value m same h)
  ]

  pub get-of-mem : (v : V) (m : Map V) → IsKeyed m → Memᴰ v (values m) → get (id v) m ≡ some v
  unfolding get
  get-of-mem v ((k, w) ∷ m) (own, fresh, h) (Memᴰ.head e) =
      ground (arith, text_eq_iff k (id v), ap id e)
  get-of-mem v ((k, w) ∷ m) (own, fresh, h) (Memᴰ.tail p) =
      ground (arith, text_eq_iff k (id v), get-of-mem v m h p)
  get-of-mem v [] h p = elim p [ ]

  pub get-IsKeyed : (k : Text) (v : V) (m : Map V) → IsKeyed m → get k m ≡ some v → k ≡ id v
  unfolding get
  get-IsKeyed k v [] h e = cc
  get-IsKeyed k v ((j, w) ∷ m) (own, fresh, h) e =
      ground (arith, text_eq_iff j k, get-IsKeyed k v m h, ap id)
