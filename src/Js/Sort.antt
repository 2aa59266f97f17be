-- ===== src/Js/Sort.antt =====
-- `filter` and the stable `sort` of arrays, as far as the store uses them. The comparator of `sort`
-- stands for the test whether it is negative.
use mathlib.Core.List.{Memᴰ}
use auto_camera.Common.{
  ◌≡◌, refl, Bool, true, false, Option, none, some, List, [], ◌∷◌, keep, any, ap, sym, ◌∙◌, ◌≢◌,
  ◌↔◌, if◌then◌else◌, Bool-cases, inl, inr, ◌⊎◌,
}

module _ {A : Type 0} (before : A → A → Bool) where
  unfoldable pub insert_sorted : A → List A → List A
  insert_sorted x [] = x ∷ []
  insert_sorted x (y ∷ ys) = if before y x then y ∷ insert_sorted x ys else x ∷ y ∷ ys

  unfoldable pub sort : List A → List A
  unfolding insert_sorted
  sort [] = []
  sort (x ∷ xs) = insert_sorted x (sort xs)

  mem-insert_sorted : (a x : A) (l : List A) → Memᴰ a (insert_sorted x l) → (a ≡ x) ⊎ Memᴰ a l
  unfolding insert_sorted
  mem-insert_sorted a x [] (Memᴰ.head e) = inl e
  mem-insert_sorted a x [] (Memᴰ.tail p) = elim p [ ]
  mem-insert_sorted a x (y ∷ ys) p = elim (Bool-cases (before y x)) [
    | inl e ↦
        let q : Memᴰ a (y ∷ insert_sorted x ys) = rw e at p in
        elim q [
          | Memᴰ.head q ↦ inr (Memᴰ.head q)
          | Memᴰ.tail q ↦ elim (mem-insert_sorted a x ys q) [
            | inl r ↦ inl r
            | inr r ↦ inr (Memᴰ.tail r)
          ]
        ]
    | inr e ↦
        let q : Memᴰ a (x ∷ y ∷ ys) = rw e at p in
        elim q [ Memᴰ.head q ↦ inl q | Memᴰ.tail q ↦ inr q ]
  ]

  pub mem-sort : (a : A) (l : List A) → Memᴰ a (sort l) → Memᴰ a l
  unfolding sort
  mem-sort a [] p = elim p [ ]
  mem-sort a (x ∷ xs) p = elim (mem-insert_sorted a x (sort xs) p) [
    | inl e ↦ Memᴰ.head e
    | inr q ↦ Memᴰ.tail (mem-sort a xs q)
  ]

  insert_sorted-Memᴰ : (a x : A) (l : List A) → (a ≡ x) ⊎ Memᴰ a l → Memᴰ a (insert_sorted x l)
  unfolding insert_sorted
  insert_sorted-Memᴰ a x [] (inl e) = Memᴰ.head e
  insert_sorted-Memᴰ a x [] (inr p) = elim p [ ]
  insert_sorted-Memᴰ a x (y ∷ ys) h = elim (Bool-cases (before y x)) [
    | inl e ↦ rw e (elim h [
      | inl q ↦ Memᴰ.tail (insert_sorted-Memᴰ a x ys (inl q))
      | inr (Memᴰ.head q) ↦ Memᴰ.head q
      | inr (Memᴰ.tail q) ↦ Memᴰ.tail (insert_sorted-Memᴰ a x ys (inr q))
    ])
    | inr e ↦ rw e (elim h [ inl q ↦ Memᴰ.head q | inr q ↦ Memᴰ.tail q ])
  ]

  pub sort-Memᴰ : (a : A) (l : List A) → Memᴰ a l → Memᴰ a (sort l)
  unfolding sort
  sort-Memᴰ a [] p = elim p [ ]
  sort-Memᴰ a (x ∷ xs) (Memᴰ.head e) = insert_sorted-Memᴰ a x (sort xs) (inl e)
  sort-Memᴰ a (x ∷ xs) (Memᴰ.tail p) = insert_sorted-Memᴰ a x (sort xs) (inr (sort-Memᴰ a xs p))

module _ {A : Type 0} where
  -- `array[0]`
  abbrev pub first : List A → Option A
  first [] = none
  first (x ∷ xs) = some x

  pub mem-first : (a : A) (l : List A) → first l ≡ some a → Memᴰ a l
  mem-first a [] h = cc
  mem-first a (x ∷ xs) h = Memᴰ.head cc

  pub mem-keep : (p : A → Bool) (a : A) (l : List A) → Memᴰ a (keep p l) → Memᴰ a l × (p a ≡ true)
  mem-keep p a [] m = elim m [ ]
  mem-keep p a (x ∷ xs) m = elim (Bool-cases (p x)) [
    | inl e ↦
        let q : Memᴰ a (x ∷ keep p xs) = rw e at m in
        elim q [
          | Memᴰ.head q ↦ (Memᴰ.head q, rw q e)
          | Memᴰ.tail q ↦ let (r, t) = mem-keep p a xs q in (Memᴰ.tail r, t)
        ]
    | inr e ↦ let (r, t) = mem-keep p a xs (rw e at m) in (Memᴰ.tail r, t)
  ]

  first-insert_sorted :
      (before : A → A → Bool) (x : A) (l : List A) → first (insert_sorted before x l) ≢ none
  unfolding insert_sorted
  first-insert_sorted before x [] h = cc
  first-insert_sorted before x (y ∷ ys) h = elim (Bool-cases (before y x)) [
    | inl e ↦ let q : some y ≡ none = rw e at h in cc q
    | inr e ↦ let q : some x ≡ none = rw e at h in cc q
  ]

  -- There is no first element exactly if no element passes the test.
  pub first-sort-none :
      (before : A → A → Bool) (p : A → Bool) (l : List A)
      → (first (sort before (keep p l)) ≡ none) ↔ (any p l ≡ false)
  unfolding sort
  first-sort-none before p [] = (λ _. refl, λ _. refl)
  first-sort-none before p (x ∷ xs) = elim (Bool-cases (p x)) [
    | inl e ↦
        rw e (λ h. absurd (first-insert_sorted before x (sort before (keep p xs)) h), λ h. cc h)
    | inr e ↦ rw e (first-sort-none before p xs)
  ]

  pub keep-Memᴰ : (p : A → Bool) (a : A) (l : List A) → Memᴰ a l → p a ≡ true → Memᴰ a (keep p l)
  keep-Memᴰ p a [] m h = elim m [ ]
  keep-Memᴰ p a (x ∷ xs) (Memᴰ.head e) h =
      let kept : p x ≡ true = ap p (sym e) ∙ h in rw kept (Memᴰ.head e)
  keep-Memᴰ p a (x ∷ xs) (Memᴰ.tail m) h = elim (Bool-cases (p x)) [
    | inl e ↦ rw e (Memᴰ.tail (keep-Memᴰ p a xs m h))
    | inr e ↦ rw e (keep-Memᴰ p a xs m h)
  ]
