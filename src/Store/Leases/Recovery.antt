-- ===== src/Store/Leases/Recovery.antt =====
-- `recoverStale` of the attempts in packages/db/src/index.ts.
use mathlib.Core.List.{Memᴰ}
use auto_camera.Common.{
  ◌≡◌, ◌⊎◌, inl, inr, refl, sym, ap, ◌∙◌, true, false, some, List, [], ◌∷◌, map, keep, Text,
  text_eq, text_eq_iff, Bool-cases,
}
use auto_camera.Domain.Attempt.{GenerationAttempt}
use auto_camera.Js.Map.{
  Map, get, set, values, get-set, IsKeyed, set-IsKeyed, get-IsKeyed, get-of-mem, mem-of-get,
}
use auto_camera.Store.State.{MemoryState}
use auto_camera.Store.Leases.{is_stale, requeued, recover_from, recover_stale}
use auto_camera.Store.Leases.Claims.{WellKeyed}

abbrev Keyed : Map GenerationAttempt → Type 0
Keyed = IsKeyed (λ attempt. attempt.id)

module _ (now : Text) where
  recovered-eq :
      (l : List GenerationAttempt) (m : Map GenerationAttempt)
      → (recover_from now l m).0 ≡ map (requeued now) (keep (is_stale now) l)
  recovered-eq [] m = refl
  recovered-eq (current ∷ rest) m = elim (Bool-cases (is_stale now current)) [
    | inl e ↦ rw e (
        ap (λ l. requeued now current ∷ l)
          (recovered-eq rest (set current.id (requeued now current) m)))
    | inr e ↦ rw e (recovered-eq rest m)
  ]

  pub recover_from-Keyed :
      (l : List GenerationAttempt) (m : Map GenerationAttempt)
      → Keyed m
      → Keyed (recover_from now l m).1
  recover_from-Keyed [] m keyed = keyed
  recover_from-Keyed (current ∷ rest) m keyed = elim (Bool-cases (is_stale now current)) [
    | inl e ↦ rw e (
        recover_from-Keyed rest (set current.id (requeued now current) m)
          (set-IsKeyed (λ x. x.id) current.id (requeued now current) m refl keyed))
    | inr e ↦ rw e (recover_from-Keyed rest m keyed)
  ]

  -- An entry under which no stale attempt of the list stands is not written.
  untouched :
      (j : Text) (l : List GenerationAttempt) (m : Map GenerationAttempt)
      → ((c : GenerationAttempt) → Memᴰ c l → is_stale now c ≡ true → text_eq c.id j ≡ false)
      → get j (recover_from now l m).1 ≡ get j m
  untouched j [] m apart = refl
  untouched j (current ∷ rest) m apart = elim (Bool-cases (is_stale now current)) [
    | inl e ↦ rw e (
        untouched j rest (set current.id (requeued now current) m) (λ c p. apart c (Memᴰ.tail p))
        ∙ (get-set current.id j (requeued now current) m
            ∙ rw (apart current (Memᴰ.head refl) e) refl))
    | inr e ↦ rw e (untouched j rest m (λ c p. apart c (Memᴰ.tail p)))
  ]

  later-Memᴰ :
      (current c : GenerationAttempt) (rest : List GenerationAttempt)
      → is_stale now current ≡ false
      → is_stale now c ≡ true
      → Memᴰ c (current ∷ rest)
      → Memᴰ c rest
  later-Memᴰ current c rest e stale (Memᴰ.head q) =
      let same : is_stale now c ≡ is_stale now current = ap (is_stale now) q in cc
  later-Memᴰ current c rest e stale (Memᴰ.tail p) = p

  unvisited-Memᴰ :
      (j : Text) (current c : GenerationAttempt) (rest : List GenerationAttempt)
      → j ≡ c.id
      → text_eq current.id j ≡ false
      → Memᴰ c (current ∷ rest)
      → Memᴰ c rest
  unvisited-Memᴰ j current c rest own e (Memᴰ.head q) =
      let same : text_eq current.id j ≡ true =
        (text_eq_iff current.id j).1 (sym (own ∙ ap (λ x. x.id) q)) in
      cc
  unvisited-Memᴰ j current c rest own e (Memᴰ.tail p) = p

  -- A stale attempt that is still to be visited, or that was put back before, is put back at the end,
  -- where no other stale attempt of the list has its identifier.
  put_back_at_end :
      (j : Text) (b : GenerationAttempt) (l : List GenerationAttempt) (m : Map GenerationAttempt)
      → j ≡ b.id
      → is_stale now b ≡ true
      → ((c : GenerationAttempt) → Memᴰ c l → text_eq c.id j ≡ true → c ≡ b)
      → (get j m ≡ some (requeued now b)) ⊎ Memᴰ b l
      → get j (recover_from now l m).1 ≡ some (requeued now b)
  put_back_at_end j b [] m own stale only standing = elim standing [
    | inl h ↦ h
    | inr p ↦ elim p [ ]
  ]
  put_back_at_end j b (current ∷ rest) m own stale only standing =
      let later : (c : GenerationAttempt) → Memᴰ c rest → text_eq c.id j ≡ true → c ≡ b =
        λ c p. only c (Memᴰ.tail p) in
      let next = set current.id (requeued now current) m in
      elim (Bool-cases (is_stale now current)) [
        | inl e ↦ rw e (
            put_back_at_end j b rest next own stale later
              (elim (Bool-cases (text_eq current.id j)) [
                | inl same ↦ inl (
                    get-set current.id j (requeued now current) m
                    ∙ rw same
                        (ap (λ x. some (requeued now x)) (only current (Memᴰ.head refl) same)))
                | inr apart ↦ elim standing [
                  | inl h ↦ inl (get-set current.id j (requeued now current) m ∙ rw apart h)
                  | inr p ↦ inr (unvisited-Memᴰ j current b rest own apart p)
                ]
              ]))
        | inr e ↦ rw e (
            put_back_at_end j b rest m own stale later
              (elim standing [ inl h ↦ inl h | inr p ↦ inr (later-Memᴰ current b rest e stale p) ]))
      ]

  visited-Memᴰ :
      (j : Text) (current c : GenerationAttempt) (rest : List GenerationAttempt)
      (m : Map GenerationAttempt)
      → Keyed m
      → (get j m ≡ some c → is_stale now c ≡ true → Memᴰ c (current ∷ rest))
      → get j (set current.id (requeued now current) m) ≡ some c
      → is_stale now c ≡ true
      → Memᴰ c rest
  visited-Memᴰ j current c rest m keyed listed there stale =
      elim (Bool-cases (text_eq current.id j)) [
        | inl e ↦
            let q : some (requeued now current) ≡ some c =
              rw e at (sym (get-set current.id j (requeued now current) m) ∙ there) in
            let same : requeued now current ≡ c = cc in
            let again : false ≡ is_stale now c = ap (is_stale now) same in cc
        | inr e ↦
            let q : get j m ≡ some c =
              rw e at (sym (get-set current.id j (requeued now current) m) ∙ there) in
            unvisited-Memᴰ j current c rest (get-IsKeyed (λ x. x.id) j c m keyed q) e
              (listed q stale)
      ]

  -- A stale attempt that is still to be visited is all that the map keeps of them.
  none_left :
      (j : Text) (l : List GenerationAttempt) (m : Map GenerationAttempt) (b : GenerationAttempt)
      → Keyed m
      → ((c : GenerationAttempt) → get j m ≡ some c → is_stale now c ≡ true → Memᴰ c l)
      → get j (recover_from now l m).1 ≡ some b
      → is_stale now b ≡ false
  none_left j [] m b keyed listed h = elim (Bool-cases (is_stale now b)) [
    | inl e ↦ elim (listed b h e) [ ]
    | inr e ↦ e
  ]
  none_left j (current ∷ rest) m b keyed listed h = elim (Bool-cases (is_stale now current)) [
    | inl e ↦
        let h2 : get j (recover_from now rest (set current.id (requeued now current) m)).1
            ≡ some b =
          rw e at h in
        none_left j rest (set current.id (requeued now current) m) b
          (set-IsKeyed (λ x. x.id) current.id (requeued now current) m refl keyed)
          (λ c there stale. visited-Memᴰ j current c rest m keyed (listed c) there stale) h2
    | inr e ↦
        let h2 : get j (recover_from now rest m).1 ≡ some b = rw e at h in
        none_left j rest m b keyed
          (λ c there stale. later-Memᴰ current c rest e stale (listed c there stale)) h2
  ]

pub stale-apart :
    (now : Text) (state : MemoryState) (j : Text) (b c : GenerationAttempt)
    → WellKeyed state
    → get j state.attempts ≡ some b
    → is_stale now b ≡ false
    → Memᴰ c (values state.attempts)
    → is_stale now c ≡ true
    → text_eq c.id j ≡ false
stale-apart now state j b c keyed there fresh p stale = elim (Bool-cases (text_eq c.id j)) [
  | inl e ↦
      let q : some c ≡ some b =
        sym (get-of-mem (λ x. x.id) c state.attempts keyed p)
        ∙ (ap (λ k. get k state.attempts) ((text_eq_iff c.id j).0 e) ∙ there) in
      let same : c ≡ b = cc in
      let again : is_stale now c ≡ is_stale now b = ap (is_stale now) same in cc
  | inr e ↦ e
]

-- The attempts of one identifier are one.
same_key :
    (state : MemoryState) (j : Text) (b c : GenerationAttempt)
    → WellKeyed state
    → get j state.attempts ≡ some b
    → Memᴰ c (values state.attempts)
    → text_eq c.id j ≡ true
    → c ≡ b
same_key state j b c keyed there p e =
    let q : some c ≡ some b =
      sym (get-of-mem (λ x. x.id) c state.attempts keyed p)
      ∙ (ap (λ k. get k state.attempts) ((text_eq_iff c.id j).0 e) ∙ there) in
    cc

pub recover_stale_lem :
    (now : Text) (state : MemoryState)
    → WellKeyed state
    → ((recover_stale now state).0
        ≡ map (requeued now) (keep (is_stale now) (values state.attempts)))
      × ((j : Text) (b : GenerationAttempt)
          → get j (recover_stale now state).1.attempts ≡ some b
          → is_stale now b ≡ false)
      × ((j : Text) (b : GenerationAttempt)
          → get j state.attempts ≡ some b
          → is_stale now b ≡ false
          → get j (recover_stale now state).1.attempts ≡ some b)
      × ((j : Text) (b : GenerationAttempt)
          → get j state.attempts ≡ some b
          → is_stale now b ≡ true
          → get j (recover_stale now state).1.attempts ≡ some (requeued now b))
unfolding recover_stale
recover_stale_lem now state keyed = (
  recovered-eq now (values state.attempts) state.attempts,
  λ j b.
      none_left now j (values state.attempts) state.attempts b keyed
        (λ c there stale. mem-of-get j c state.attempts there),
  λ j b there fresh.
      untouched now j (values state.attempts) state.attempts
        (λ c p stale. stale-apart now state j b c keyed there fresh p stale)
      ∙ there,
  λ j b there stale.
      put_back_at_end now j b (values state.attempts) state.attempts
        (get-IsKeyed (λ x. x.id) j b state.attempts keyed there) stale
        (λ c p e. same_key state j b c keyed there p e) (inr (mem-of-get j b state.attempts there)),
)

pub recover_stale-WellKeyed :
    (now : Text) (state : MemoryState) → WellKeyed state → WellKeyed (recover_stale now state).1
unfolding recover_stale
recover_stale-WellKeyed now state keyed =
    recover_from-Keyed now (values state.attempts) state.attempts keyed
