-- ===== src/Store/Listing.antt =====
-- `listByShot` and `listByProject` of `MemoryRepository.attempts` in packages/db/src/index.ts.
use mathlib.Core.List.{Memᴰ}
use auto_camera.Common.{◌≡◌, ◌↔◌, Bool, true, ◌&&◌, List, Text, text_eq, text_eq_iff, keep, arith}
use auto_camera.Domain.Uuid.{Uuid}
use auto_camera.Domain.Attempt.{GenerationAttempt}
use auto_camera.Js.Map.{values}
use auto_camera.Js.Sort.{sort, mem-sort, mem-keep, sort-Memᴰ, keep-Memᴰ}
use auto_camera.Store.State.{MemoryState}
use auto_camera.Store.Leases.{Sign, negative_first}

abbrev of_shot : Uuid → Uuid → GenerationAttempt → Bool
of_shot tenant_id shot_id attempt =
    text_eq attempt.tenant_id tenant_id && text_eq attempt.shot_id shot_id

abbrev of_project : Uuid → Uuid → GenerationAttempt → Bool
of_project tenant_id project_id attempt =
    text_eq attempt.tenant_id tenant_id && text_eq attempt.project_id project_id

module _ (locale_compare : Text → Text → Sign) where
  abbrev pub created_before : GenerationAttempt → GenerationAttempt → Bool
  created_before left right =
      negative_first (locale_compare left.created_at right.created_at)
        (locale_compare left.id right.id)

  unfoldable pub list_by_shot : Uuid → Uuid → MemoryState → List GenerationAttempt
  list_by_shot tenant_id shot_id state =
      sort created_before (keep (of_shot tenant_id shot_id) (values state.attempts))

  unfoldable pub list_by_project : Uuid → Uuid → MemoryState → List GenerationAttempt
  list_by_project tenant_id project_id state =
      sort created_before (keep (of_project tenant_id project_id) (values state.attempts))

sort-keep_iff :
    (before : GenerationAttempt → GenerationAttempt → Bool) (p : GenerationAttempt → Bool)
    (l : List GenerationAttempt) (a : GenerationAttempt)
    → Memᴰ a (sort before (keep p l)) ↔ (Memᴰ a l × (p a ≡ true))
sort-keep_iff before p l a = (
  λ m. mem-keep p a l (mem-sort before a (keep p l) m),
  λ (m, h). sort-Memᴰ before a (keep p l) (keep-Memᴰ p a l m h),
)

both_iff : (s t u v : Text) → ((text_eq s t && text_eq u v) ≡ true) ↔ ((s ≡ t) × (u ≡ v))
both_iff s t u v = ground (arith, text_eq_iff s t, text_eq_iff u v)

-- `listByShot` and `listByProject` list exactly the attempts of the store that belong to the tenant
-- and to the shot or the project.
pub lists_iff :
    (locale_compare : Text → Text → Sign) (tenant_id scope_id : Uuid) (state : MemoryState)
    (a : GenerationAttempt)
    → (Memᴰ a (list_by_shot locale_compare tenant_id scope_id state)
        ↔ (Memᴰ a (values state.attempts) × (a.tenant_id ≡ tenant_id) × (a.shot_id ≡ scope_id)))
      × (Memᴰ a (list_by_project locale_compare tenant_id scope_id state) ↔ (
          Memᴰ a (values state.attempts) × (a.tenant_id ≡ tenant_id) × (a.project_id ≡ scope_id)))
unfolding list_by_shot list_by_project
lists_iff locale_compare tenant_id scope_id state a =
    let shot_sorted =
      sort-keep_iff (created_before locale_compare) (of_shot tenant_id scope_id)
        (values state.attempts) a in
    let project_sorted =
      sort-keep_iff (created_before locale_compare) (of_project tenant_id scope_id)
        (values state.attempts) a in
    let shot = both_iff a.tenant_id tenant_id a.shot_id scope_id in
    let project = both_iff a.tenant_id tenant_id a.project_id scope_id in
    (
      (
        λ m. let (there, h) = shot_sorted.0 m in let (mine, here) = shot.0 h in (there, mine, here),
        λ (there, mine, here). shot_sorted.1 (there, shot.1 (mine, here)),
      ),
      (
        λ m.
            let (there, h) = project_sorted.0 m in
            let (mine, here) = project.0 h in (there, mine, here),
        λ (there, mine, here). project_sorted.1 (there, project.1 (mine, here)),
      ),
    )
