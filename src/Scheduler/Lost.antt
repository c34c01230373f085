-- ===== src/Scheduler/Lost.antt =====
-- A run whose resume event cannot be published (scheduler.go).
use qeet_notify.Base.{
  ◌≡◌, refl, ◌&&◌, Bool, true, false, none, List, [], ◌∷◌, arith, All, map, if◌then◌else◌,
}
use qeet_notify.Base.Text.{Str, str_eq, str_eq_refl}
use qeet_notify.Platform.Tables.{Run}
use qeet_notify.Platform.World.{World, ok, call, publish, visible}
use qeet_notify.Platform.World.Calm.{tx_call-passes}
use qeet_notify.Scheduler.{is_due, requeue}

module _ {F : Type 0} (tenant_id : Str) (run_id : Str) where
  -- No row of this id that the transaction sees is due once it has been cleared.
  cleared_none_due :
      (w : World F) (rs : List (Run F))
      → All
          (λ r. r.id ≡ run_id → is_due w tenant_id r ≡ false)
          (map
            (λ (r : Run F).
              if str_eq r.id run_id && visible w r.tenant_id
              then record r { resume_at = none }
              else r)
            rs)
  cleared_none_due w [] = tt
  cleared_none_due w (r ∷ rs) =
      (λ e. ground (arith, str_eq_refl run_id, str_eq_refl tenant_id, e), cleared_none_due w rs)

  cleared_statuses :
      (w : World F) (rs : List (Run F))
      → map
          (λ (r : Run F). r.status)
          (map
            (λ (r : Run F).
              if str_eq r.id run_id && visible w r.tenant_id
              then record r { resume_at = none }
              else r)
            rs)
        ≡ map (λ (r : Run F). r.status) rs
  cleared_statuses w [] = refl
  cleared_statuses w (r ∷ rs) = ground (arith, cleared_statuses w rs)

-- When resume_at of a run is cleared but its resume event cannot be published, requeue returns no
-- error, so the transaction commits the clearing: nothing is published and no row of this id is due
-- any longer, with every run's status as it was.
pub requeue-unpublished :
    {F : Type 0} (tenant_id run_id : Str) (w : World F) {fs : List Bool}
    → w.aborted ≡ false
    → w.faults ≡ false ∷ true ∷ fs
    → let out = requeue tenant_id run_id w in
      (out.0 ≡ ok tt)
      × (out.1.aborted ≡ false)
      × (out.1.published ≡ w.published)
      × All (λ r. r.id ≡ run_id → is_due out.1 tenant_id r ≡ false) out.1.db.runs
      × (map (λ r. r.status) out.1.db.runs ≡ map (λ r. r.status) w.db.runs)
unfolding requeue publish call
requeue-unpublished tenant_id run_id w {fs} healthy faults =
    simp (tx_call-passes w healthy faults) (
      refl,
      healthy,
      refl,
      cleared_none_due tenant_id run_id w w.db.runs,
      cleared_statuses tenant_id run_id w w.db.runs,
    )
