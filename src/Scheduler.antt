-- ===== src/Scheduler.antt =====
-- domains/scheduler/scheduler.go: runs whose delay has passed are put back on the event stream.
pub mod Order
pub mod Requeue
pub mod Lost
mod Tests
use qeet_notify.Base.{
  ℕ, ◌+◌, Bool, true, false, ◌&&◌, Option, none, some, List, [], ◌∷◌, map, if◌then◌else◌, take,
  select,
}
use qeet_notify.Base.Int.{ℤ, le_ℤ}
use qeet_notify.Base.Text.{Str, str_eq}
use qeet_notify.Workflows.Json.{end}
use qeet_notify.Workflows.Types.{Event}
use qeet_notify.Platform.Tables.{Run, is_running, running}
use qeet_notify.Platform.World.{
  World, M, Result, ok, err, Body, event_body, pure, gets, try, modify, pool_call, tx_call, publish,
  visible, ◌>>=◌, ◌>>◌,
}
use qeet_notify.Platform.Database.{run_in_tenant}
use qeet_notify.Platform.Messaging.{event_subject}
use qeet_notify.Workflows.Engine.{update_run}

abbrev pub batch : ℕ
batch = 50

abbrev pub elapsed : ℤ → Option ℤ → Bool
elapsed now none = false
elapsed now (some t) = le_ℤ t now

abbrev pub at_most : Option ℤ → Option ℤ → Bool
at_most (some a) (some b) = le_ℤ a b
at_most (some a) none = true
at_most none (some b) = false
at_most none none = true

module _ {F : Type 0} where
  -- The WHERE clause of Tick.
  abbrev pub is_due : World F → Str → Run F → Bool
  is_due w tenant_id r =
      str_eq r.tenant_id tenant_id
      && is_running r.status
      && elapsed w.now r.resume_at
      && visible w r.tenant_id

  -- ORDER BY resume_at.
  insert_run : Run F → List (Run F) → List (Run F)
  insert_run r [] = r ∷ []
  insert_run r (s ∷ ss) =
      if at_most r.resume_at s.resume_at then r ∷ s ∷ ss else s ∷ insert_run r ss

  pub sort_runs : List (Run F) → List (Run F)
  sort_runs [] = []
  sort_runs (r ∷ rs) = insert_run r (sort_runs rs)

  unfoldable pub due_runs : World F → Str → List Str
  unfolding sort_runs insert_run
  due_runs w tenant_id =
      take batch (map (λ r. r.id) (sort_runs (select (is_due w tenant_id) w.db.runs)))

  abbrev pub clear_resume : Str → World F → World F
  clear_resume run_id = update_run run_id (λ r. record r { resume_at = none })

  abbrev pub resume_event : Str → Str → Event F
  resume_event tenant_id run_id = record {
    tenant_id = tenant_id;
    subscriber_id = [];
    event = [];
    payload = end;
    run_id = run_id;
  }

  abbrev logged : Result (Unit {0}) → M F (Unit {0})
  logged r = pure tt

  -- Clearing comes first; where it fails the run is passed over, and a failed publish is logged.
  unfoldable pub requeue : Str → Str → M F (Unit {0})
  requeue tenant_id run_id = do
    cleared ← try tx_call
    elim cleared [
      | err e ↦ pure tt
      | ok _ ↦ (do
        modify (clear_resume run_id)
        sent ← try (publish (event_subject tenant_id) (event_body (resume_event tenant_id run_id)))
        logged sent)
    ]

  unfoldable pub requeue_all : Str → List Str → M F (Unit {0})
  requeue_all tenant_id [] = pure tt
  requeue_all tenant_id (id ∷ ids) = requeue tenant_id id >> requeue_all tenant_id ids

  unfoldable pub scan : Str → M F (Unit {0})
  unfolding due_runs
  scan tenant_id = do
    tx_call
    run_ids ← gets (λ w. due_runs w tenant_id)
    requeue_all tenant_id run_ids

  -- The errors of a tenant's transaction are logged.
  unfoldable pub tick_tenants : List Str → M F (Unit {0})
  tick_tenants [] = pure tt
  tick_tenants (t ∷ ts) = do r ← try (run_in_tenant t (scan t)); logged r; tick_tenants ts

  abbrev when_listed : Result (Unit {0}) → List Str → M F (Unit {0})
  when_listed (ok _) tenants = tick_tenants tenants
  when_listed (err e) tenants = pure tt

  unfoldable pub tick : M F (Unit {0})
  unfolding tick_tenants
  tick = do
    r ← try pool_call
    tenants ← gets (λ w. map (λ t. t.id) w.db.tenants)
    when_listed r tenants
