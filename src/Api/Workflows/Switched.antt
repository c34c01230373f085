-- ===== src/Api/Workflows/Switched.antt =====
-- What the state of a workflow means for the events of its tenant (workflows.go with engine.go).
use qeet_notify.Base.{
  ℕ, suc, ◌≡◌, refl, ap, ◌∙◌, inl, inr, Bool, true, false, ◌&&◌, ◌||◌, none, some, List, [], ◌∷◌,
  ◌++◌, arith, All, any, Bool-cases, ltb, length,
}
use qeet_notify.Base.Text.{Str, str_eq, str_eq_refl, is_empty}
use qeet_notify.Workflows.Json.{Floats}
use qeet_notify.Workflows.Types.{Step, Event}
use qeet_notify.Workflows.Engine.{update_run}
use qeet_notify.Workflows.Engine.Linear.{messages, stop}
use qeet_notify.Workflows.Engine.Runs.{find_workflow, lookup_workflow, process_event}
use qeet_notify.Workflows.Engine.Started.{created, process_event-linear}
use qeet_notify.Workflows.Engine.Stretch.{IsLinear}
use qeet_notify.Api.Http.{Response, reply}
use qeet_notify.Api.Rows.{is_own}
use qeet_notify.Api.Workflows as Handlers
use qeet_notify.Api.Workflows.{
  Outside, CreateRequest, workflow_id, workflow_tenant, switch_to, set_active, create_workflow,
  or_nil,
}
use qeet_notify.Platform.Tables.{Workflow, Db}
use qeet_notify.Platform.World.{World, ok}
use qeet_notify.Platform.World.Calm.{IsCalm}
use qeet_notify.Platform.World.Effects.{
  tx_call-db, tx_call-published, tx_call-error, tx_call-made, ok-injective,
}

abbrev pub is_candidate : Str → Str → Workflow → Bool
is_candidate tenant_id event f =
    str_eq f.tenant_id tenant_id && str_eq f.trigger_event event && f.is_active

-- The one workflow that an event may start is off.
switched_off :
    (id tenant_id owner event : Str) (rows : List Workflow)
    → All
        (λ f.
          is_candidate tenant_id event f ≡ true
          → is_own workflow_id workflow_tenant id owner f ≡ true)
        rows
    → find_workflow tenant_id event (switch_to false rows id owner) ≡ none
unfolding find_workflow
switched_off id tenant_id owner event [] h = refl
switched_off id tenant_id owner event (f ∷ rows) (only, h) =
    ground (arith, switched_off id tenant_id owner event rows h, only)

find_workflow-append :
    (tenant_id event : Str) (rows : List Workflow) (f : Workflow)
    → find_workflow tenant_id event rows ≡ none
    → find_workflow tenant_id event (rows ++ f ∷ []) ≡ find_workflow tenant_id event (f ∷ [])
unfolding find_workflow
find_workflow-append tenant_id event [] f h = refl
find_workflow-append tenant_id event (g ∷ rows) f h =
    ground (arith, find_workflow-append tenant_id event rows f)

module _ {F : Type 0} where
  -- An event that finds no workflow.
  process_event-idle :
      (fl : Floats F) (uuid : ℕ → Str) (ev : Event F) (u : World F)
      → find_workflow ev.tenant_id ev.event u.db.workflows ≡ none
      → let (r, v) = process_event fl uuid ev u in
        (r ≡ ok tt) × (v.db ≡ u.db) × (v.published ≡ u.published)
  unfolding process_event lookup_workflow
  process_event-idle fl uuid ev u h = elim (tx_call-error u) [
    | inl e ↦ rw (e, tx_call-db u, h) (refl, tx_call-db u, tx_call-published u)
    | inr e ↦ rw e (refl, tx_call-db u, tx_call-published u)
  ]

  set_active-rows :
      (on : Bool) (tenant_id id : Str) (good : Response) (w : World F)
      → ltb good.status 400 ≡ true
      → (set_active on tenant_id id good w).0 ≡ ok good
      → (set_active on tenant_id id good w).1.db.workflows
        ≡ switch_to on w.db.workflows id tenant_id
  unfolding set_active
  set_active-rows on tenant_id id good w = elim (tx_call-error w) [
    | inr e ↦ rw e (λ fine h. absurd (ground (arith, ok-injective h)))
    | inl e ↦
        rw (e, tx_call-db w)
          (elim (Bool-cases
            (any (is_own workflow_id workflow_tenant id tenant_id) w.db.workflows)) [
              | inl x ↦ rw x (λ fine h.
                  ap (λ (d : Db F). switch_to on d.workflows id tenant_id) (tx_call-db w))
              | inr x ↦ rw x (λ fine h. absurd (ground (arith, ok-injective h)))
            ])
  ]

  create_workflow-rows :
      (o : Outside F) (uuid : ℕ → Str) (tenant_id : Str) (req : CreateRequest F) (w : World F)
      → (create_workflow o uuid tenant_id (some req) w).0 ≡ ok (reply 201 (o.id_json (uuid w.made)))
      → (create_workflow o uuid tenant_id (some req) w).1.db.workflows
        ≡ w.db.workflows ++ Handlers.created o tenant_id req (uuid w.made) ∷ []
  unfolding create_workflow
  create_workflow-rows o uuid tenant_id req w =
      elim (Bool-cases (is_empty req.name || is_empty req.trigger_event)) [
        | inl e ↦ rw e (λ h. absurd (ground (arith, ok-injective h)))
        | inr e ↦ rw e (elim (tx_call-error w) [
          | inr x ↦ rw x (λ h. absurd (ground (arith, ok-injective h)))
          | inl x ↦
              rw (x, tx_call-made w)
                (λ h.
                  ap
                    (λ (d : Db F).
                      d.workflows ++ Handlers.created o tenant_id req (uuid w.made) ∷ [])
                    (tx_call-db w))
        ])
      ]

  find_workflow-created :
      (o : Outside F) (tenant_id : Str) (req : CreateRequest F) (id : Str)
      → find_workflow tenant_id req.trigger_event (Handlers.created o tenant_id req id ∷ [])
        ≡ some (Handlers.created o tenant_id req id)
  unfolding find_workflow
  find_workflow-created o tenant_id req id =
      rw (str_eq_refl tenant_id, str_eq_refl req.trigger_event) refl

-- Behind an archiving or a pause that is answered below 400, an event that only this workflow could
-- start changes no table, publishes nothing and is no error, whichever calls fail, as long as the
-- workflows stay as they were left.
pub set_active-silences :
    {F : Type 0} (fl : Floats F) (uuid : ℕ → Str) (ev : Event F) (tenant_id id : Str)
    (good : Response) (w u : World F)
    → ltb good.status 400 ≡ true
    → (set_active false tenant_id id good w).0 ≡ ok good
    → All
        (λ f.
          is_candidate ev.tenant_id ev.event f ≡ true
          → is_own workflow_id workflow_tenant id tenant_id f ≡ true)
        w.db.workflows
    → u.db.workflows ≡ (set_active false tenant_id id good w).1.db.workflows
    → let (r, v) = process_event fl uuid ev u in
      (r ≡ ok tt) × (v.db ≡ u.db) × (v.published ≡ u.published)
set_active-silences fl uuid ev tenant_id id good w u fine done only same =
    process_event-idle fl uuid ev u (
      ap (find_workflow ev.tenant_id ev.event)
        (same ∙ set_active-rows false tenant_id id good w fine done)
      ∙ switched_off id ev.tenant_id tenant_id ev.event w.db.workflows only)

-- A workflow that the API has created runs: where the tenant had no active workflow for the trigger,
-- and the steps of the request are linear steps to the engine, its next event for that trigger
-- inserts one run of the new workflow and publishes one job for each channel step that the
-- subscriber has not opted out of, in order, up to the first delay. No call of the engine fails, and
-- the workflows stay as the creation left them.
pub create_workflow-runs :
    {F : Type 0} (o : Outside F) (fl : Floats F) (ids uuid : ℕ → Str) (tenant_id : Str)
    (req : CreateRequest F) (steps : List Step) (ev : Event F) (w u : World F)
    → (create_workflow o ids tenant_id (some req) w).0 ≡ ok (reply 201 (o.id_json (ids w.made)))
    → find_workflow tenant_id req.trigger_event w.db.workflows ≡ none
    → o.decode_steps (o.marshal (or_nil req.steps)) ≡ some steps
    → All IsLinear steps
    → ev.tenant_id ≡ tenant_id
    → ev.event ≡ req.trigger_event
    → u.db.workflows ≡ (create_workflow o ids tenant_id (some req) w).1.db.workflows
    → IsCalm u
    → let out = process_event fl uuid ev u in
      (out.0 ≡ ok tt)
      × (out.1.published
          ≡ u.published ++ messages fl uuid ev (uuid u.made) u.db.preferences (suc u.made) steps)
      × (out.1.db.runs
          ≡ (update_run
              (uuid u.made)
              (stop fl uuid ev (uuid u.made) u.now (length steps) 0 steps)
              (created fl uuid ev (ids w.made) u)).db.runs)
create_workflow-runs o fl ids uuid tenant_id req steps ev w u done fresh decoded linear mine fits
      same calm =
    process_event-linear fl uuid ev (Handlers.created o tenant_id req (ids w.made)) steps u calm
      (ap (λ t. find_workflow t ev.event u.db.workflows) mine
        ∙ ap (λ e. find_workflow tenant_id e u.db.workflows) fits
        ∙ ap (find_workflow tenant_id req.trigger_event)
            (same ∙ create_workflow-rows o ids tenant_id req w done)
        ∙ find_workflow-append tenant_id req.trigger_event w.db.workflows _ fresh
        ∙ find_workflow-created o tenant_id req (ids w.made))
      decoded linear
