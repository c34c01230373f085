-- ===== src/Workflows/Engine/Runs.antt =====
-- engine.go: from a message to a run, and from a paused run back to its steps.
use qeet_notify.Base.{ℕ, suc, ◌&&◌, Option, none, some, List, [], ◌∷◌, ◌++◌, if◌then◌else◌}
use qeet_notify.Base.Int.{pos}
use qeet_notify.Base.Text.{Str, str_eq, is_empty}
use qeet_notify.Workflows.Json.{Fields, Floats}
use qeet_notify.Workflows.Types.{Step, Event}
use qeet_notify.Platform.Tables.{Workflow, Run, is_running, running}
use qeet_notify.Platform.World.{
  World, M, ok, err, decode_failed, pure, raise, gets, try, modify, tx_call, visible, ◌>>=◌, ◌>>◌,
}
use qeet_notify.Platform.Database.{run_in_tenant}
use qeet_notify.Workflows.Engine.{execute_from}

pub record DbWorkflow : Type 0 where
  pub id : Str
  pub steps : List Step

-- SELECT … FROM workflows WHERE tenant_id = $1 AND trigger_event = $2 AND is_active LIMIT 1; which
-- of several rows PostgreSQL returns is not fixed, the model takes the first.
unfoldable pub find_workflow : Str → Str → List Workflow → Option Workflow
find_workflow tenant_id event [] = none
find_workflow tenant_id event (w ∷ ws) =
    if str_eq w.tenant_id tenant_id && str_eq w.trigger_event event && w.is_active
    then some w
    else find_workflow tenant_id event ws

abbrev with_steps : {F : Type 0} → Str → Option (List Step) → M F (Option DbWorkflow)
with_steps id none = raise decode_failed
with_steps id (some steps) = pure (some (record { id = id; steps = steps }))

abbrev decoded : {F : Type 0} → Option Workflow → M F (Option DbWorkflow)
decoded none = pure none
decoded (some w) = with_steps w.id w.steps

-- An error of the query is taken for a missing row.
unfoldable pub lookup_workflow : {F : Type 0} → Str → Str → M F (Option DbWorkflow)
lookup_workflow tenant_id event = do
  r ← try tx_call
  rows ← gets (λ w. w.db.workflows)
  elim r [ ok _ ↦ decoded (find_workflow tenant_id event rows) | err e ↦ pure none ]

-- The row of the run and of its workflow, for a run that is still running.
module _ {F : Type 0} where
  unfoldable pub workflow_of : World F → Str → List Workflow → Option Workflow
  workflow_of w id [] = none
  workflow_of w id (wf ∷ wfs) =
      if str_eq wf.id id && visible w wf.tenant_id then some wf else workflow_of w id wfs

  unfoldable pub find_running : World F → Str → List (Run F) → Option (Run F × Workflow)
  unfolding workflow_of
  find_running w run_id [] = none
  find_running w run_id (r ∷ rs) =
      let rest = find_running w run_id rs in
      if str_eq r.id run_id && is_running r.status && visible w r.tenant_id
      then elim (workflow_of w r.workflow_id w.db.workflows) [
        | some wf ↦ some (r, wf)
        | none ↦ rest
      ]
      else rest

module _ {F : Type 0} (fl : Floats F) (uuid : ℕ → Str) where
  abbrev pub new_run : Event F → Str → Str → Run F
  new_run ev workflow_id id = record {
    id = id;
    tenant_id = ev.tenant_id;
    workflow_id = workflow_id;
    subscriber_id = ev.subscriber_id;
    trigger_event = ev.event;
    trigger_payload = some ev.payload;
    status = running;
    current_step_index = pos 0;
    resume_at = none;
    error = [];
  }

  -- INSERT INTO workflow_runs … RETURNING id.
  unfoldable pub create_run : Event F → DbWorkflow → M F Str
  create_run ev wf = do
    tx_call
    id ← gets (λ w. uuid w.made)
    modify (λ w. record w {
      db = record w.db { runs = w.db.runs ++ new_run ev wf.id id ∷ [] };
      made = suc w.made;
    })
    pure id

  unfoldable pub process_event : Event F → M F (Unit {0})
  unfolding lookup_workflow create_run
  process_event ev = do
    wf ← lookup_workflow ev.tenant_id ev.event
    elim wf [
      | none ↦ pure tt
      | some wf ↦ (do run_id ← create_run ev wf; execute_from fl uuid ev wf.steps run_id (pos 0))
    ]

  abbrev pub resumed_event : Run F → Fields F → Event F
  resumed_event r payload = record {
    tenant_id = r.tenant_id;
    subscriber_id = r.subscriber_id;
    event = r.trigger_event;
    payload = payload;
    run_id = r.id;
  }

  abbrev continue_run : Run F → Option (Fields F) → Option (List Step) → M F (Unit {0})
  continue_run r none steps = raise decode_failed
  continue_run r (some payload) none = raise decode_failed
  continue_run r (some payload) (some steps) =
      execute_from fl uuid (resumed_event r payload) steps r.id r.current_step_index

  abbrev continue_found : Option (Run F × Workflow) → M F (Unit {0})
  continue_found none = pure tt
  continue_found (some (r, wf)) = continue_run r r.trigger_payload wf.steps

  -- No row, or any error of the query: nothing to do.
  unfoldable pub resume : Str → M F (Unit {0})
  unfolding find_running
  resume run_id = do
    r ← try tx_call
    found ← gets (λ w. find_running w run_id w.db.runs)
    elim r [ ok _ ↦ continue_found found | err e ↦ pure tt ]

  -- The body of a message, `none` where it does not decode.
  unfoldable pub handle : Option (Event F) → M F (Unit {0})
  handle none = raise decode_failed
  handle (some ev) =
      run_in_tenant ev.tenant_id (if is_empty ev.run_id then process_event ev else resume ev.run_id)
