-- ===== src/Api/Workflows.antt =====
-- platform/api/handler/workflows.go: the workflows of a tenant and their runs. encoding/json and
-- strconv.Atoi are parameters; the timestamps of rows are left out.
pub mod Switched
mod Tests
use qeet_notify.Base.{
  ℕ, suc, Bool, true, false, ◌&&◌, ◌||◌, Option, none, some, List, [], ◌∷◌, ◌++◌, map,
  if◌then◌else◌, any, select, take, drop, length,
}
use qeet_notify.Base.Int.{ℤ}
use qeet_notify.Base.Text.{Str, str, str_eq, is_empty}
use qeet_notify.Workflows.Json.{Items, nil}
use qeet_notify.Workflows.Types.{Step}
use qeet_notify.Api.Http.{Response, reply}
use qeet_notify.Api.Rows.{
  or_current, latest_first, is_own, find_own, update_own, page_limit, page_offset, when_hit,
  when_fine, answer_row,
}
use qeet_notify.Platform.Tables.{Workflow, Run, RunStatus}
use qeet_notify.Platform.World.{
  World, M, Result, ok, err, pure, gets, try, modify, tx_call, ◌>>=◌, ◌>>◌,
}

-- `definition` is the text from which the answer's steps are decoded.
pub record WorkflowRow : Type 0 where
  pub id : Str
  pub name : Str
  pub trigger_event : Str
  pub definition : Str
  pub is_active : Bool

pub record WorkflowRunRow : Type 0 where
  pub id : Str
  pub workflow_id : Str
  pub subscriber_id : Str
  pub trigger_event : Str
  pub status : RunStatus
  pub current_step_index : ℤ
  pub error : Str

-- Steps that are missing or null are `none`.
pub record CreateRequest (F : Type 0) : Type 0 where
  pub name : Str
  pub trigger_event : Str
  pub steps : Option (Items F)

pub record UpdateRequest (F : Type 0) : Type 0 where
  pub name : Option Str
  pub trigger_event : Option Str
  pub steps : Option (Items F)

-- `decode_steps` is what the engine reads from the text of the column.
pub record Outside (F : Type 0) : Type 0 where
  pub rows_json : List WorkflowRow → ℕ → Str
  pub row_json : WorkflowRow → Str
  pub runs_json : List WorkflowRunRow → Str
  pub id_json : Str → Str
  pub status_json : Str → Str → Str
  pub marshal : Items F → Str
  pub decode_steps : Str → Option (List Step)
  pub atoi : Str → Option ℤ

abbrev row_of : Workflow → WorkflowRow
row_of f = record {
  id = f.id;
  name = f.name;
  trigger_event = f.trigger_event;
  definition = f.definition;
  is_active = f.is_active;
}

abbrev run_row : {F : Type 0} → Run F → WorkflowRunRow
run_row r = record {
  id = r.id;
  workflow_id = r.workflow_id;
  subscriber_id = r.subscriber_id;
  trigger_event = r.trigger_event;
  status = r.status;
  current_step_index = r.current_step_index;
  error = r.error;
}

abbrev pub workflow_id : Workflow → Str
workflow_id f = f.id

abbrev pub workflow_tenant : Workflow → Str
workflow_tenant f = f.tenant_id

abbrev pub or_nil : {F : Type 0} → Option (Items F) → Items F
or_nil none = nil
or_nil (some steps) = steps

abbrev not_found : Response
not_found = reply 404 (str "not found")

-- UPDATE workflows SET is_active = ….
abbrev pub switch_to : Bool → List Workflow → Str → Str → List Workflow
switch_to on rows id tenant_id =
    update_own workflow_id workflow_tenant (λ f. record f { is_active = on }) id tenant_id rows

module _ {F : Type 0} where
  abbrev pub on_workflows : (List Workflow → List Workflow) → World F → World F
  on_workflows f w = record w { db = record w.db { workflows = f w.db.workflows } }

  unfoldable pub set_active : Bool → Str → Str → Response → M F Response
  set_active on tenant_id id good = do
    r ← try tx_call
    hit ← gets (λ w. any (is_own workflow_id workflow_tenant id tenant_id) w.db.workflows)
    when_hit r hit not_found (modify (on_workflows (λ rows. switch_to on rows id tenant_id))) good

  abbrev pub archive_workflow : Str → Str → M F Response
  archive_workflow tenant_id id = set_active false tenant_id id (reply 204 [])

module _ {F : Type 0} (o : Outside F) where
  abbrev pub activate_workflow : Str → Str → M F Response
  activate_workflow tenant_id id =
      set_active true tenant_id id (reply 200 (o.status_json id (str "active")))

  abbrev pub pause_workflow : Str → Str → M F Response
  pause_workflow tenant_id id =
      set_active false tenant_id id (reply 200 (o.status_json id (str "paused")))

  abbrev page_reply : Result (Unit {0}) → List WorkflowRow → Response
  page_reply (err e) rows = reply 500 (str "query failed")
  page_reply (ok _) rows = reply 200 (o.rows_json rows (length rows))

  unfoldable pub list_workflows : Str → Str → Str → M F Response
  list_workflows tenant_id limit offset = do
    r ← try tx_call
    rows ← gets (λ w. map row_of (
        take (page_limit o.atoi 200 50 limit) (
          drop (page_offset o.atoi offset)
            (latest_first (select (λ f. str_eq f.tenant_id tenant_id) w.db.workflows)))))
    pure (page_reply r rows)

  unfoldable pub get_workflow : Str → Str → M F Response
  unfolding find_own
  get_workflow tenant_id id = do
    r ← try tx_call
    found ← gets (λ w. find_own workflow_id workflow_tenant id tenant_id w.db.workflows)
    answer_row r found not_found (λ f. pure (reply 200 (o.row_json (row_of f))))

  abbrev runs_reply : Result (Unit {0}) → List WorkflowRunRow → Response
  runs_reply (err e) rows = reply 500 (str "query failed")
  runs_reply (ok _) rows = reply 200 (o.runs_json rows)

  unfoldable pub list_workflow_runs : Str → Str → Str → M F Response
  list_workflow_runs tenant_id id limit = do
    r ← try tx_call
    rows ← gets (λ w. map run_row (
        take (page_limit o.atoi 100 20 limit) (
          latest_first (
            select (λ (r : Run F). str_eq r.workflow_id id && str_eq r.tenant_id tenant_id)
              w.db.runs))))
    pure (runs_reply r rows)

  abbrev pub created : Str → CreateRequest F → Str → Workflow
  created tenant_id req id = record {
    id = id;
    tenant_id = tenant_id;
    name = req.name;
    definition = o.marshal (or_nil req.steps);
    trigger_event = req.trigger_event;
    steps = o.decode_steps (o.marshal (or_nil req.steps));
    is_active = true;
  }

  unfoldable pub create_workflow : (ℕ → Str) → Str → Option (CreateRequest F) → M F Response
  create_workflow uuid tenant_id none = pure (reply 400 (str "invalid json"))
  create_workflow uuid tenant_id (some req) =
      if is_empty req.name || is_empty req.trigger_event
      then pure (reply 422 (str "name and trigger_event are required"))
      else do
        r ← try tx_call
        id ← gets (λ w. uuid w.made)
        when_fine r (reply 500 (str "create failed"))
            (modify (λ w. record w {
              db = record w.db { workflows = w.db.workflows ++ created tenant_id req id ∷ [] };
              made = suc w.made;
            }))
            (reply 201 (o.id_json id))

  abbrev definition_of : Option (Items F) → Workflow → Str
  definition_of none cur = cur.definition
  definition_of (some steps) cur = o.marshal steps

  abbrev changed : UpdateRequest F → Workflow → Workflow → Workflow
  changed req cur f = record f {
    name = or_current req.name cur.name;
    trigger_event = or_current req.trigger_event cur.trigger_event;
    definition = definition_of req.steps cur;
    steps = o.decode_steps (definition_of req.steps cur);
  }

  abbrev store : Str → Str → UpdateRequest F → Workflow → M F Response
  store tenant_id id req cur = do
    r ← try tx_call
    when_fine r (reply 500 (str "update failed"))
        (modify
          (on_workflows (update_own workflow_id workflow_tenant (changed req cur) id tenant_id)))
        (reply 200 (o.id_json id))

  unfoldable pub update_workflow : Str → Str → Option (UpdateRequest F) → M F Response
  unfolding find_own
  update_workflow tenant_id id none = pure (reply 400 (str "invalid json"))
  update_workflow tenant_id id (some req) = do
    r ← try tx_call
    found ← gets (λ w. find_own workflow_id workflow_tenant id tenant_id w.db.workflows)
    answer_row r found not_found (store tenant_id id req)
