-- ===== src/Api/Workflows/Tests.antt =====
-- The handlers of workflows at concrete requests.
use qeet_notify.Base.{ℕ, ◌≡◌, refl, false, none, some, [], ◌++◌, arith}
use qeet_notify.Base.Int.{pos}
use qeet_notify.Base.Text.{str, str_eq}
use qeet_notify.Workflows.Json.{nil}
use qeet_notify.Workflows.Samples.{nat_floats, uuid, order, send_wait}
use qeet_notify.Workflows.Engine.{update_run}
use qeet_notify.Workflows.Engine.Linear.{messages, stop}
use qeet_notify.Workflows.Engine.Runs.{find_workflow, process_event}
use qeet_notify.Workflows.Engine.Started.{created}
use qeet_notify.Api.Http.{reply}
use qeet_notify.Api.Workflows.{Outside, CreateRequest, set_active, create_workflow}
use qeet_notify.Api.Workflows.Switched.{set_active-silences, create_workflow-runs}
use qeet_notify.Platform.Samples.{empty_db, calm_world}
use qeet_notify.Platform.World.{World, ok, tx_call}

abbrev outside : Outside ℕ
outside = record {
  rows_json = λ rows n. [];
  row_json = λ r. [];
  runs_json = λ rows. [];
  id_json = λ id. id;
  status_json = λ id status. id ++ status;
  marshal = λ steps. str "steps";
  decode_steps = λ text. some send_wait;
  atoi = λ s. none;
}

abbrev welcome : CreateRequest ℕ
welcome = record { name = str "Welcome"; trigger_event = str "order"; steps = some nil }

abbrev world : World ℕ
world = calm_world empty_db

abbrev running_one : World ℕ
running_one = (create_workflow outside uuid (str "t") (some welcome) world).1

create_workflow-runs_example :
    let out = process_event nat_floats uuid order running_one in
    (out.0 ≡ ok tt)
    × (out.1.published ≡ messages nat_floats uuid order (uuid 1) [] 2 send_wait)
    × (out.1.db.runs
        ≡ (update_run
            (uuid 1)
            (stop nat_floats uuid order (uuid 1) (pos 1000) 2 0 send_wait)
            (created nat_floats uuid order (uuid 0) running_one)).db.runs)
unfolding create_workflow find_workflow tx_call str_eq
create_workflow-runs_example =
    create_workflow-runs outside nat_floats uuid uuid (str "t") welcome send_wait order world
      running_one refl refl refl ((refl, ground arith), ((refl, ground arith), tt)) refl refl refl
      (record { healthy = refl; answers = refl })

abbrev archived : World ℕ
archived = (set_active false (str "t") (uuid 0) (reply 204 []) running_one).1

set_active-silences_example :
    let (r, v) = process_event nat_floats uuid order archived in
    (r ≡ ok tt) × (v.db ≡ archived.db) × (v.published ≡ archived.published)
unfolding create_workflow set_active tx_call str_eq
set_active-silences_example =
    set_active-silences nat_floats uuid order (str "t") (uuid 0) (reply 204 []) running_one archived
      refl refl ((λ h. refl), tt) refl
