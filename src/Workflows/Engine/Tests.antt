-- ===== src/Workflows/Engine/Tests.antt =====
-- The engine on small workflows, and its theorems at concrete inputs.
use qeet_notify.Base.{ℕ, ◌≡◌, ◌≢◌, refl, true, none, some, [], ◌∷◌, arith}
use qeet_notify.Base.Int.{pos}
use qeet_notify.Base.Text.{str, str_eq}
use qeet_notify.Workflows.Json.{end}
use qeet_notify.Workflows.Samples.{nat_floats, uuid, step, order, send_wait}
use qeet_notify.Workflows.Types.{channel}
use qeet_notify.Platform.Tables.{Run, running, Workflow}
use qeet_notify.Platform.Samples.{empty_db, calm_world}
use qeet_notify.Platform.World.{World, err, ok, out_of_fuel}
use qeet_notify.Workflows.Engine.{execute_from, update_run}
use qeet_notify.Workflows.Engine.Runs.{find_workflow, process_event}
use qeet_notify.Workflows.Engine.Started.{created, process_event-linear}
use qeet_notify.Workflows.Engine.Behaviour.{Sends}
use qeet_notify.Workflows.Engine.Total.{execute_from-bounded}
use qeet_notify.Workflows.Engine.Linear.{execute_from-linear, messages, stop}

abbrev run : Run ℕ
run = record {
  id = str "r";
  tenant_id = str "t";
  workflow_id = str "w";
  subscriber_id = str "u";
  trigger_event = str "order";
  trigger_payload = some end;
  status = running;
  current_step_index = pos 0;
  resume_at = none;
  error = [];
}

abbrev one_run : World ℕ
one_run = calm_world (record empty_db { runs = run ∷ [] })

execute_from-bounded_example :
    ((execute_from nat_floats uuid order (step channel (str "s") ∷ []) (str "r") (pos 0) one_run).0
      ≢ err out_of_fuel)
    × Sends order 13 one_run
        (execute_from nat_floats uuid order
          (step channel (str "s") ∷ [])
          (str "r")
          (pos 0)
          one_run).1
execute_from-bounded_example =
    execute_from-bounded nat_floats uuid order (step channel (str "s") ∷ []) (str "r") (pos 0)
      one_run

execute_from-linear_example :
    let out =
      execute_from nat_floats uuid order (step channel [] ∷ send_wait) (str "r") (pos 1) one_run in
    (out.0 ≡ ok tt)
    × (out.1.published ≡ messages nat_floats uuid order (str "r") [] 0 send_wait)
    × (out.1.db.runs
        ≡ (update_run
            (str "r")
            (stop nat_floats uuid order (str "r") (pos 1000) 3 1 send_wait)
            one_run).db.runs)
execute_from-linear_example =
    execute_from-linear nat_floats uuid order (step channel [] ∷ []) send_wait (str "r") one_run
      ((refl, ground arith), ((refl, ground arith), tt)) (record { healthy = refl; answers = refl })

abbrev welcome : Workflow
welcome = record {
  id = str "w";
  tenant_id = str "t";
  trigger_event = str "order";
  name = [];
  definition = [];
  steps = some send_wait;
  is_active = true;
}

abbrev subscribed : World ℕ
subscribed = calm_world (record empty_db { workflows = welcome ∷ [] })

process_event-linear_example :
    let out = process_event nat_floats uuid order subscribed in
    (out.0 ≡ ok tt)
    × (out.1.published ≡ messages nat_floats uuid order (uuid 0) [] 1 send_wait)
    × (out.1.db.runs
        ≡ (update_run
            (uuid 0)
            (stop nat_floats uuid order (uuid 0) (pos 1000) 2 0 send_wait)
            (created nat_floats uuid order (str "w") subscribed)).db.runs)
unfolding find_workflow str_eq
process_event-linear_example =
    process_event-linear nat_floats uuid order welcome send_wait subscribed
      (record { healthy = refl; answers = refl }) refl refl
      ((refl, ground arith), ((refl, ground arith), tt))
