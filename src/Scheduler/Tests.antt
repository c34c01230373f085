-- ===== src/Scheduler/Tests.antt =====
-- The scheduler on two runs, and its theorems at concrete inputs.
use qeet_notify.Base.{
  Bool, List, length, select, ℕ, ◌≡◌, refl, true, false, some, [], ◌∷◌, arith, map, All,
}
use qeet_notify.Base.Int.{ℤ, pos}
use qeet_notify.Base.Text.{Str, str, str_eq}
use qeet_notify.Workflows.Json.{end}
use qeet_notify.Platform.Tables.{Run, running}
use qeet_notify.Platform.Samples.{empty_db, calm_world}
use qeet_notify.Platform.World.{World, ok, event_body}
use qeet_notify.Scheduler.{scan, due_runs, is_due, requeue}
use qeet_notify.Scheduler.Lost.{requeue-unpublished}
use qeet_notify.Scheduler.Requeue.{scan-scan}
use qeet_notify.Scheduler.Order.{EarliestFirst}
use qeet_notify.Platform.Messaging.{event_subject}

abbrev paused : Str → ℤ → Run ℕ
paused id at = record {
  id = id;
  tenant_id = str "t";
  workflow_id = str "w";
  subscriber_id = str "u";
  trigger_event = str "order";
  trigger_payload = some end;
  status = running;
  current_step_index = pos 1;
  resume_at = some at;
  error = [];
}

abbrev waiting : World ℕ
waiting = calm_world (record empty_db {
  runs = paused (str "b") (pos 900) ∷ paused (str "a") (pos 800) ∷ paused (str "c") (pos 1001) ∷ [];
})

in_order : due_runs waiting (str "t") ≡ str "a" ∷ str "b" ∷ []
unfolding due_runs str_eq
in_order = refl

scan-scan_example :
    ((rs : List (Run ℕ)) × EarliestFirst rs
      × ((p : Run ℕ → Bool)
          → length (select p rs)
            ≡ length (select p (select (is_due waiting (str "t")) waiting.db.runs)))
      × ((scan (str "t") waiting).1.published
          ≡ map
              (λ r. record {
                subject = event_subject (str "t");
                body = event_body (record {
                  tenant_id = str "t";
                  subscriber_id = [];
                  event = [];
                  payload = end;
                  run_id = r.id;
                });
              })
              rs))
    × ((scan (str "t") (scan (str "t") waiting).1).1.published
        ≡ (scan (str "t") waiting).1.published)
unfolding str_eq
scan-scan_example =
    scan-scan (str "t") waiting (record { healthy = refl; answers = refl }) (omega arith)

abbrev cut_off : World ℕ
cut_off = record waiting { faults = false ∷ true ∷ [] }

requeue-unpublished_example :
    let out = requeue (str "t") (str "a") cut_off in
    (out.0 ≡ ok tt)
    × (out.1.aborted ≡ false)
    × (out.1.published ≡ [])
    × All (λ r. r.id ≡ str "a" → is_due out.1 (str "t") r ≡ false) out.1.db.runs
    × (map (λ r. r.status) out.1.db.runs ≡ running ∷ running ∷ running ∷ [])
requeue-unpublished_example = requeue-unpublished (str "t") (str "a") cut_off refl refl
