-- ===== src/Workflows/Engine/Started.antt =====
-- An event from its workflow to the messages of the new run, and a resume event (engine.go).
use qeet_notify.Base.{
  ℕ, suc, ◌≡◌, refl, none, some, List, [], ◌∷◌, ◌++◌, All, arith, length, ◌&&◌, false,
}
use qeet_notify.Base.Int.{pos}
use qeet_notify.Base.Text.{Str, str_eq_sound}
use qeet_notify.Workflows.Json.{Floats}
use qeet_notify.Workflows.Types.{Step, Event}
use qeet_notify.Platform.Tables.{Workflow, Run, is_running}
use qeet_notify.Platform.World.{World, ok, visible}
use qeet_notify.Platform.World.Calm.{IsCalm, tx_call-calm}
use qeet_notify.Workflows.Engine.{execute_from, update_run}
use qeet_notify.Workflows.Engine.Runs.{
  find_workflow, lookup_workflow, new_run, create_run, process_event, find_running, resume,
}
use qeet_notify.Workflows.Engine.Stretch.{IsLinear}
use qeet_notify.Workflows.Engine.Linear.{messages, stop, execute_from-linear}

module _ {F : Type 0} (fl : Floats F) (uuid : ℕ → Str) (ev : Event F) where
  -- The world with the row of the new run.
  abbrev pub created : Str → World F → World F
  created workflow_id w = record w {
    db = record w.db { runs = w.db.runs ++ new_run fl uuid ev workflow_id (uuid w.made) ∷ [] };
    made = suc w.made;
  }

  process_event-found :
      (wf : Workflow) (steps : List Step) (w : World F)
      → IsCalm w
      → find_workflow ev.tenant_id ev.event w.db.workflows ≡ some wf
      → wf.steps ≡ some steps
      → process_event fl uuid ev w
        ≡ execute_from fl uuid ev steps (uuid w.made) (pos 0) (created wf.id w)
  unfolding process_event lookup_workflow create_run
  process_event-found wf steps w calm found decoded = simp (tx_call-calm w calm, found, decoded)

-- An event whose tenant has an active workflow for it, with linear steps: when no call fails,
-- ProcessEvent inserts one run, publishes one job for each channel step that the subscriber has not
-- opted out of, in order, up to the first delay, and leaves the new run paused behind that delay or
-- completed; the other runs keep their rows unless they share the new id.
pub process_event-linear :
    {F : Type 0} (fl : Floats F) (uuid : ℕ → Str) (ev : Event F) (wf : Workflow) (steps : List Step)
    (w : World F)
    → IsCalm w
    → find_workflow ev.tenant_id ev.event w.db.workflows ≡ some wf
    → wf.steps ≡ some steps
    → All IsLinear steps
    → let out = process_event fl uuid ev w in
      (out.0 ≡ ok tt)
      × (out.1.published
          ≡ w.published ++ messages fl uuid ev (uuid w.made) w.db.preferences (suc w.made) steps)
      × (out.1.db.runs
          ≡ (update_run
              (uuid w.made)
              (stop fl uuid ev (uuid w.made) w.now (length steps) 0 steps)
              (created fl uuid ev wf.id w)).db.runs)
process_event-linear fl uuid ev wf steps w calm found decoded linear =
    rw (process_event-found fl uuid ev wf steps w calm found decoded) (
      execute_from-linear fl uuid ev [] steps (uuid w.made) (created fl uuid ev wf.id w) linear
        (record { healthy = calm.healthy; answers = calm.answers }))

find_running-idle :
    {F : Type 0} (run_id : Str) (w : World F) (rs : List (Run F))
    → All (λ r. r.id ≡ run_id → (is_running r.status && visible w r.tenant_id) ≡ false) rs
    → find_running w run_id rs ≡ none
unfolding find_running
find_running-idle run_id w [] h = refl
find_running-idle run_id w (r ∷ rs) (idle, h) =
    ground (arith, find_running-idle run_id w rs h, str_eq_sound r.id run_id, idle)

-- Resuming a run changes nothing and is no error where each row of its id is not running any more,
-- or belongs to another tenant than the transaction's and row-level security applies; no call fails.
resume_idle :
    {F : Type 0} (fl : Floats F) (uuid : ℕ → Str) (run_id : Str) (w : World F)
    → IsCalm w
    → All (λ r. r.id ≡ run_id → (is_running r.status && visible w r.tenant_id) ≡ false) w.db.runs
    → resume fl uuid run_id w ≡ (ok tt, w)
unfolding resume
resume_idle fl uuid run_id w calm idle =
    simp (tx_call-calm w calm, find_running-idle run_id w w.db.runs idle)
