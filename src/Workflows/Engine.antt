-- ===== src/Workflows/Engine.antt =====
-- domains/workflows/engine/engine.go: events trigger runs of workflows, step by step.
pub mod Runs
pub mod Behaviour
pub mod Total
pub mod Stretch
pub mod Linear
pub mod Started
mod Tests
use qeet_notify.Base.{
  ℕ, zero, suc, ◌+◌, ◌*◌, Bool, true, false, not, ◌&&◌, Option, none, some, List, [], ◌∷◌, ◌++◌,
  map, if◌then◌else◌, ltb, length, get_elem?,
}
use qeet_notify.Base.Int.{ℤ, pos, negsuc, ◌+ℤ◌, scale, wrap_int64}
use qeet_notify.Base.Text.{Str, str, str_eq, is_empty}
use qeet_notify.Workflows.Json.{Value, text, Fields, end, Floats, get_key}
use qeet_notify.Workflows.Types.{
  StepType, channel, delay, condition, unknown, Step, Event, ChannelJob,
}
use qeet_notify.Workflows.Condition.{eval_condition}
use qeet_notify.Platform.Tables.{
  Db, Workflow, Run, running, completed, failed, Notification, queued,
}
use qeet_notify.Platform.World.{
  World, M, Result, ok, err, decode_failed, out_of_fuel, Body, job_body, pure, raise, gets, try,
  modify, tx_call, publish, visible, ◌>>=◌, ◌>>◌,
}
use qeet_notify.Platform.Database.{run_in_tenant}
use qeet_notify.Platform.Messaging.{channel_subject}
use qeet_notify.Subscribers.Preferences.{wildcard, is_opted_in}

-- The map idxByID: a step with an id, the last one where two share it.
unfoldable pub index_from : ℕ → List Step → Str → Option ℕ
index_from i [] target = none
index_from i (s ∷ ss) target = elim (index_from (suc i) ss target) [
  | some k ↦ some k
  | none ↦ if not (is_empty s.id) && str_eq s.id target then some i else none
]

abbrev pub idx_by_id : List Step → Str → Option ℕ
idx_by_id steps target = index_from 0 steps target

abbrev or_next : Option ℕ → ℕ → ℕ
or_next (some k) i = k
or_next none i = suc i

unfoldable pub next_index : List Step → Step → ℕ → ℕ
next_index steps step i =
    if is_empty step.next_step then suc i else or_next (idx_by_id steps step.next_step) i

-- An unknown branch target ends the run, none falls through.
abbrev or_end : Option ℕ → List Step → ℕ
or_end (some k) steps = k
or_end none steps = length steps

unfoldable pub branch : List Step → Str → ℕ → ℕ
branch steps target i = if is_empty target then suc i else or_end (idx_by_id steps target) steps

-- Guard against cycles.
abbrev pub max_iterations : List Step → ℕ
max_iterations steps = length steps * 2 + 10

-- UPDATE workflow_runs … WHERE id = $1, under row-level security.
abbrev pub update_run : {F : Type 0} → Str → (Run F → Run F) → World F → World F
update_run id f w = record w {
  db = record w.db {
    runs = map (λ r. if str_eq r.id id && visible w r.tenant_id then f r else r) w.db.runs;
  };
}

-- Where the loop goes after a step: on to an index, or out by `return nil`.
pub data Next : Type 0 where
  goto : ℕ → Next
  pause : Next

-- time.Duration(n) * time.Second, in nanoseconds.
unfoldable pub seconds : ℤ → ℤ
seconds n = wrap_int64 (scale 1000000000 n)

-- Goes on at the index, or returns.
abbrev pub follow : {F : Type 0} → (ℕ → M F (Unit {0})) → Next → M F (Unit {0})
follow k (goto j) = k j
follow k pause = pure tt

module _ {F : Type 0} (fl : Floats F) (uuid : ℕ → Str) where
  -- payload["category"] if it is a text and not empty, else "all".
  abbrev category_text : Value F → Str
  category_text (text (c ∷ s)) = c ∷ s
  category_text _ = wildcard

  abbrev pub category_of : Fields F → Str
  category_of payload = category_text (get_key (str "category") payload)

  abbrev pub new_notification : Event F → Step → Str → Str → Notification
  new_notification ev step run_id id = record {
    id = id;
    tenant_id = ev.tenant_id;
    workflow_run_id = run_id;
    subscriber_id = ev.subscriber_id;
    channel = step.channel;
    template_id = step.template_id;
    status = queued;
    provider = [];
    provider_message_id = [];
    content = str "{}";
    is_read = false;
  }

  -- INSERT INTO notifications … RETURNING id.
  insert_notification : Event F → Step → Str → M F Str
  insert_notification ev step run_id = do
    tx_call
    id ← gets (λ w. uuid w.made)
    modify (λ w. record w {
      db = record w.db {
        notifications = w.db.notifications ++ new_notification ev step run_id id ∷ [];
      };
      made = suc w.made;
    })
    pure id

  abbrev pub channel_job : Event F → Step → Str → ChannelJob F
  channel_job ev step id = record {
    tenant_id = ev.tenant_id;
    notification_id = id;
    subscriber_id = ev.subscriber_id;
    channel = step.channel;
    template_id = step.template_id;
    payload = ev.payload;
  }

  send_job : Event F → Step → Str → M F (Unit {0})
  send_job ev step run_id = do
    id ← insert_notification ev step run_id
    publish (channel_subject ev.tenant_id step.channel) (job_body (channel_job ev step id))

  unfoldable pub dispatch_channel : Event F → Step → Str → M F (Unit {0})
  unfolding send_job insert_notification
  dispatch_channel ev step run_id = do
    opted_in ← is_opted_in ev.tenant_id ev.subscriber_id step.channel (category_of ev.payload)
    if opted_in then send_job ev step run_id else pure tt

  unfoldable pub fail_run : Str → Str → M F (Unit {0})
  fail_run run_id reason = do
    tx_call
    modify (update_run run_id (λ r. record r { status = failed; error = reason }))

  unfoldable pub complete_run : Str → ℕ → M F (Unit {0})
  complete_run run_id n = do
    tx_call
    modify (update_run run_id (λ r. record r { status = completed; current_step_index = pos n }))

  unfoldable pub pause_run : Str → ℤ → ℕ → M F (Unit {0})
  pause_run run_id delay_seconds next = do
    tx_call
    modify (λ w.
        update_run run_id
          (λ r. record r {
            resume_at = some (w.now +ℤ seconds delay_seconds);
            current_step_index = pos next;
          })
          w)

  -- An error of the condition counts as false.
  abbrev pub holds : Option Bool → Bool
  holds none = false
  holds (some b) = b

  -- One case of the switch for each type of step.
  step_by : StepType → Event F → List Step → Str → Step → ℕ → M F Next
  unfolding dispatch_channel pause_run
  step_by channel ev steps run_id step i = do
    dispatch_channel ev step run_id
    pure (goto (next_index steps step i))
  step_by delay ev steps run_id step i = do
    pause_run run_id step.delay_seconds (next_index steps step i)
    pure pause
  step_by condition ev steps run_id step i = pure (
      goto (
        branch steps
          (if holds (eval_condition fl step.condition ev.payload)
            then step.true_step
            else step.false_step)
          i))
  step_by (unknown _) ev steps run_id step i = pure (goto (suc i))

  unfoldable pub run_step : Event F → List Step → Str → Step → ℕ → M F Next
  unfolding step_by
  run_step ev steps run_id step i = step_by step.type ev steps run_id step i

  -- The loop over the index pointer `i`; `visited` counts its rounds. A round of the source ends in
  -- one of the last two cases; `out_of_fuel` marks a fuel that was too small.
  unfoldable pub walk : Event F → List Step → Str → ℕ → ℕ → ℕ → M F (Unit {0})
  walk ev steps run_id zero visited i = raise out_of_fuel
  walk ev steps run_id (suc fuel) visited i = elim (get_elem? steps i) [
    | none ↦ complete_run run_id (length steps)
    | some step ↦
        if ltb (max_iterations steps) visited
        then fail_run run_id (str "workflow exceeded max steps (cycle?)")
        else run_step ev steps run_id step i >>= λ next.
            follow (walk ev steps run_id fuel (suc visited)) next
  ]

  abbrev from_start : ℤ → ℕ
  from_start (pos n) = n
  from_start (negsuc n) = 0

  unfoldable pub execute_from : Event F → List Step → Str → ℤ → M F (Unit {0})
  execute_from ev steps run_id start =
      walk ev steps run_id (max_iterations steps + 2) 0 (from_start start)
